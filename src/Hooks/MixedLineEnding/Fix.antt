-- ===== src/Hooks/MixedLineEnding/Fix.antt =====
-- crates/prek/src/hooks/pre_commit_hooks/mixed_line_ending.rs: the conversion of the line endings and the run over a
-- file. The capacity of the new buffer is left out.
pub mod Reference
mod Slices
pub mod Lf
pub mod Other
pub mod Runs
pub mod Uniform
pub mod Again
use prek.Prelude.{
  ℕ, zero, suc, ◌+◌, ◌-◌, ◌*◌, ◌/◌, ◌%◌, ◌^◌, ◌≤◌, ◌<◌, min, max, ◌≡◌, refl, sym, fun_ext, ap, ap₂,
  subst, ◌∙◌, ◌≢◌, ◌↔◌, ◌⊎◌, inl, inr, Bool, true, false, not, ◌&&◌, ◌||◌, Option, none, some, List,
  [], ◌∷◌, ◌++◌, map, append_assoc, append-nil, arith, ltb, leb, ◌==◌, if◌then◌else◌, ltb→lt,
  ltb→le, lt→ltb, leb→le, ==_iff, Bool-cases, Option-cases, Bytes, codes, length, get_elem?, take,
  drop, any, all, length-append, take-append-drop, length-take, length-drop, take-split,
  take-length, take-append, take-append_add, drop-append_add, take-take, drop-take, drop-length,
  drop-drop, eq_bytes, eq_bytes_iff, All, All-append, All-append_inv, All-drop,
}
use prek.Hooks.Output.{FileRun, known, unchanged}
use prek.Hooks.Bytes.{Memchr, lf, cr, ends_with, is_empty, copy_within}
use prek.Hooks.MixedLineEnding.{
  FixMode, auto, no, to_lf, to_crlf, to_cr, LineEndingCounts, kind_count, has_any_except,
  count_line_endings, find_most_common_ending, lf_bytes, cr_bytes, crlf_bytes,
}

-- The first place of one of two bytes.
unfoldable pub position2 : ℕ → ℕ → Bytes → Option ℕ
position2 a b [] = none
position2 a b (c ∷ rest) =
    if c == a || c == b
    then some 0
    else elim (position2 a b rest) [ none ↦ none | some i ↦ some (suc i) ]

-- `memchr2` of the crate `memchr`, by its documentation.
pub record Memchr2 : Type 0 where
  pub memchr2 : ℕ → ℕ → Bytes → Option ℕ
  pub memchr2_position : (a b : ℕ) (hay : Bytes) → memchr2 a b hay ≡ position2 a b hay

abbrev pub is_byte : ℕ → Option ℕ → Bool
is_byte b none = false
is_byte b (some c) = c == b

-- `contents.get(index) == Some(&byte)`
abbrev pub has_at : Bytes → ℕ → ℕ → Bool
has_at contents index byte = is_byte byte (get_elem? contents index)

pub needs_final_ending : Bytes → Bool
needs_final_ending contents =
    not (is_empty contents)
    && (not (ends_with contents cr_bytes) && not (ends_with contents lf_bytes))

-- `contents[index] = byte`, inside the slice.
abbrev pub set_at : ℕ → ℕ → Bytes → Bytes
set_at index byte contents = take index contents ++ byte ∷ drop (suc index) contents

-- The variables of the loop that converts to LF in place.
pub record LfState : Type 0 where
  pub contents : Bytes
  pub copied : ℕ
  pub written : ℕ

-- One round, for the CR at `index`.
pub lf_round : ℕ → LfState → LfState
lf_round index s =
    let next = index + 1 + (if has_at s.contents (index + 1) lf then 1 else 0) in
    let written = s.written + (index - s.copied) in
    record {
      contents = set_at written lf (copy_within s.copied index s.written s.contents);
      written = written + 1;
      copied = next;
    }

-- The variables of the loop for another ending.
pub record OtherState : Type 0 where
  pub new_contents : Bytes
  pub line_start : ℕ
  pub search_start : ℕ

abbrev pub ending_len : Bytes → ℕ → ℕ
ending_len contents index =
    if has_at contents index cr && has_at contents (index + 1) lf then 2 else 1

-- `&contents[start..end]`
abbrev pub slice : ℕ → ℕ → Bytes → Bytes
slice start end contents = take (end - start) (drop start contents)

-- One round, for the ending at `index`.
pub other_round : Bytes → Bytes → ℕ → OtherState → OtherState
other_round contents ending index s =
    let search_start = index + ending_len contents index in
    if eq_bytes (slice index search_start contents) ending
    then record s { search_start = search_start }
    else record {
      new_contents = s.new_contents ++ slice s.line_start index contents ++ ending;
      line_start = search_start;
      search_start = search_start;
    }

abbrev pub lf_start : Bytes → LfState
lf_start contents = record { contents = contents; copied = 0; written = 0 }

-- The last copy, the truncation and the final ending.
pub lf_finish : Bool → LfState → Bytes
lf_finish needs_final s =
    let truncated =
      take (s.written + length s.contents - s.copied)
        (copy_within s.copied (length s.contents) s.written s.contents) in
    if needs_final then truncated ++ lf ∷ [] else truncated

abbrev pub other_start : OtherState
other_start = record { new_contents = []; line_start = 0; search_start = 0 }

pub other_finish : Bytes → Bytes → OtherState → Bytes
other_finish contents ending s =
    let all_lines = s.new_contents ++ drop s.line_start contents in
    if ltb s.search_start (length contents) then all_lines ++ ending else all_lines

abbrev pub lf_end : Bool → Option LfState → Option Bytes
lf_end needs_final none = none
lf_end needs_final (some s) = some (lf_finish needs_final s)

abbrev pub other_end : Bytes → Bytes → Option OtherState → Option Bytes
other_end contents ending none = none
other_end contents ending (some s) = some (other_finish contents ending s)

abbrev pub is_some {ℓ} : {A : Type ℓ} → Option A → Bool
is_some none = false
is_some (some a) = true

-- The modes that a file without CR passes at once.
abbrev pub needs_cr : FixMode → Bool
needs_cr auto = true
needs_cr no = true
needs_cr to_lf = true
needs_cr to_crlf = false
needs_cr to_cr = false

abbrev pub passed_run : Bytes → FileRun
passed_run contents = record { result = unchanged 0 []; content = contents }

-- `none` where the mode is to report only.
abbrev pub target_ending : FixMode → LineEndingCounts → Option Bytes
target_ending no counts = none
target_ending auto counts = some (find_most_common_ending counts)
target_ending to_lf counts = some lf_bytes
target_ending to_crlf counts = some crlf_bytes
target_ending to_cr counts = some cr_bytes

abbrev pub report_run : Bytes → LineEndingCounts → Bytes → FileRun
report_run display_path counts contents =
    if ltb 1 (kind_count counts)
    then record {
      result = unchanged 1 (display_path ++ codes ": mixed line endings\n");
      content = contents;
    }
    else passed_run contents

abbrev pub fixing_run : Bytes → Bytes → FileRun
fixing_run display_path contents = record {
  result = known 1 (codes "Fixing " ++ display_path ++ lf ∷ []) true;
  content = contents;
}

abbrev pub written_run : Bytes → Option Bytes → Option FileRun
written_run display_path none = none
written_run display_path (some contents) = some (fixing_run display_path contents)

module _ (m : Memchr) (m2 : Memchr2) where
  -- `none` means that the fuel ran out.
  pub lf_loop : ℕ → LfState → Option LfState
  unfolding lf_round
  lf_loop zero s = none
  lf_loop (suc fuel) s = elim (m.memchr cr (drop s.copied s.contents)) [
    | none ↦ some s
    | some offset ↦ lf_loop fuel (lf_round (s.copied + offset) s)
  ]

  pub other_loop : Bytes → Bytes → ℕ → OtherState → Option OtherState
  unfolding other_round
  other_loop contents ending zero s = none
  other_loop contents ending (suc fuel) s = elim (m2.memchr2 cr lf (drop s.search_start contents)) [
    | none ↦ some s
    | some offset ↦
        other_loop contents ending fuel (other_round contents ending (s.search_start + offset) s)
  ]

  pub normalize_line_endings : Bytes → Bytes → Option Bytes
  unfolding lf_loop lf_finish other_loop other_finish needs_final_ending
  normalize_line_endings contents ending =
      if eq_bytes ending lf_bytes
      then lf_end (needs_final_ending contents)
          (lf_loop (suc (length contents)) (lf_start contents))
      else other_end contents ending
          (other_loop contents ending (suc (length contents)) other_start)

  -- The rest of the run for a target.
  pub fix_target : Bytes → Bytes → LineEndingCounts → Option Bytes → Option FileRun
  unfolding normalize_line_endings kind_count has_any_except
  fix_target display_path contents counts none = some (report_run display_path counts contents)
  fix_target display_path contents counts (some ending) =
      if not (has_any_except counts ending)
      then some (passed_run contents)
      else written_run display_path (normalize_line_endings contents ending)

  pub fix_file : FixMode → Bytes → Bytes → Option FileRun
  unfolding fix_target count_line_endings find_most_common_ending
  fix_file fix_mode display_path contents =
      if needs_cr fix_mode && not (is_some (m.memchr cr contents))
      then some (passed_run contents)
      else if is_empty contents || is_some (m.memchr 0 contents)
      then some (passed_run contents)
      else let counts = count_line_endings contents in
        fix_target display_path contents counts (target_ending fix_mode counts)
