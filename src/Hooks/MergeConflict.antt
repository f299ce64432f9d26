-- ===== src/Hooks/MergeConflict.antt =====
-- crates/prek/src/hooks/pre_commit_hooks/check_merge_conflict.rs. The file is the list of what its reads return, up to
-- the first that returns nothing; other errors of the file system are left out, and a read that is interrupted is tried
-- again. `memmem` and `memchr_iter` of the crate `memchr` are parameters.
pub mod Lines
pub mod Window
pub mod Stream
pub mod ExitStatus
mod Tests
use prek.Prelude.{
  ℕ, zero, suc, ◌+◌, ◌-◌, ◌*◌, ◌/◌, ◌%◌, ◌^◌, ◌≤◌, ◌<◌, min, max, ◌≡◌, refl, sym, fun_ext, ap, ap₂,
  subst, ◌∙◌, ◌≢◌, ◌↔◌, ◌⊎◌, inl, inr, Bool, true, false, not, ◌&&◌, ◌||◌, Option, none, some, List,
  [], ◌∷◌, ◌++◌, map, append_assoc, append-nil, arith, ltb, leb, ◌==◌, if◌then◌else◌, ltb→lt,
  ltb→le, lt→ltb, leb→le, ==_iff, Bool-cases, Option-cases, Bytes, codes, length, get_elem?, take,
  drop, any, all, length-append, take-append-drop, length-take, length-drop, take-split,
  take-length, take-append, take-append_add, drop-append_add, take-take, drop-take, drop-length,
  drop-drop, eq_bytes, eq_bytes_iff, All, All-append, All-append_inv, All-drop,
}
use prek.Hooks.Output.{HookOutput, unchanged}
use prek.Hooks.Bytes.{lf}

abbrev pub start_pattern : Bytes
start_pattern = codes "<<<<<<< "

abbrev pub ancestor_pattern : Bytes
ancestor_pattern = codes "||||||| "

abbrev pub end_pattern : Bytes
end_pattern = codes ">>>>>>> "

abbrev pub separator_patterns : List Bytes
separator_patterns = codes "======= " ∷ codes "=======\r\n" ∷ codes "=======\n" ∷ []

-- `starts_with`
unfoldable pub starts_with : Bytes → Bytes → Bool
starts_with [] line = true
starts_with (p ∷ pattern) [] = false
starts_with (p ∷ pattern) (b ∷ line) = b == p && starts_with pattern line

-- Whether the needle stands anywhere.
unfoldable pub occurs : Bytes → Bytes → Bool
occurs needle [] = starts_with needle []
occurs needle (b ∷ hay) = starts_with needle (b ∷ hay) || occurs needle hay

unfoldable pub positions : ℕ → ℕ → Bytes → List ℕ
positions needle index [] = []
positions needle index (b ∷ hay) =
    let rest = positions needle (index + 1) hay in if b == needle then index ∷ rest else rest

abbrev pub is_some {ℓ} : {A : Type ℓ} → Option A → Bool
is_some none = false
is_some (some a) = true

-- The two searches, by their documentation.
pub record Finders : Type 0 where
  pub find : Bytes → Bytes → Option ℕ
  pub memchr_iter : ℕ → Bytes → List ℕ
  pub find_occurs : (needle hay : Bytes) → is_some (find needle hay) ≡ occurs needle hay
  pub memchr_iter_positions :
      (needle : ℕ) (hay : Bytes) → memchr_iter needle hay ≡ positions needle 0 hay

-- A number as text, on more fuel than it has digits.
pub digits : ℕ → ℕ → Bytes
digits zero n = []
digits (suc fuel) n =
    let front = digits fuel (n / 10) in
    if ltb n 10 then (b'0' + n) ∷ [] else front ++ (b'0' + n % 10) ∷ []

-- The variables of the loop that the lines change.
pub record State : Type 0 where
  pub line_number : ℕ
  pub in_conflict : Bool
  pub code : ℕ
  pub output : Bytes

pub write_conflict_message : Bytes → ℕ → Bytes → Bytes
unfolding digits
write_conflict_message display_path line_number pattern =
    display_path
    ++ b':' ∷ digits (suc line_number) line_number
    ++ codes ": Merge conflict string \""
    ++ pattern
    ++ codes "\" found\n"

pub report_conflict : Bytes → Bytes → State → State
unfolding write_conflict_message
report_conflict display_path pattern s = record s {
  output = s.output ++ write_conflict_message display_path s.line_number pattern;
  code = 1;
}

-- `line` is the rest of the buffer from the start of the line on.
pub check_line : Bytes → Bytes → State → State
unfolding starts_with report_conflict
check_line display_path line s =
    if starts_with start_pattern line
    then record (report_conflict display_path (codes "<<<<<<< ") s) { in_conflict = true }
    else if s.in_conflict && starts_with ancestor_pattern line
    then report_conflict display_path (codes "||||||| ") s
    else if s.in_conflict && any (λ pattern. starts_with pattern line) separator_patterns
    then report_conflict display_path (codes "=======") s
    else if starts_with end_pattern line
    then record (report_conflict display_path (codes ">>>>>>> ") s) { in_conflict = false }
    else s

abbrev pub next_line : State → State
next_line s = record s { line_number = s.line_number + 1 }

-- The loop over the newlines.
pub check_newlines : Bytes → Bytes → ℕ → List ℕ → State → State
unfolding check_line
check_newlines display_path content consumed [] s = s
check_newlines display_path content consumed (index ∷ newlines) s =
    let after =
      if ltb (index + 1) consumed
      then check_line display_path (drop (index + 1) content) (next_line s)
      else next_line s in
    check_newlines display_path content consumed newlines after

abbrev pub is_newline_at : Bytes → ℕ → Bool
is_newline_at content index = elim (get_elem? content index) [ none ↦ false | some b ↦ b == lf ]

abbrev pub lookahead : ℕ
lookahead = 8

abbrev pub next_at_line_start : Bool → Bytes → ℕ → Bool
next_at_line_start at_line_start content consumed =
    if ltb 0 consumed then is_newline_at content (consumed - 1) else at_line_start

abbrev pub start : State
start = record { line_number = 1; in_conflict = false; code = 0; output = [] }

module _ (f : Finders) (display_path : Bytes) where
  -- The test whether the buffer is worth a visit of its lines.
  pub may_conflict : Bool → Bytes → State → Bool
  may_conflict at_line_start content s =
      s.in_conflict
      || ((at_line_start && (starts_with start_pattern content || starts_with end_pattern content))
          || (is_some (f.find (codes "\n<<<<<<< ") content)
              || is_some (f.find (codes "\n>>>>>>> ") content)))

  -- The lines that begin in the first `consumed` bytes.
  pub check_content : Bool → Bytes → ℕ → State → State
  unfolding may_conflict check_newlines
  check_content at_line_start content consumed s =
      let newlines = f.memchr_iter lf (take consumed content) in
      if may_conflict at_line_start content s
      then check_newlines display_path content consumed newlines
          (if ltb 0 consumed && at_line_start then check_line display_path content s else s)
      else record s { line_number = s.line_number + length newlines }

  -- The loop over the reads; `carry` is what the buffer keeps.
  pub check_reads : Bool → Bytes → List Bytes → State → State
  unfolding check_content
  check_reads at_line_start carry [] s = check_content at_line_start carry (length carry) s
  check_reads at_line_start carry ([] ∷ reads) s =
      check_content at_line_start carry (length carry) s
  check_reads at_line_start carry ((b ∷ read) ∷ reads) s =
      let content = carry ++ (b ∷ read) in
      let consumed = length content - lookahead in
      check_reads (next_at_line_start at_line_start content consumed) (drop consumed content) reads
        (check_content at_line_start content consumed s)

  pub check_file : List Bytes → HookOutput
  unfolding check_reads
  check_file reads = let s = check_reads true [] reads start in unchanged s.code s.output

-- Whether the files are checked at all; `exists` says which files the directory of Git has.
pub is_in_merge : (Bytes → Bool) → Bool
is_in_merge exists =
    if not (exists (codes "MERGE_MSG"))
    then false
    else exists (codes "MERGE_HEAD")
      || (exists (codes "rebase-apply") || exists (codes "rebase-merge"))
