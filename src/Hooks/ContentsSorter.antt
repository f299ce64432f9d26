-- ===== src/Hooks/ContentsSorter.antt =====
-- crates/prek/src/hooks/pre_commit_hooks/file_contents_sorter.rs. The file is its bytes; errors of the file system are
-- left out. What the crate `bstr` gives is a parameter.
pub mod Order
pub mod Lines
pub mod Again
mod Tests
use prek.Prelude.{
  ℕ, zero, suc, ◌+◌, ◌-◌, ◌*◌, ◌/◌, ◌%◌, ◌^◌, ◌≤◌, ◌<◌, min, max, ◌≡◌, refl, sym, fun_ext, ap, ap₂,
  subst, ◌∙◌, ◌≢◌, ◌↔◌, ◌⊎◌, inl, inr, Bool, true, false, not, ◌&&◌, ◌||◌, Option, none, some, List,
  [], ◌∷◌, ◌++◌, map, append_assoc, append-nil, arith, ltb, leb, ◌==◌, if◌then◌else◌, ltb→lt,
  ltb→le, lt→ltb, leb→le, ==_iff, Bool-cases, Option-cases, Bytes, codes, length, get_elem?, take,
  drop, any, all, length-append, take-append-drop, length-take, length-drop, take-split,
  take-length, take-append, take-append_add, drop-append_add, take-take, drop-take, drop-length,
  drop-drop, eq_bytes, eq_bytes_iff, All, All-append, All-append_inv, All-drop,
}
use prek.Hooks.Output.{FileRun, known, unchanged}
use prek.Hooks.Bytes.{lf, cr, is_ascii_whitespace, trim_end, is_empty}

abbrev extend : ℕ → List Bytes → List Bytes
extend b [] = (b ∷ []) ∷ []
extend b (line ∷ more) = (b ∷ line) ∷ more

-- The lines with their LF.
unfoldable pub split_lines : Bytes → List Bytes
split_lines [] = []
split_lines (b ∷ rest) =
    let more = split_lines rest in if b == lf then (b ∷ []) ∷ more else extend b more

-- `matches!(byte, '\n' | '\r')`
abbrev pub is_line_end : ℕ → Bool
is_line_end b = b == lf || b == cr

-- `lines_with_terminator` and `trim_end_with` on line endings, by the documentation of `bstr`.
pub record Bstr : Type 0 where
  pub lines_with_terminator : Bytes → List Bytes
  pub trim_end_with : Bytes → Bytes
  pub lines_with_terminator_split : (text : Bytes) → lines_with_terminator text ≡ split_lines text
  pub trim_end_with_line_ends : (line : Bytes) → trim_end_with line ≡ trim_end is_line_end line

-- `to_ascii_lowercase`
abbrev to_lower : ℕ → ℕ
to_lower b = if leb b'A' b && leb b b'Z' then b + 32 else b

abbrev to_ascii_lowercase : Bytes → Bytes
to_ascii_lowercase line = map to_lower line

abbrev pub key : Bool → Bytes → Bytes
key ignore_case line = if ignore_case then to_ascii_lowercase line else line

-- The order of byte slices.
unfoldable pub le_bytes : Bytes → Bytes → Bool
le_bytes [] ys = true
le_bytes (x ∷ xs) [] = false
le_bytes (x ∷ xs) (y ∷ ys) = ltb x y || (x == y && le_bytes xs ys)

-- The stable sort of the standard library, by a key. Lines with equal keys keep their order; without
-- `ignore_case` they are the same line, so an unstable sort gives that list too.
unfoldable pub insert : (Bytes → Bytes) → Bytes → List Bytes → List Bytes
insert k line [] = line ∷ []
insert k line (other ∷ sorted) =
    let rest = insert k line sorted in
    if le_bytes (k line) (k other) then line ∷ (other ∷ sorted) else other ∷ rest

unfoldable pub sort : (Bytes → Bytes) → List Bytes → List Bytes
unfolding insert
sort k [] = []
sort k (line ∷ lines) = insert k line (sort k lines)

-- `dedup`: of equal lines that stand together, the first stays.
unfoldable pub dedup : List Bytes → List Bytes
dedup [] = []
dedup (line ∷ []) = line ∷ []
dedup (line ∷ (next ∷ lines)) =
    let rest = dedup (next ∷ lines) in if eq_bytes line next then rest else line ∷ rest

-- `flat_map(|line| [line, b"\n"])`, put together.
abbrev pub joined : List Bytes → Bytes
joined [] = []
joined (line ∷ lines) = line ++ (lf ∷ joined lines)

-- `contents_equal` in hooks/pre_commit_hooks/mod.rs
abbrev strip : Bytes → Bytes → Option Bytes
strip original [] = some original
strip [] (c ∷ chunk) = none
strip (b ∷ original) (c ∷ chunk) = if b == c then strip original chunk else none

abbrev chunks_of : List Bytes → List Bytes
chunks_of [] = []
chunks_of (line ∷ lines) = line ∷ ((lf ∷ []) ∷ chunks_of lines)

unfoldable pub contents_equal : Bytes → List Bytes → Bool
contents_equal original [] = is_empty original
contents_equal original (chunk ∷ chunks) = elim (strip original chunk) [
  | none ↦ false
  | some rest ↦ contents_equal rest chunks
]

module _ (m : Bstr) where
  pub normalize_line : Bytes → Option Bytes
  normalize_line line =
      let trimmed = m.trim_end_with line in
      if all is_ascii_whitespace trimmed then none else some trimmed

  abbrev push_some : Option Bytes → List Bytes → List Bytes
  push_some none lines = lines
  push_some (some line) lines = line ∷ lines

  -- `filter_map(normalize_line)`
  pub normalize_lines : List Bytes → List Bytes
  unfolding normalize_line
  normalize_lines [] = []
  normalize_lines (line ∷ lines) = push_some (normalize_line line) (normalize_lines lines)

  pub sorted_lines : Bytes → Bool → Bool → List Bytes
  unfolding normalize_lines sort dedup
  sorted_lines before ignore_case unique =
      let lines = normalize_lines (m.lines_with_terminator before) in
      if ignore_case
      then sort (key true) lines
      else (if unique then dedup (sort (key false) lines) else sort (key false) lines)

  pub sort_file : Bool → Bool → Bool → Bytes → Bytes → FileRun
  unfolding sorted_lines contents_equal
  sort_file check ignore_case unique display_path before =
      let lines = sorted_lines before ignore_case unique in
      if contents_equal before (chunks_of lines)
      then record { result = unchanged 0 []; content = before }
      else if check
      then record {
        result = unchanged 1 (codes "Would sort " ++ display_path ++ codes "\n");
        content = before;
      }
      else record {
        result = known 1 (codes "Sorting " ++ display_path ++ codes "\n") true;
        content = joined lines;
      }
