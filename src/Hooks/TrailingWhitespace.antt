-- ===== src/Hooks/TrailingWhitespace.antt =====
-- crates/prek/src/hooks/pre_commit_hooks/fix_trailing_whitespace.rs. The file is its bytes, which
-- the loop compacts in place; errors of the file system are left out. `memchr` and the `bstr` method
-- `trim_end_with` on the characters of `--chars` are parameters, the latter as the number of bytes it keeps.
pub mod Lines
pub mod Loop
pub mod Clean
pub mod Skip
pub mod Fixes
pub mod Runs
mod Tests
use prek.Prelude.{
  ℕ, zero, suc, ◌+◌, ◌-◌, Bytes, List, [], ◌∷◌, ◌++◌, Bool, true, false, not, ◌&&◌, ◌||◌, Option,
  none, some, length, take, drop, any, ltb, leb, ◌==◌, if◌then◌else◌, codes,
}
use prek.Hooks.Output.{HookOutput, FileRun, known, unchanged}
use prek.Hooks.Bytes.{
  Memchr, lf, cr, ends_with, is_ascii_whitespace, is_empty, trim_end, trim_start, copy_within,
  position,
}

abbrev pub markdown_line_break : Bytes
markdown_line_break = codes "  "

-- The length of the line ending.
pub detect_line_ending : Bytes → ℕ
detect_line_ending line =
    if ends_with line (codes "\r\n")
    then 2
    else if ends_with line (codes "\n")
    then 1
    else if ends_with line (codes "\r")
    then 1
    else 0

pub needs_markdown_break : Bool → Bytes → Bool
needs_markdown_break is_markdown trimmed =
    is_markdown
    && ends_with trimmed markdown_line_break
    && not (is_empty (trim_start is_ascii_whitespace trimmed))

abbrev pub is_trailing : Option ℕ → Bool
is_trailing none = false
is_trailing (some b) = b == b' ' || b == b'\t' || b == 12 || b == cr

abbrev pub last : Bytes → Option ℕ
last [] = none
last (b ∷ []) = some b
last (b ∷ c ∷ rest) = last (c ∷ rest)

abbrev pub strip_cr : Bytes → Bytes
strip_cr prefix = if ends_with prefix (codes "\r") then take (length prefix - 1) prefix else prefix

-- `memchr_iter(b'\n', content).chain(once(content.len()))`: the indices of LF from `index` on.
abbrev pub line_ends : Bytes → ℕ → List ℕ
line_ends [] index = index ∷ []
line_ends (b ∷ rest) index =
    let more = line_ends rest (index + 1) in if b == lf then index ∷ more else more

abbrev pub first_line_from : Bytes → List ℕ → ℕ → Option ℕ
first_line_from content [] start = none
first_line_from content (index ∷ more) start =
    let rest = first_line_from content more (index + 1) in
    if is_trailing (last (strip_cr (take index content))) then some start else rest

pub first_line_with_trailing_whitespace : Bytes → Option ℕ
first_line_with_trailing_whitespace content = first_line_from content (line_ends content 0) 0

-- What the loop knows of the arguments. `kept` is `trim_end_with` of `--chars`.
pub record Options : Type 0 where
  pub chars : Option (Bytes → ℕ)
  pub is_markdown : Bool
  pub check : Bool

-- The number of bytes of a line body that stay: `trim_end_with` or `trim_ascii_end`.
abbrev pub kept_len : Option (Bytes → ℕ) → Bytes → ℕ
kept_len none body = length (trim_end is_ascii_whitespace body)
kept_len (some kept) body = kept body

-- Where the part that may be trimmed begins and ends, counted from the start of the line.
pub record Cut : Type 0 where
  pub suffix_start : ℕ
  pub trimmed_end : ℕ

pub cut_line : Options → Bytes → Cut
unfolding detect_line_ending needs_markdown_break
cut_line o line =
    let body = take (length line - detect_line_ending line) line in
    let trimmed =
      if needs_markdown_break o.is_markdown body
      then take (length body - length markdown_line_break) body
      else body in
    record { suffix_start = length trimmed; trimmed_end = kept_len o.chars trimmed }

-- The variables of the loop.
pub record State : Type 0 where
  pub content : Bytes
  pub line_start : ℕ
  pub copied : ℕ
  pub written : ℕ

-- How the loop ends: a line would change under `--check`, or all lines are done.
pub data LoopEnd : Type 0 where
  would_fix : LoopEnd
  finished : State → LoopEnd

-- Compact the unchanged run before the whitespace.
pub compact : State → Cut → State
compact s c =
    let trimmed_end = s.line_start + c.trimmed_end in
    record s {
      content = copy_within s.copied trimmed_end s.written s.content;
      written = s.written + (trimmed_end - s.copied);
      copied = s.line_start + c.suffix_start;
    }

module _ (m : Memchr) (o : Options) where
  pub line_len : State → ℕ
  line_len s = elim (m.memchr lf (drop s.line_start s.content)) [
    | none ↦ length s.content - s.line_start
    | some index ↦ index + 1
  ]

  -- `none` means that the fuel ran out.
  pub fix_lines : ℕ → State → Option LoopEnd
  unfolding cut_line compact
  fix_lines zero s = none
  fix_lines (suc fuel) s =
      let line_end = s.line_start + line_len s in
      let c = cut_line o (take (line_len s) (drop s.line_start s.content)) in
      let fixed = record (compact s c) { line_start = line_end } in
      let clean = record s { line_start = line_end } in
      let after_fix = fix_lines fuel fixed in
      let after_clean = fix_lines fuel clean in
      if leb (length s.content) s.line_start
      then some (finished s)
      else if c.trimmed_end == c.suffix_start
      then after_clean
      else if o.check
      then some would_fix
      else after_fix

  pub start_line : Bytes → Option ℕ
  start_line content = elim o.chars [
    | none ↦ if o.is_markdown then some 0 else first_line_with_trailing_whitespace content
    | some _ ↦ some 0
  ]

  -- The file when the loop has ended.
  pub finish : Bytes → Bytes → LoopEnd → FileRun
  finish display_path original would_fix = record {
    result = unchanged 1 (codes "Would fix " ++ (display_path ++ lf ∷ []));
    content = original;
  }
  finish display_path original (finished s) =
      if s.copied == 0 then record { result = unchanged 0 []; content = original } else record {
        result = known 1 (codes "Fixing " ++ (display_path ++ lf ∷ [])) true;
        content =
            take (s.written + length s.content - s.copied)
              (copy_within s.copied (length s.content) s.written s.content);
      }

  pub fix_file : Bytes → Bytes → Option FileRun
  unfolding line_len fix_lines start_line finish
  fix_file display_path content = elim (start_line content) [
    | none ↦ some (record { result = unchanged 0 []; content = content })
    | some line_start ↦
        elim (fix_lines (suc (length content))
          (record { content = content; line_start = line_start; copied = 0; written = 0 })) [
            | none ↦ none
            | some loop_end ↦ some (finish display_path content loop_end)
          ]
  ]
