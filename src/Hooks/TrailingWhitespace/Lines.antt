-- ===== src/Hooks/TrailingWhitespace/Lines.antt =====
-- crates/prek/src/hooks/pre_commit_hooks/fix_trailing_whitespace.rs: the file as lines, each
-- with its body up to the trailing whitespace, the Markdown break if it has one, and its ending.
use prek.Prelude.{
  ℕ, suc, ◌+◌, ◌-◌, ◌≤◌, ◌<◌, ◌≡◌, inl, inr, refl, sym, ap, ◌∙◌, Bytes, List, [], ◌∷◌, ◌++◌, true,
  false, Option, none, some, length, take, drop, ◌==◌, if◌then◌else◌, arith, length-take,
  take-append-drop, All, append-nil, Bool-cases,
}
use prek.Hooks.Bytes.{lf, position, is_ascii_whitespace, length-trim_end}
use prek.Hooks.TrailingWhitespace.{
  Options, cut_line, kept_len, detect_line_ending, needs_markdown_break, markdown_line_break,
}

abbrev extend : ℕ → List Bytes → List Bytes
extend b [] = (b ∷ []) ∷ []
extend b (line ∷ more) = (b ∷ line) ∷ more

-- The lines with their LF.
unfoldable pub lines : Bytes → List Bytes
lines [] = []
lines (b ∷ rest) = if b == lf then (b ∷ []) ∷ lines rest else extend b (lines rest)

abbrev pub fix_line : Options → Bytes → Bytes
fix_line o line =
    take (cut_line o line).trimmed_end line ++ drop (cut_line o line).suffix_start line

abbrev fix_each : Options → List Bytes → Bytes
fix_each o [] = []
fix_each o (line ∷ more) = fix_line o line ++ fix_each o more

-- The fixed file.
unfoldable pub fixed_content : Options → Bytes → Bytes
fixed_content o content = fix_each o (lines content)

-- The length of the first line.
abbrev pub first_len : Bytes → ℕ
first_len content = elim (position lf content) [ none ↦ length content | some i ↦ i + 1 ]

pub first_len_bounds :
    (b : ℕ) (rest : Bytes) → (0 < first_len (b ∷ rest)) × (first_len (b ∷ rest) ≤ length (b ∷ rest))
unfolding position
first_len_bounds b [] = ground arith
first_len_bounds b (c ∷ rest) = ground (arith, first_len_bounds c rest)

lines-skip : (b : ℕ) (rest : Bytes) → (b == lf) ≡ false → lines (b ∷ rest) ≡ extend b (lines rest)
unfolding lines
lines-skip b rest h = rw h

first_len-skip :
    (b : ℕ) (rest : Bytes) → (b == lf) ≡ false → first_len (b ∷ rest) ≡ suc (first_len rest)
unfolding position
first_len-skip b rest h = ground arith

lines-ends : (b : ℕ) (rest : Bytes) → (b == lf) ≡ true → lines (b ∷ rest) ≡ (b ∷ []) ∷ lines rest
unfolding lines
lines-ends b rest h = rw h

first_len-ends : (b : ℕ) (rest : Bytes) → (b == lf) ≡ true → first_len (b ∷ rest) ≡ 1
unfolding position
first_len-ends b rest h = ground arith

-- The first `k` bytes, and the lines behind them.
abbrev cut_at : Bytes → ℕ → List Bytes
cut_at content k = take k content ∷ lines (drop k content)

abbrev pub NotLf : ℕ → Type 0
NotLf b = (b == lf) ≡ false

lines-line :
    (line rest : Bytes)
    → All NotLf line
    → lines (line ++ lf ∷ rest) ≡ (line ++ lf ∷ []) ∷ lines rest
lines-line [] rest h = lines-ends lf rest refl
lines-line (b ∷ line) rest (hb, h) =
    lines-skip b (line ++ lf ∷ rest) hb ∙ ap (extend b) (lines-line line rest h)

lines-nil : lines [] ≡ []
unfolding lines
lines-nil = refl

lines-last : (b : ℕ) (line : Bytes) → All NotLf (b ∷ line) → lines (b ∷ line) ≡ (b ∷ line) ∷ []
lines-last b [] (hb, h) = lines-skip b [] hb ∙ ap (extend b) lines-nil
lines-last b (c ∷ line) (hb, h) = lines-skip b (c ∷ line) hb ∙ ap (extend b) (lines-last c line h)

lines-first :
    (b : ℕ) (rest : Bytes)
    → lines (b ∷ rest)
      ≡ take (first_len (b ∷ rest)) (b ∷ rest) ∷ lines (drop (first_len (b ∷ rest)) (b ∷ rest))
lines-first b [] = unfold lines position in ground arith
lines-first b (c ∷ rest) = elim (Bool-cases (b == lf)) [
  | inl e ↦
      lines-ends b (c ∷ rest) e ∙ ap (cut_at (b ∷ c ∷ rest)) (sym (first_len-ends b (c ∷ rest) e))
  | inr e ↦
      lines-skip b (c ∷ rest) e
      ∙ ap (extend b) (lines-first c rest)
      ∙ ap (cut_at (b ∷ c ∷ rest)) (sym (first_len-skip b (c ∷ rest) e))
]

pub fixed_content-nil : (o : Options) → fixed_content o [] ≡ []
unfolding fixed_content lines
fixed_content-nil o = refl

pub fixed_content-first :
    (o : Options) (b : ℕ) (rest : Bytes)
    → let n = first_len (b ∷ rest) in
      fixed_content o (b ∷ rest)
      ≡ fix_line o (take n (b ∷ rest)) ++ fixed_content o (drop n (b ∷ rest))
unfolding fixed_content
fixed_content-first o b rest = ap (fix_each o) (lines-first b rest)

pub fixed_content-line :
    (o : Options) (line rest : Bytes)
    → All NotLf line
    → fixed_content o (line ++ lf ∷ rest) ≡ fix_line o (line ++ lf ∷ []) ++ fixed_content o rest
unfolding fixed_content
fixed_content-line o line rest h = ap (fix_each o) (lines-line line rest h)

pub fixed_content-last :
    (o : Options) (line : Bytes)
    → All NotLf line
    → fix_line o line ≡ line
    → fixed_content o line ≡ line
unfolding fixed_content
fixed_content-last o [] h clean = fixed_content-nil o
fixed_content-last o (b ∷ line) h clean =
    ap (fix_each o) (lines-last b line h) ∙ append-nil (fix_line o (b ∷ line)) ∙ clean

-- A line without anything to trim stays.
pub fix_line-clean :
    (o : Options) (line : Bytes)
    → (cut_line o line).trimmed_end ≡ (cut_line o line).suffix_start
    → fix_line o line ≡ line
fix_line-clean o line h =
    ap (λ k. take k line ++ drop (cut_line o line).suffix_start line) h
    ∙ take-append-drop (cut_line o line).suffix_start line

-- `trim_end_with` returns the front of its slice.
abbrev pub KeepsFront : Options → Type 0
KeepsFront o = (kept : Bytes → ℕ) → o.chars ≡ some kept → (body : Bytes) → kept body ≤ length body

kept_len-le : (o : Options) → KeepsFront o → (body : Bytes) → kept_len o.chars body ≤ length body
kept_len-le o h body = go o.chars refl
  where
    go : (c : Option (Bytes → ℕ)) → o.chars ≡ c → kept_len c body ≤ length body
    go none e = length-trim_end is_ascii_whitespace body
    go (some kept) e = h kept e body

pub cut_line_bounds :
    (o : Options)
    → KeepsFront o
    → (line : Bytes)
    → ((cut_line o line).trimmed_end ≤ (cut_line o line).suffix_start)
      × ((cut_line o line).suffix_start ≤ length line)
unfolding cut_line
cut_line_bounds o h line =
    let body = take (length line - detect_line_ending line) line in
    let short = take (length body - length markdown_line_break) body in
    elim (Bool-cases (needs_markdown_break o.is_markdown body)) [
      | inl e ↦ rw e (
        kept_len-le o h short,
        omega (
          arith,
          length-take (length body - length markdown_line_break) body,
          length-take (length line - detect_line_ending line) line,
        ),
      )
      | inr e ↦ rw e (
        kept_len-le o h body,
        omega (arith, length-take (length line - detect_line_ending line) line),
      )
    ]
