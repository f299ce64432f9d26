-- ===== src/Hooks/ContentsSorter/Lines.antt =====
-- crates/prek/src/hooks/pre_commit_hooks/file_contents_sorter.rs: the lines that stay, read again from a file of such
-- lines.
use prek.Prelude.{
  ℕ, ◌≡◌, refl, sym, ap, ap₂, subst, ◌∙◌, inl, inr, Bool, true, false, not, ◌&&◌, none, some, List,
  [], ◌∷◌, ◌++◌, arith, ◌==◌, if◌then◌else◌, Bool-cases, Option-cases, Bytes, all, eq_bytes,
  eq_bytes_iff,
}
use prek.Hooks.Bytes.{lf, is_ascii_whitespace, trim_end}
use prek.Hooks.ContentsSorter.{
  Bstr, extend, split_lines, is_line_end, normalize_line, normalize_lines, push_some, joined, strip,
  chunks_of, contents_equal,
}

abbrev lacks_lf : Bytes → Bool
lacks_lf line = all (λ b. not (b == lf)) line

-- A line that stays: without LF, without a line ending at its end, and not blank.
abbrev pub is_kept : Bytes → Bool
is_kept line =
    lacks_lf line
    && (eq_bytes (trim_end is_line_end line) line && not (all is_ascii_whitespace line))

-- An LF only at the end.
abbrev pub is_line : Bytes → Bool
is_line [] = true
is_line (b ∷ []) = true
is_line (b ∷ (c ∷ rest)) = not (b == lf) && is_line (c ∷ rest)

extend-is_line :
    (b : ℕ) (lines : List Bytes)
    → (b == lf) ≡ false
    → all is_line lines ≡ true
    → all is_line (extend b lines) ≡ true
extend-is_line b [] h k = refl
extend-is_line b ([] ∷ lines) h k = ground arith
extend-is_line b ((c ∷ line) ∷ lines) h k = ground arith

pub split_lines-is_line : (text : Bytes) → all is_line (split_lines text) ≡ true
unfolding split_lines
split_lines-is_line [] = refl
split_lines-is_line (b ∷ rest) = elim (Bool-cases (b == lf)) [
  | inl e ↦ rw e (split_lines-is_line rest)
  | inr e ↦ rw e (extend-is_line b (split_lines rest) e (split_lines-is_line rest))
]

trim_end-lacks_lf :
    (line : Bytes) → is_line line ≡ true → lacks_lf (trim_end is_line_end line) ≡ true
unfolding trim_end
trim_end-lacks_lf [] h = refl
trim_end-lacks_lf (b ∷ []) h = ground arith
trim_end-lacks_lf (b ∷ (c ∷ rest)) h = ground (arith, trim_end-lacks_lf (c ∷ rest))

trim_end_idem : (p : ℕ → Bool) (line : Bytes) → trim_end p (trim_end p line) ≡ trim_end p line
unfolding trim_end
trim_end_idem p [] = refl
trim_end_idem p (b ∷ rest) = ground (arith, trim_end_idem p rest)

trim_end-newline :
    (line : Bytes) → trim_end is_line_end (line ++ lf ∷ []) ≡ trim_end is_line_end line
unfolding trim_end
trim_end-newline [] = refl
trim_end-newline (b ∷ rest) = ground (arith, trim_end-newline rest)

split_lines-line :
    (line rest : Bytes)
    → lacks_lf line ≡ true
    → split_lines (line ++ lf ∷ rest) ≡ (line ++ lf ∷ []) ∷ split_lines rest
unfolding split_lines
split_lines-line [] rest h = refl
split_lines-line (b ∷ line) rest h = ground (arith, split_lines-line line rest)

strip-append : (line rest : Bytes) → strip (line ++ rest) line ≡ some rest
strip-append [] rest = refl
strip-append (b ∷ line) rest = ground (arith, strip-append line rest)

pub contents_equal-joined :
    (lines : List Bytes) → contents_equal (joined lines) (chunks_of lines) ≡ true
unfolding contents_equal
contents_equal-joined [] = refl
contents_equal-joined (line ∷ lines) = ground (
  arith,
  strip-append line (lf ∷ joined lines),
  strip-append (lf ∷ []) (joined lines),
  contents_equal-joined lines,
)

module _ (m : Bstr) where
  normalize_line-kept :
      (line : Bytes) → is_kept line ≡ true → normalize_line m (line ++ lf ∷ []) ≡ some line
  unfolding normalize_line
  normalize_line-kept line h =
      let trimmed : m.trim_end_with (line ++ lf ∷ []) ≡ line =
        m.trim_end_with_line_ends (line ++ lf ∷ [])
        ∙ trim_end-newline line
        ∙ (eq_bytes_iff (trim_end is_line_end line) line).0 (ground arith) in
      ap (λ l. if all is_ascii_whitespace l then none else some l) trimmed ∙ ground arith

  normalize_line-is_kept :
      (line kept : Bytes)
      → is_line line ≡ true
      → normalize_line m line ≡ some kept
      → is_kept kept ≡ true
  unfolding normalize_line
  normalize_line-is_kept line kept h e =
      let trimmed = trim_end is_line_end line in
      let there : (all is_ascii_whitespace (m.trim_end_with line) ≡ false)
          × (m.trim_end_with line ≡ kept) =
        ground arith in
      let same : trimmed ≡ kept = sym (m.trim_end_with_line_ends line) ∙ there.1 in
      let not_blank : all is_ascii_whitespace trimmed ≡ false =
        ap (all is_ascii_whitespace) (sym (m.trim_end_with_line_ends line)) ∙ there.0 in
      let again =
        (eq_bytes_iff (trim_end is_line_end trimmed) trimmed).1 (trim_end_idem is_line_end line) in
      subst (λ l. is_kept l ≡ true) same
        (ground (arith, trim_end-lacks_lf line h, again, not_blank))

  pub normalize_lines-is_kept :
      (lines : List Bytes) → all is_line lines ≡ true → all is_kept (normalize_lines m lines) ≡ true
  unfolding normalize_lines
  normalize_lines-is_kept [] h = refl
  normalize_lines-is_kept (line ∷ lines) h = elim (Option-cases (normalize_line m line)) [
    | inl e ↦ rw e (normalize_lines-is_kept lines (ground arith))
    | inr (kept, e) ↦
        let fine = normalize_line-is_kept line kept (ground arith) e in
        let rest = normalize_lines-is_kept lines (ground arith) in rw e (ground (arith, fine, rest))
  ]

  pub normalize_lines-joined :
      (lines : List Bytes)
      → all is_kept lines ≡ true
      → normalize_lines m (split_lines (joined lines)) ≡ lines
  unfolding normalize_lines
  normalize_lines-joined [] h = unfold split_lines in refl
  normalize_lines-joined (line ∷ lines) h =
      ap (normalize_lines m) (split_lines-line line (joined lines) (ground arith))
      ∙ ap₂ (λ a b. push_some m a b) (normalize_line-kept line (ground arith))
          (normalize_lines-joined lines (ground arith))
