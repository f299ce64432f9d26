-- ===== src/Hooks/TrailingWhitespace/Clean.antt =====
-- crates/prek/src/hooks/pre_commit_hooks/fix_trailing_whitespace.rs: the test of a line by
-- `first_line_with_trailing_whitespace`.
use prek.Prelude.{
  ℕ, ◌-◌, ◌≡◌, refl, sym, ap, ◌∙◌, subst, Bytes, [], ◌∷◌, ◌++◌, false, none, some, length, ◌==◌,
  arith, append_assoc, append-nil, length-append, take-append, eq_bytes,
}
use prek.Hooks.Bytes.{lf, cr, is_ascii_whitespace, trim_end}
use prek.Hooks.Bytes.EndsWith.{
  ends_with-one, ends_with-two, ends_with-second, ends_with-two_ne, trim_end-keeps,
}
use prek.Hooks.TrailingWhitespace.{
  Options, cut_line, detect_line_ending, needs_markdown_break, is_trailing, last, strip_cr,
}

module _ (o : Options) (plain : o.chars ≡ none) (text : o.is_markdown ≡ false) where
  -- The cut of a line whose ending and trimmed body are known.
  cut-body :
      (body ending : Bytes)
      → detect_line_ending (body ++ ending) ≡ length ending
      → trim_end is_ascii_whitespace body ≡ body
      → (cut_line o (body ++ ending)).trimmed_end ≡ (cut_line o (body ++ ending)).suffix_start
  unfolding cut_line needs_markdown_break
  cut-body body ending h k =
      let e : length (body ++ ending) - length ending ≡ length body =
        omega (arith, length-append body ending) in
      rw (plain, text, h, e, take-append body ending, k)

detect_crlf : (xs : Bytes) → detect_line_ending (xs ++ cr ∷ lf ∷ []) ≡ 2
unfolding detect_line_ending
detect_crlf xs = rw (ends_with-two xs cr lf cr lf)

detect_cr : (xs : Bytes) → detect_line_ending (xs ++ cr ∷ []) ≡ 1
unfolding detect_line_ending
detect_cr xs =
    rw (ends_with-two_ne xs cr cr lf refl, ends_with-one xs cr lf, ends_with-one xs cr cr)

detect_lf : (xs : Bytes) (x : ℕ) → (x == cr) ≡ false → detect_line_ending (xs ++ x ∷ lf ∷ []) ≡ 1
unfolding detect_line_ending
detect_lf xs x h = rw (ends_with-two xs x lf cr lf, h, ends_with-second xs x lf lf)

detect_none :
    (xs : Bytes) (x : ℕ)
    → (x == cr) ≡ false
    → (x == lf) ≡ false
    → detect_line_ending (xs ++ x ∷ []) ≡ 0
unfolding detect_line_ending
detect_none xs x h k =
    rw (ends_with-two_ne xs x cr lf k, ends_with-one xs x lf, ends_with-one xs x cr, k, h)

pub last-snoc : (xs : Bytes) (x : ℕ) → last (xs ++ x ∷ []) ≡ some x
last-snoc [] x = refl
last-snoc (y ∷ []) x = refl
last-snoc (y ∷ z ∷ xs) x = last-snoc (z ∷ xs) x

pub strip_cr-other :
    (xs : Bytes) (x : ℕ) → (x == cr) ≡ false → strip_cr (xs ++ x ∷ []) ≡ xs ++ x ∷ []
strip_cr-other xs x h = rw (ends_with-one xs x cr, h)

pub strip_cr-cr : (xs : Bytes) → strip_cr (xs ++ cr ∷ []) ≡ xs
strip_cr-cr xs =
    let e : length (xs ++ cr ∷ []) - 1 ≡ length xs = omega (arith, length-append xs (cr ∷ [])) in
    rw (ends_with-one xs cr cr, e, take-append xs (cr ∷ []))

pub not_trailing :
    (x : ℕ) → is_trailing (some x) ≡ false → (x == lf) ≡ false → is_ascii_whitespace x ≡ false
not_trailing x h k = ground arith

-- The end of the text before a line.
abbrev pub Before : Bytes → Type 0
Before before = is_trailing (last before) ≡ false

-- How the line ends.
pub data Ending : Bytes → Type 0 where
  at_end : {ending : Bytes} → ending ≡ [] → Ending ending
  at_lf : {ending : Bytes} → ending ≡ lf ∷ [] → Ending ending

module _ (o : Options) (plain : o.chars ≡ none) (text : o.is_markdown ≡ false) where
  abbrev pub IsClean : Bytes → Type 0
  IsClean line = (cut_line o line).trimmed_end ≡ (cut_line o line).suffix_start

  pub IsClean-empty : (ending : Bytes) → Ending ending → IsClean ending
  IsClean-empty ending (at_end e) = subst IsClean (sym e) (
      cut-body o plain text [] [] (unfold detect_line_ending eq_bytes in refl)
        (unfold trim_end in refl))
  IsClean-empty ending (at_lf e) = subst IsClean (sym e) (
      cut-body o plain text [] (lf ∷ []) (unfold detect_line_ending eq_bytes in refl)
        (unfold trim_end in refl))

  pub IsClean-cr :
      (front ending : Bytes)
      → Ending ending
      → trim_end is_ascii_whitespace front ≡ front
      → IsClean (front ++ cr ∷ ending)
  IsClean-cr front ending (at_end e) h =
      subst (λ l. IsClean (front ++ cr ∷ l)) (sym e)
        (cut-body o plain text front (cr ∷ []) (detect_cr front) h)
  IsClean-cr front ending (at_lf e) h =
      subst (λ l. IsClean (front ++ cr ∷ l)) (sym e)
        (cut-body o plain text front (cr ∷ lf ∷ []) (detect_crlf front) h)

  pub IsClean-other :
      (front : Bytes) (x : ℕ) (ending : Bytes)
      → Ending ending
      → (x == cr) ≡ false
      → (x == lf) ≡ false
      → is_ascii_whitespace x ≡ false
      → IsClean ((front ++ x ∷ []) ++ ending)
  IsClean-other front x ending (at_end e) h k w =
      subst (λ l. IsClean ((front ++ x ∷ []) ++ l)) (sym e)
        (cut-body o plain text (front ++ x ∷ []) []
          (ap detect_line_ending (append-nil (front ++ x ∷ [])) ∙ detect_none front x h k)
          (trim_end-keeps is_ascii_whitespace front x w))
  IsClean-other front x ending (at_lf e) h k w =
      subst (λ l. IsClean ((front ++ x ∷ []) ++ l)) (sym e)
        (cut-body o plain text (front ++ x ∷ []) (lf ∷ [])
          (ap detect_line_ending (append_assoc front (x ∷ []) (lf ∷ [])) ∙ detect_lf front x h)
          (trim_end-keeps is_ascii_whitespace front x w))
