-- ===== src/Hooks/TrailingWhitespace/Skip.antt =====
-- crates/prek/src/hooks/pre_commit_hooks/fix_trailing_whitespace.rs: the scan of
-- `first_line_with_trailing_whitespace`.
use prek.Prelude.{
  ℕ, ◌+◌, ◌≤◌, ◌≡◌, inl, inr, refl, sym, ap, ap₂, ◌∙◌, subst, Bytes, [], ◌∷◌, ◌++◌, true, false,
  Option, none, some, length, take, drop, ◌==◌, arith, Bool-cases, append_assoc, append-nil,
  length-append, take-append, All, All-append, All-append_inv, take-append_add, drop-append_add,
  ==_iff,
}
use prek.Hooks.Bytes.{lf, cr, is_ascii_whitespace, trim_end}
use prek.Hooks.Bytes.EndsWith.{trim_end-keeps, Snoc, empty, snoc, Snoc-view}
use prek.Hooks.TrailingWhitespace.{
  Options, is_trailing, last, strip_cr, line_ends, first_line_from,
  first_line_with_trailing_whitespace,
}
use prek.Hooks.TrailingWhitespace.Clean.{
  Ending, at_end, at_lf, IsClean, IsClean-empty, IsClean-cr, IsClean-other, strip_cr-cr,
  strip_cr-other, last-snoc, not_trailing,
}
use prek.Hooks.TrailingWhitespace.Lines.{
  NotLf, fixed_content, fixed_content-line, fixed_content-last, fix_line-clean,
}

-- The body of a line that ends in CR.
trimmed_front :
    (before front : Bytes)
    → All NotLf front
    → is_trailing (last (before ++ front)) ≡ false
    → Snoc front
    → trim_end is_ascii_whitespace front ≡ front
trimmed_front before front h quiet (empty e) =
    subst (λ l. trim_end is_ascii_whitespace l ≡ l) (sym e) (unfold trim_end in refl)
trimmed_front before front h quiet (snoc f y e) =
    let whole = subst (All NotLf) e h in
    let seen : last (before ++ front) ≡ some y =
      ap (λ l. last (before ++ l)) e
      ∙ ap last (sym (append_assoc before f (y ∷ [])))
      ∙ last-snoc (before ++ f) y in
    let quiet' = ap is_trailing (sym seen) ∙ quiet in
    subst (λ l. trim_end is_ascii_whitespace l ≡ l) (sym e)
      (trim_end-keeps is_ascii_whitespace f y
        (not_trailing y quiet' (All-append_inv NotLf f (y ∷ []) whole).1.0))

module _ (o : Options) (plain : o.chars ≡ none) (text : o.is_markdown ≡ false) where
  IsClean-snoc :
      (before front : Bytes) (x : ℕ) (ending : Bytes)
      → Ending ending
      → All NotLf (front ++ x ∷ [])
      → is_trailing (last (strip_cr (before ++ (front ++ x ∷ [])))) ≡ false
      → IsClean o plain text ((front ++ x ∷ []) ++ ending)
  IsClean-snoc before front x ending end h quiet =
      let (hf, (hx, _)) = All-append_inv NotLf front (x ∷ []) h in
      let joined = sym (append_assoc before front (x ∷ [])) in
      elim (Bool-cases (x == cr)) [
        | inl is_cr ↦
            let e = (==_iff x cr).0 is_cr in
            let quiet' : is_trailing (last (before ++ front)) ≡ false =
              ap (λ l. is_trailing (last l)) (sym (strip_cr-cr (before ++ front)))
              ∙ ap (λ y. is_trailing (last (strip_cr ((before ++ front) ++ y ∷ [])))) (sym e)
              ∙ ap (λ l. is_trailing (last (strip_cr l))) (sym joined)
              ∙ quiet in
            subst (IsClean o plain text)
              (ap (λ y. front ++ y ∷ ending) (sym e) ∙ sym (append_assoc front (x ∷ []) ending))
              (IsClean-cr o plain text front ending end
                (trimmed_front before front hf quiet' (Snoc-view front)))
        | inr other ↦
            let quiet' : is_trailing (some x) ≡ false =
              ap is_trailing (sym (last-snoc (before ++ front) x))
              ∙ ap (λ l. is_trailing (last l)) (sym (strip_cr-other (before ++ front) x other))
              ∙ ap (λ l. is_trailing (last (strip_cr l))) (sym joined)
              ∙ quiet in
            IsClean-other o plain text front x ending end other hx (not_trailing x quiet' hx)
      ]

  IsClean-line :
      (before line ending : Bytes)
      → Ending ending
      → All NotLf line
      → is_trailing (last (strip_cr (before ++ line))) ≡ false
      → Snoc line
      → IsClean o plain text (line ++ ending)
  IsClean-line before line ending end h quiet (empty e) =
      subst (λ l. IsClean o plain text (l ++ ending)) (sym e)
        (IsClean-empty o plain text ending end)
  IsClean-line before line ending end h quiet (snoc front x e) =
      subst (λ l. IsClean o plain text (l ++ ending)) (sym e)
        (IsClean-snoc before front x ending end (subst (All NotLf) e h)
          (ap (λ l. is_trailing (last (strip_cr (before ++ l)))) (sym e) ∙ quiet))

  -- What the scan from `base` says of the bytes `tail` that stand there.
  abbrev pub Passed : Bytes → ℕ → Option ℕ → Type 0
  Passed tail base none = fixed_content o tail ≡ tail
  Passed tail base (some start) =
      (j : ℕ) × (start ≡ base + j)
      × (j ≤ length tail)
      × (fixed_content o tail ≡ take j tail ++ fixed_content o (drop j tail))

  Passed-line :
      (line rest : Bytes) (base : ℕ) (r : Option ℕ)
      → All NotLf line
      → IsClean o plain text (line ++ lf ∷ [])
      → Passed rest (base + length line + 1) r
      → Passed (line ++ lf ∷ rest) base r
  Passed-line line rest base none h clean p =
      fixed_content-line o line rest h
      ∙ ap (λ l. l ++ fixed_content o rest) (fix_line-clean o (line ++ lf ∷ []) clean)
      ∙ ap (λ l. (line ++ lf ∷ []) ++ l) p
      ∙ append_assoc line (lf ∷ []) rest
  Passed-line line rest base (some start) h clean (j, at, le, p) =
      let full = line ++ lf ∷ [] in
      let whole = append_assoc line (lf ∷ []) rest in
      let front : take (length full + j) (line ++ lf ∷ rest) ≡ full ++ take j rest =
        ap (take (length full + j)) (sym whole) ∙ take-append_add full rest j in
      let back : drop (length full + j) (line ++ lf ∷ rest) ≡ drop j rest =
        ap (drop (length full + j)) (sym whole) ∙ drop-append_add full rest j in
      (
        length full + j,
        omega (arith, length-append line (lf ∷ [])),
        omega (arith, length-append line (lf ∷ []), length-append line (lf ∷ rest)),
        fixed_content-line o line rest h
            ∙ ap (λ l. l ++ fixed_content o rest) (fix_line-clean o full clean)
            ∙ ap (λ l. full ++ l) p
            ∙ sym (append_assoc full (take j rest) _)
            ∙ ap₂ (λ l r. l ++ fixed_content o r) (sym front) (sym back),
      )

  -- The text before an index.
  seen :
      (before line rest content : Bytes) (index : ℕ)
      → content ≡ before ++ (line ++ rest)
      → index ≡ length before + length line
      → is_trailing (last (strip_cr (before ++ line)))
        ≡ is_trailing (last (strip_cr (take index content)))
  seen before line rest content index whole here =
      ap (λ l. is_trailing (last (strip_cr l)))
        (sym (
          ap₂ take (here ∙ sym (length-append before line))
            (whole ∙ sym (append_assoc before line rest))
          ∙ take-append (before ++ line) rest))

  -- The index stands at an LF.
  skip-lf :
      (b : ℕ) (rest before line content : Bytes) (start index : ℕ)
      → (b == lf) ≡ true
      → content ≡ before ++ (line ++ b ∷ rest)
      → start ≡ length before
      → index ≡ length before + length line
      → All NotLf line
      → Passed rest (index + 1) (first_line_from content (line_ends rest (index + 1)) (index + 1))
      → Passed (line ++ b ∷ rest) start (first_line_from content (line_ends (b ∷ rest) index) start)
  skip-lf b rest before line content start index is_lf whole at here h more =
      let quiet = is_trailing (last (strip_cr (take index content))) in
      let e = (==_iff b lf).0 is_lf in
      let r = first_line_from content (line_ends rest (index + 1)) (index + 1) in
      elim (Bool-cases quiet) [
        | inl dirty ↦ rw (is_lf, dirty) (0, omega arith, omega arith, refl)
        | inr clean ↦
            rw (is_lf, clean, e)
              (Passed-line line rest start r h
                (IsClean-line before line (lf ∷ []) (at_lf refl) h
                  (seen before line (b ∷ rest) content index whole here ∙ clean) (Snoc-view line))
                (subst (λ k. Passed rest k r) (omega arith) more))
      ]

  skip :
      (rest before line content : Bytes) (start index : ℕ)
      → content ≡ before ++ (line ++ rest)
      → start ≡ length before
      → index ≡ length before + length line
      → All NotLf line
      → Passed (line ++ rest) start (first_line_from content (line_ends rest index) start)
  skip [] before line content start index whole at here h =
      let quiet = is_trailing (last (strip_cr (take index content))) in
      elim (Bool-cases quiet) [
        | inl dirty ↦ rw dirty (0, omega arith, omega arith, refl)
        | inr clean ↦
            rw (clean, append-nil line)
              (fixed_content-last o line h (
                fix_line-clean o line (
                  subst (IsClean o plain text) (append-nil line) (
                    IsClean-line before line [] (at_end refl) h
                      (seen before line [] content index whole here ∙ clean) (Snoc-view line)))))
      ]
  skip (b ∷ rest) before line content start index whole at here h = elim (Bool-cases (b == lf)) [
    | inr other ↦
        let here' : index + 1 ≡ length before + length (line ++ b ∷ []) =
          omega (arith, length-append line (b ∷ [])) in
        let joined : line ++ b ∷ rest ≡ (line ++ b ∷ []) ++ rest =
          sym (append_assoc line (b ∷ []) rest) in
        rw (other, joined)
          (skip rest before (line ++ b ∷ []) content start (index + 1)
            (whole ∙ ap (λ l. before ++ l) joined) at here'
            (All-append NotLf line (b ∷ []) h (other, tt)))
    | inl is_lf ↦ skip-lf b rest before line content start index is_lf whole at here h (
        skip rest (before ++ (line ++ b ∷ [])) [] content (index + 1) (index + 1)
          (whole
            ∙ ap (λ l. before ++ l) (sym (append_assoc line (b ∷ []) rest))
            ∙ sym (append_assoc before (line ++ b ∷ []) rest))
          (omega (arith, length-append before (line ++ b ∷ []), length-append line (b ∷ [])))
          (omega (arith, length-append before (line ++ b ∷ []), length-append line (b ∷ []))) tt)
  ]

  -- Without --chars and outside Markdown, the lines before the one that the loop starts at
  -- stay as they are, all of them if there is none.
  pub first_line-Passed :
      (content : Bytes) → Passed content 0 (first_line_with_trailing_whitespace content)
  unfolding first_line_with_trailing_whitespace
  first_line-Passed content = skip content [] [] content 0 0 refl refl (omega arith) tt
