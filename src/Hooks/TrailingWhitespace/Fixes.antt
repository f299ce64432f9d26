-- ===== src/Hooks/TrailingWhitespace/Fixes.antt =====
-- crates/prek/src/hooks/pre_commit_hooks/fix_trailing_whitespace.rs: the loop to its end.
use prek.Prelude.{
  ℕ, zero, suc, ◌+◌, ◌-◌, ◌≤◌, ◌<◌, ◌≡◌, ◌≢◌, inl, inr, refl, sym, ap, ◌∙◌, Bytes, [], ◌∷◌, ◌++◌,
  true, false, some, length, take, drop, ltb, ◌==◌, arith, length-take, ltb→lt, ltb→le, Bool-cases,
  length-drop, drop-drop, append_assoc, append-nil, drop-length, ==_iff,
}
use prek.Hooks.Bytes.{Memchr, lf}
use prek.Hooks.TrailingWhitespace.{
  Options, cut_line, Cut, compact, line_len, State, fix_lines, finished, would_fix,
}
use prek.Hooks.TrailingWhitespace.Lines.{
  KeepsFront, fixed_content, fix_line, fixed_content-nil, fixed_content-first, first_len,
  first_len_bounds, cut_line_bounds, fix_line-clean,
}
use prek.Hooks.TrailingWhitespace.Loop.{
  Inv, out, unread, clean-Inv, out-clean, fixed-Inv, out-fixed,
}

first_len_within :
    (content : Bytes)
    → 0 < length content
    → (0 < first_len content) × (first_len content ≤ length content)
first_len_within [] h = absurd (omega arith)
first_len_within (b ∷ rest) h = first_len_bounds b rest

fixed_content-split :
    (o : Options) (content : Bytes)
    → 0 < length content
    → fixed_content o content
      ≡ fix_line o (take (first_len content) content)
        ++ fixed_content o (drop (first_len content) content)
fixed_content-split o [] h = absurd (omega arith)
fixed_content-split o (b ∷ rest) h = fixed_content-first o b rest

module _ (m : Memchr) (o : Options) where
  line_len-first :
      (original : Bytes) (s : State)
      → Inv original s
      → line_len m o s ≡ first_len (drop s.line_start original)
  unfolding line_len
  line_len-first original s i =
      ground (
        arith,
        m.memchr_position lf (drop s.line_start s.content),
        length-drop s.line_start s.content,
      )
      ∙ ap first_len (unread original s i s.line_start i.copied_le)

  step-done :
      (fuel : ℕ) (s : State)
      → length s.content ≤ s.line_start
      → fix_lines m o (suc fuel) s ≡ some (finished s)
  unfolding fix_lines
  step-done fuel s h = ground arith

  module _ (fuel : ℕ) (s : State) (n : ℕ) (line : Bytes) (len : line_len m o s ≡ n)
      (here : take n (drop s.line_start s.content) ≡ line)
      (more : s.line_start < length s.content) where
    abbrev cut : Cut
    cut = cut_line o line

    step-clean :
        cut.trimmed_end ≡ cut.suffix_start
        → fix_lines m o (suc fuel) s
          ≡ fix_lines m o fuel (record s { line_start = s.line_start + n })
    unfolding fix_lines
    step-clean h = rw (len, here) (ground arith)

    step-fix :
        cut.trimmed_end ≢ cut.suffix_start
        → o.check ≡ false
        → fix_lines m o (suc fuel) s
          ≡ fix_lines m o fuel (record (compact s cut) { line_start = s.line_start + n })
    unfolding fix_lines
    step-fix h k = ground arith

    step-would_fix :
        cut.trimmed_end ≢ cut.suffix_start
        → o.check ≡ true
        → fix_lines m o (suc fuel) s ≡ some would_fix
    unfolding fix_lines
    step-would_fix h k = ground arith

module _ (m : Memchr) (o : Options) (front : KeepsFront o) (fixing : o.check ≡ false)
    (original : Bytes) where
  -- The loop from `s` ends, and writes the fixed lines behind those that are done.
  abbrev pub Ends : ℕ → State → Type 0
  Ends fuel s =
      (s' : State) × (fix_lines m o fuel s ≡ some (finished s'))
      × Inv original s'
      × (length original ≤ s'.line_start)
      × (out original s' ≡ out original s ++ fixed_content o (drop s.line_start original))

  Ends-done :
      (fuel : ℕ) (s : State) → Inv original s → length original ≤ s.line_start → Ends (suc fuel) s
  Ends-done fuel s i h = (
    s,
    step-done m o fuel s (omega (arith, i.same)),
    i,
    h,
    sym (
        ap (λ l. out original s ++ fixed_content o l) (drop-length s.line_start original h)
        ∙ ap (λ l. out original s ++ l) (fixed_content-nil o)
        ∙ append-nil (out original s)),
  )

  -- The rest of the loop from a state `s₁` that is one line further.
  Ends-step :
      (fuel : ℕ) (s s' : State) (n : ℕ)
      → n ≡ first_len (drop s.line_start original)
      → 0 < length (drop s.line_start original)
      → fix_lines m o (suc fuel) s ≡ fix_lines m o fuel s'
      → s'.line_start ≡ s.line_start + n
      → out original s' ≡ out original s ++ fix_line o (take n (drop s.line_start original))
      → Ends fuel s'
      → Ends (suc fuel) s
  Ends-step fuel s s' n first some_left step at written (last, e, i, end, total) =
      let rest = drop s.line_start original in
      (
        last,
        step ∙ e,
        i,
        end,
        total
            ∙ ap (λ k. out original s' ++ fixed_content o (drop k original)) at
            ∙ ap (λ l. l ++ fixed_content o (drop (s.line_start + n) original)) written
            ∙ append_assoc (out original s) (fix_line o (take n rest)) _
            ∙ ap (λ l. out original s ++ (fix_line o (take n rest) ++ fixed_content o l))
                (sym (drop-drop s.line_start n original))
            ∙ ap (λ l. out original s ++ l)
                (ap (λ k. fix_line o (take k rest) ++ fixed_content o (drop k rest)) first
                  ∙ sym (fixed_content-split o rest some_left)),
      )

  pub fix_lines-Ends :
      (fuel : ℕ) (s : State) → Inv original s → length original - s.line_start < fuel → Ends fuel s
  fix_lines-Ends zero s i h = absurd (omega arith)
  fix_lines-Ends (suc fuel) s i h = elim (Bool-cases (ltb s.line_start (length original))) [
    | inr none_left ↦ Ends-done fuel s i (ltb→le _ _ none_left)
    | inl some_left ↦
        let lt = ltb→lt _ _ some_left in
        let rest = drop s.line_start original in
        let n = first_len rest in
        let line = take n rest in
        let c = cut_line o line in
        let long = length-drop s.line_start original in
        let left : 0 < length rest = omega arith in
        let (positive, fits) = first_len_within rest left in
        let within : s.line_start + n ≤ length original = omega arith in
        let here : take n (drop s.line_start s.content) ≡ line =
          ap (take n) (unread original s i s.line_start i.copied_le) in
        let len = line_len-first m o original s i in
        let more : s.line_start < length s.content = omega (arith, i.same) in
        let (le, short) = cut_line_bounds o front line in
        let short' : c.suffix_start ≤ n = omega (arith, length-take n rest) in
        elim (Bool-cases (c.trimmed_end == c.suffix_start)) [
          | inl same ↦
              let e = (==_iff c.trimmed_end c.suffix_start).0 same in
              Ends-step fuel s (record s { line_start = s.line_start + n }) n refl left
                (step-clean m o fuel s n line len here more e) refl
                (out-clean original s i n within
                  ∙ ap (λ l. out original s ++ l) (sym (fix_line-clean o line e)))
                (fix_lines-Ends fuel (record s { line_start = s.line_start + n })
                  (clean-Inv original s i n within) (omega arith))
          | inr differ ↦
              let shorter : c.trimmed_end < c.suffix_start = ground arith in
              Ends-step fuel s (record (compact s c) { line_start = s.line_start + n }) n refl left
                (step-fix m o fuel s n line len here more (ground arith) fixing) refl
                (out-fixed original s i n within c shorter short')
                (fix_lines-Ends fuel (record (compact s c) { line_start = s.line_start + n })
                  (fixed-Inv original s i n within c shorter short') (omega arith))
        ]
  ]
