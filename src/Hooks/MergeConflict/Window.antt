-- ===== src/Hooks/MergeConflict/Window.antt =====
-- crates/prek/src/hooks/pre_commit_hooks/check_merge_conflict.rs: what is read ahead is enough to tell the markers, and a
-- buffer without markers needs no visit of its lines.
use prek.Prelude.{
  ℕ, zero, suc, ◌+◌, ◌-◌, ◌≤◌, ◌<◌, ◌≡◌, refl, sym, ap, ap₂, ◌∙◌, ◌⊎◌, inl, inr, Bool, true, false,
  ◌&&◌, ◌||◌, [], ◌∷◌, ◌++◌, arith, ◌==◌, if◌then◌else◌, lt→ltb, Bool-cases, Bytes, codes, length,
  take,
}
use prek.Hooks.Bytes.{lf}
use prek.Hooks.MergeConflict.{
  State, check_line, next_line, start_pattern, end_pattern, ancestor_pattern, starts_with, occurs,
  positions, is_newline_at, next_at_line_start,
}
use prek.Hooks.MergeConflict.Lines.{arrive, leave, walk, starts_line}

starts_with-append :
    (p text more : Bytes)
    → length p ≤ length text
    → starts_with p (text ++ more) ≡ starts_with p text
unfolding starts_with
starts_with-append [] text more h = refl
starts_with-append (c ∷ p) [] more h = absurd (omega arith)
starts_with-append (c ∷ p) (b ∷ text) more h =
    ap (λ t. b == c && t) (starts_with-append p text more (omega arith))

starts_line-last :
    (n : ℕ) (t : Bool) (text : Bytes)
    → n < length text
    → starts_line (suc n) t text ≡ is_newline_at text n
unfolding starts_line
starts_line-last n t [] h = absurd (omega arith)
starts_line-last zero t (b ∷ rest) h = refl
starts_line-last (suc n) t (b ∷ rest) h = starts_line-last n (b == lf) rest (omega arith)

pub next_at_line_start-starts_line :
    (n : ℕ) (t : Bool) (text : Bytes)
    → n ≤ length text
    → next_at_line_start t text n ≡ starts_line n t text
next_at_line_start-starts_line zero t text h = unfold starts_line in refl
next_at_line_start-starts_line (suc n) t text h =
    let e : suc n - 1 ≡ n = omega arith in
    ap₂ (λ q k. if q then is_newline_at text k else t) (lt→ltb 0 (suc n) (omega arith)) e
    ∙ sym (starts_line-last n t text (omega arith))

pub starts_line-append :
    (n : ℕ) (t : Bool) (text more : Bytes)
    → n ≤ length text
    → starts_line n t (text ++ more) ≡ starts_line n t text
unfolding starts_line
starts_line-append zero t text more h = refl
starts_line-append (suc n) t [] more h = absurd (omega arith)
starts_line-append (suc n) t (b ∷ rest) more h =
    starts_line-append n (b == lf) rest more (omega arith)

abbrev pub begins_marker : Bytes → Bool
begins_marker text = starts_with start_pattern text || starts_with end_pattern text

module _ (display_path : Bytes) where
  check_line-append :
      (text more : Bytes) (s : State)
      → 9 ≤ length text
      → check_line display_path (text ++ more) s ≡ check_line display_path text s
  unfolding check_line
  check_line-append text more s h = ground (
    arith,
    starts_with-append start_pattern text more (omega arith),
    starts_with-append ancestor_pattern text more (omega arith),
    starts_with-append end_pattern text more (omega arith),
    starts_with-append (codes "======= ") text more (omega arith),
    starts_with-append (codes "=======\r\n") text more (omega arith),
    starts_with-append (codes "=======\n") text more (omega arith),
  )

  arrive-append :
      (t : Bool) (text more : Bytes) (s : State)
      → 9 ≤ length text
      → arrive display_path t (text ++ more) s ≡ arrive display_path t text s
  arrive-append true text more s h = check_line-append text more s h
  arrive-append false text more s h = refl

  pub walk-append :
      (n : ℕ) (t : Bool) (text more : Bytes) (s : State)
      → (n ≡ 0) ⊎ (n + 8 ≤ length text)
      → walk display_path n t (text ++ more) s ≡ walk display_path n t text s
  unfolding walk
  walk-append zero t text more s h = refl
  walk-append (suc n) t text more s (inl e) = absurd (omega arith)
  walk-append (suc n) t [] more s (inr h) = absurd (omega arith)
  walk-append (suc n) t (b ∷ rest) more s (inr h) =
      walk-append n (b == lf) rest more (leave b (arrive display_path t (b ∷ rest ++ more) s))
        (inr (omega arith))
      ∙ ap (λ r. walk display_path n (b == lf) rest (leave b r))
          (arrive-append t (b ∷ rest) more s (omega arith))

  -- Outside a conflict, a line without a marker changes nothing.
  arrive-quiet :
      (t : Bool) (text : Bytes) (s : State)
      → s.in_conflict ≡ false
      → (t && begins_marker text) ≡ false
      → arrive display_path t text s ≡ s
  unfolding check_line
  arrive-quiet true text s h k = ground arith
  arrive-quiet false text s h k = refl

  length-positions :
      (k j : ℕ) (text : Bytes) → length (positions lf k text) ≡ length (positions lf j text)
  unfolding positions
  length-positions k j [] = refl
  length-positions k j (b ∷ text) = ground (arith, length-positions (k + 1) (j + 1) text)

  abbrev lines_on : ℕ → State → State
  lines_on n s = record s { line_number = s.line_number + n }

  lines_on-zero : (s : State) → s ≡ lines_on 0 s
  lines_on-zero s =
      let e : s.line_number ≡ s.line_number + 0 = omega arith in
      ap (λ n. record s { line_number = n }) e

  lines_on-next : (n m : ℕ) (s : State) → n ≡ m → lines_on n (next_line s) ≡ lines_on (suc m) s
  lines_on-next n m s h =
      let e : s.line_number + 1 + n ≡ s.line_number + suc m = omega arith in
      ap (λ k. record s { line_number = k }) e

  pub walk-quiet :
      (n : ℕ) (t : Bool) (text : Bytes) (s : State)
      → s.in_conflict ≡ false
      → (t && begins_marker text) ≡ false
      → occurs (codes "\n<<<<<<< ") text ≡ false
      → occurs (codes "\n>>>>>>> ") text ≡ false
      → walk display_path n t text s ≡ lines_on (length (positions lf 0 (take n text))) s
  unfolding walk positions occurs starts_with
  walk-quiet zero t text s c q a z = lines_on-zero s
  walk-quiet (suc n) t [] s c q a z = lines_on-zero s
  walk-quiet (suc n) t (b ∷ rest) s c q a z =
      let here = arrive-quiet t (b ∷ rest) s c q in
      let same = length-positions 1 0 (take n rest) in
      ap (λ r. walk display_path n (b == lf) rest (leave b r)) here ∙ elim (Bool-cases (b == lf)) [
        | inl f ↦ rw f (
            walk-quiet n true rest (next_line s) c (ground arith) (ground arith) (ground arith)
            ∙ lines_on-next _ _ s (sym same))
        | inr f ↦ rw f (
            walk-quiet n false rest s c refl (ground arith) (ground arith)
            ∙ ap (λ k. lines_on k s) (sym same))
      ]
