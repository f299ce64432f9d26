-- ===== src/Hooks/MixedLineEnding/Count/Pairs.antt =====
-- crates/prek/src/hooks/pre_commit_hooks/mixed_line_ending.rs: the counters of one kind, against the bytes that pass
-- its test with the byte before.
use prek.Prelude.{
  ℕ, zero, suc, ◌+◌, ◌-◌, ◌*◌, ◌≤◌, ◌<◌, ◌≡◌, refl, sym, ap, ap₂, ◌∙◌, inl, inr, Bool, true, false,
  List, [], ◌∷◌, arith, ltb, leb, ltb→lt, ltb→le, lt→ltb, Bool-cases, Bytes, length, take, drop,
  all, length-take, length-drop, drop-drop,
}
use prek.Hooks.MixedLineEnding.{
  from_bool, sum, u8_add, add_block, count_tail, as_chunks, push_chunk,
}

-- The loop over the blocks, for one kind.
unfoldable pub fold_blocks : (ℕ → ℕ → Bool) → List ℕ → List Bytes → List Bytes → List ℕ
fold_blocks test lanes [] previous = lanes
fold_blocks test lanes (block ∷ blocks) [] = lanes
fold_blocks test lanes (block ∷ blocks) (before ∷ previous) =
    fold_blocks test (add_block test lanes before block) blocks previous

abbrev pub all_le : ℕ → List ℕ → Bool
all_le k lanes = all (λ n. leb n k) lanes

module _ (test : ℕ → ℕ → Bool) where
  pub length-add_block :
      (lanes : List ℕ) (p b : Bytes) → length (add_block test lanes p b) ≡ length lanes
  unfolding add_block
  length-add_block [] p b = refl
  length-add_block (n ∷ lanes) [] b = refl
  length-add_block (n ∷ lanes) (p ∷ ps) [] = refl
  length-add_block (n ∷ lanes) (p ∷ ps) (b ∷ bs) = ground (arith, length-add_block lanes ps bs)

  bump_le : (n k : ℕ) (t : Bool) → n ≤ k → k < 255 → u8_add n (from_bool t) ≡ n + from_bool t
  bump_le n k true h l = omega arith
  bump_le n k false h l = omega arith

  pub count_tail-nil : (p : Bytes) → count_tail test p [] ≡ 0
  unfolding count_tail
  count_tail-nil [] = refl
  count_tail-nil (p ∷ ps) = refl

  pub add_block-sum :
      (k : ℕ) (lanes : List ℕ) (p b : Bytes)
      → all_le k lanes ≡ true
      → k < 255
      → length b ≤ length lanes
      → sum (add_block test lanes p b) ≡ sum lanes + count_tail test p b
  unfolding add_block count_tail
  add_block-sum k [] p [] h l m = omega (arith, count_tail-nil p)
  add_block-sum k [] p (b ∷ bs) h l m = absurd (omega arith)
  add_block-sum k (n ∷ lanes) [] b h l m = omega arith
  add_block-sum k (n ∷ lanes) (p ∷ ps) [] h l m = omega arith
  add_block-sum k (n ∷ lanes) (p ∷ ps) (b ∷ bs) h l m =
      ground (arith, bump_le n k (test p b), add_block-sum k lanes ps bs)

  le_bump : (n k : ℕ) (t : Bool) → n ≤ k → u8_add n (from_bool t) ≤ k + 1
  le_bump n k true h = omega arith
  le_bump n k false h = omega arith

  all_le-suc : (k : ℕ) (lanes : List ℕ) → all_le k lanes ≡ true → all_le (k + 1) lanes ≡ true
  all_le-suc k [] h = refl
  all_le-suc k (n ∷ lanes) h = ground (arith, all_le-suc k lanes)

  pub add_block-le :
      (k : ℕ) (lanes : List ℕ) (p b : Bytes)
      → all_le k lanes ≡ true
      → all_le (k + 1) (add_block test lanes p b) ≡ true
  unfolding add_block
  add_block-le k [] p b h = refl
  add_block-le k (n ∷ lanes) [] b h = all_le-suc k (n ∷ lanes) h
  add_block-le k (n ∷ lanes) (p ∷ ps) [] h = all_le-suc k (n ∷ lanes) h
  add_block-le k (n ∷ lanes) (p ∷ ps) (b ∷ bs) h =
      ground (arith, le_bump n k (test p b), add_block-le k lanes ps bs)

  pub count_tail-split :
      (n : ℕ) (p b : Bytes)
      → count_tail test p b
        ≡ count_tail test (take n p) (take n b) + count_tail test (drop n p) (drop n b)
  unfolding count_tail
  count_tail-split zero p b = omega arith
  count_tail-split (suc n) [] b = omega arith
  count_tail-split (suc n) (p ∷ ps) [] = omega (arith, count_tail-nil (drop n ps))
  count_tail-split (suc n) (p ∷ ps) (b ∷ bs) = omega (arith, count_tail-split n ps bs)

as_chunks-last :
    (fuel : ℕ) (bytes : Bytes) → length bytes < 64 → as_chunks fuel 64 bytes ≡ ([], bytes)
unfolding as_chunks
as_chunks-last zero bytes h = refl
as_chunks-last (suc fuel) bytes h = rw (lt→ltb (length bytes) 64 h) refl

as_chunks-more :
    (fuel : ℕ) (bytes : Bytes)
    → 64 ≤ length bytes
    → as_chunks (suc fuel) 64 bytes ≡ push_chunk (take 64 bytes) (as_chunks fuel 64 (drop 64 bytes))
unfolding as_chunks
as_chunks-more fuel bytes h = let e : ltb (length bytes) 64 ≡ false = ground arith in rw e refl

module _ (test : ℕ → ℕ → Bool) where
  -- What the lanes and the tail hold in the end.
  abbrev pub reduced : List ℕ → List Bytes × Bytes → List Bytes → Bytes → ℕ
  reduced lanes (blocks, tail) previous_blocks previous =
      sum (fold_blocks test lanes blocks previous_blocks)
      + count_tail test (drop (length blocks * 64) previous) tail

  reduced-last :
      (lanes : List ℕ) (batch previous : Bytes) (f : ℕ) (ps : List Bytes)
      → length batch < 64
      → reduced lanes (as_chunks f 64 batch) ps previous
        ≡ sum lanes + count_tail test previous batch
  unfolding fold_blocks
  reduced-last lanes batch previous f ps h =
      ap (λ c. reduced lanes c ps previous) (as_chunks-last f batch h)

  reduced-push :
      (lanes : List ℕ) (block before previous : Bytes) (c d : List Bytes × Bytes)
      → reduced lanes (push_chunk block c) (push_chunk before d).0 previous
        ≡ reduced (add_block test lanes before block) c d.0 (drop 64 previous)
  unfolding fold_blocks
  reduced-push lanes block before previous (blocks, tail) (befores, rest) =
      let e : suc (length blocks) * 64 ≡ 64 + length blocks * 64 = omega arith in
      ap
        (λ p.
          sum (fold_blocks test (add_block test lanes before block) blocks befores)
          + count_tail test p tail)
        (ap (λ n. drop n previous) e ∙ sym (drop-drop 64 (length blocks * 64) previous))

  pub reduced-count :
      (f g k : ℕ) (lanes : List ℕ) (batch previous : Bytes)
      → length batch ≤ f
      → length previous ≤ g
      → length batch ≤ length previous
      → length lanes ≡ 64
      → all_le k lanes ≡ true
      → k ≤ 255
      → length batch ≤ (255 - k) * 64
      → reduced lanes (as_chunks f 64 batch) (as_chunks g 64 previous).0 previous
        ≡ sum lanes + count_tail test previous batch
  reduced-count zero g k lanes batch previous hf hg le w h k_le small =
      reduced-last lanes batch previous 0 (as_chunks g 64 previous).0 (omega arith)
  reduced-count (suc f) zero k lanes batch previous hf hg le w h k_le small =
      reduced-last lanes batch previous (suc f) (as_chunks 0 64 previous).0 (omega arith)
  reduced-count (suc f) (suc g) k lanes batch previous hf hg le w h k_le small =
      elim (Bool-cases (ltb (length batch) 64)) [
        | inl e ↦
            reduced-last lanes batch previous (suc f) (as_chunks (suc g) 64 previous).0
              (ltb→lt _ _ e)
        | inr e ↦
            let full : 64 ≤ length batch = ltb→le (length batch) 64 e in
            let next = add_block test lanes (take 64 previous) (take 64 batch) in
            let rest =
              reduced-count f g (k + 1) next (drop 64 batch) (drop 64 previous)
                (omega (arith, length-drop 64 batch)) (omega (arith, length-drop 64 previous))
                (omega (arith, length-drop 64 batch, length-drop 64 previous))
                (length-add_block test lanes (take 64 previous) (take 64 batch) ∙ w)
                (add_block-le test k lanes (take 64 previous) (take 64 batch) h) (omega arith)
                (omega (arith, length-drop 64 batch)) in
            let first =
              add_block-sum test k lanes (take 64 previous) (take 64 batch) h (omega arith)
                (omega (arith, length-take 64 batch)) in
            ap₂ (λ c d. reduced lanes c d.0 previous) (as_chunks-more f batch full)
              (as_chunks-more g previous (omega arith))
            ∙ reduced-push lanes (take 64 batch) (take 64 previous) previous
                (as_chunks f 64 (drop 64 batch)) (as_chunks g 64 (drop 64 previous))
            ∙ rest
            ∙ omega (arith, first, count_tail-split test 64 previous batch)
      ]
