-- ===== src/Hooks/MixedLineEnding/Count.antt =====
-- crates/prek/src/hooks/pre_commit_hooks/mixed_line_ending.rs, `count_line_endings`: no counter of a lane overflows.
mod Pairs
mod Tally
unfoldable pub use Tally.{tally}
use prek.Prelude.{
  ℕ, zero, suc, ◌+◌, ◌-◌, ◌*◌, ◌/◌, ◌%◌, ◌^◌, ◌≤◌, ◌<◌, min, max, ◌≡◌, refl, sym, fun_ext, ap, ap₂,
  subst, ◌∙◌, ◌≢◌, ◌↔◌, ◌⊎◌, inl, inr, Bool, true, false, not, ◌&&◌, ◌||◌, Option, none, some, List,
  [], ◌∷◌, ◌++◌, map, append_assoc, append-nil, arith, ltb, leb, ◌==◌, if◌then◌else◌, ltb→lt,
  ltb→le, lt→ltb, leb→le, ==_iff, Bool-cases, Option-cases, Bytes, codes, length, get_elem?, take,
  drop, any, all, length-append, take-append-drop, length-take, length-drop, take-split,
  take-length, take-append, take-append_add, drop-append_add, take-take, drop-take, drop-length,
  drop-drop, eq_bytes, eq_bytes_iff, All, All-append, All-append_inv, All-drop,
}
use prek.Hooks.Bytes.{lf, cr}
use prek.Hooks.MixedLineEnding.{
  LineEndingCounts, from_bool, is_cr, is_lf, is_crlf, zeros, sum, u8_add, add_block, Lanes,
  add_blocks, count_tail, chunks, as_chunks, push_chunk, Sums, lane_count, no_lanes, count_batch,
  count_batches, batch_size, counts_of, sum_line_endings, count_line_endings,
}
use Tally.{Tallied, tally-Tallied}
use Pairs.{fold_blocks, count_tail-nil, count_tail-split, reduced, reduced-count}

abbrev AddBlocksEqs : Lanes → List Bytes → List Bytes → Type 0
AddBlocksEqs l blocks previous =
    ((add_blocks l blocks previous).cr_lanes ≡ fold_blocks is_cr l.cr_lanes blocks previous)
    × ((add_blocks l blocks previous).lf_lanes ≡ fold_blocks is_lf l.lf_lanes blocks previous)
    × ((add_blocks l blocks previous).crlf_lanes ≡ fold_blocks is_crlf l.crlf_lanes blocks previous)

add_blocks-fold : (l : Lanes) (blocks previous : List Bytes) → AddBlocksEqs l blocks previous
unfolding add_blocks fold_blocks
add_blocks-fold l [] previous = (refl, refl, refl)
add_blocks-fold l (b ∷ blocks) [] = (refl, refl, refl)
add_blocks-fold l (b ∷ blocks) (p ∷ previous) =
    add_blocks-fold
      (record {
        cr_lanes = add_block is_cr l.cr_lanes p b;
        lf_lanes = add_block is_lf l.lf_lanes p b;
        crlf_lanes = add_block is_crlf l.crlf_lanes p b;
      })
      blocks previous

abbrev Counted : Sums → Sums → Bytes → Bytes → Type 0
Counted after before previous bytes =
    (after.cr ≡ before.cr + count_tail is_cr previous bytes)
    × (after.lf ≡ before.lf + count_tail is_lf previous bytes)
    × (after.crlf ≡ before.crlf + count_tail is_crlf previous bytes)

reduced-zeros :
    (test : ℕ → ℕ → Bool) (batch previous : Bytes)
    → length batch ≤ length previous
    → length batch ≤ 255 * 64
    → reduced test
        (zeros 64)
        (as_chunks (length batch) 64 batch)
        (as_chunks (length previous) 64 previous).0
        previous
      ≡ count_tail test previous batch
reduced-zeros test batch previous le small = omega (
  arith,
  reduced-count test (length batch) (length previous) 0 (zeros 64) batch previous (omega arith)
      (omega arith) le refl refl (omega arith) (omega arith),
)

count_batch-Counted :
    (s : Sums) (batch previous : Bytes)
    → length batch ≤ length previous
    → length batch ≤ 255 * 64
    → Counted (count_batch s batch previous) s previous batch
unfolding count_batch
count_batch-Counted s batch previous le small =
    let (c, l, p) =
      add_blocks-fold no_lanes (as_chunks (length batch) 64 batch).0
        (as_chunks (length previous) 64 previous).0 in
    (
      omega (arith, ap sum c, reduced-zeros is_cr batch previous le small),
      omega (arith, ap sum l, reduced-zeros is_lf batch previous le small),
      omega (arith, ap sum p, reduced-zeros is_crlf batch previous le small),
    )

module _ (n : ℕ) (some_bytes : 0 < n) (small : n ≤ 255 * 64) where
  Counted-nil : (s : Sums) (previous bytes : Bytes) → length bytes ≡ 0 → Counted s s previous bytes
  Counted-nil s previous [] h = (
    omega (arith, count_tail-nil is_cr previous),
    omega (arith, count_tail-nil is_lf previous),
    omega (arith, count_tail-nil is_crlf previous),
  )
  Counted-nil s previous (b ∷ bytes) h = absurd (omega arith)

  count_batches-Counted :
      (f g : ℕ) (s : Sums) (bytes previous : Bytes)
      → length bytes ≤ f
      → length previous ≤ g
      → length bytes ≤ length previous
      → Counted (count_batches s (chunks f n bytes) (chunks g n previous)) s previous bytes
  unfolding count_batches chunks
  count_batches-Counted zero g s [] previous hf hg le = Counted-nil s previous [] refl
  count_batches-Counted (suc f) g s [] previous hf hg le = Counted-nil s previous [] refl
  count_batches-Counted f g s (b ∷ bytes) [] hf hg le = absurd (omega arith)
  count_batches-Counted zero g s (b ∷ bytes) (p ∷ previous) hf hg le = absurd (omega arith)
  count_batches-Counted (suc f) zero s (b ∷ bytes) (p ∷ previous) hf hg le = absurd (omega arith)
  count_batches-Counted (suc f) (suc g) s (b ∷ bytes) (p ∷ previous) hf hg le =
      let batch = take n (b ∷ bytes) in
      let before = take n (p ∷ previous) in
      let (c, l, r) =
        count_batch-Counted s batch before
          (omega (arith, length-take n (b ∷ bytes), length-take n (p ∷ previous)))
          (omega (arith, length-take n (b ∷ bytes))) in
      let (c', l', r') =
        count_batches-Counted f g (count_batch s batch before) (drop n (b ∷ bytes))
          (drop n (p ∷ previous)) (omega (arith, length-drop n (b ∷ bytes)))
          (omega (arith, length-drop n (p ∷ previous)))
          (omega (arith, length-drop n (b ∷ bytes), length-drop n (p ∷ previous))) in
      (
        omega (arith, c, c', count_tail-split is_cr n (p ∷ previous) (b ∷ bytes)),
        omega (arith, l, l', count_tail-split is_lf n (p ∷ previous) (b ∷ bytes)),
        omega (arith, r, r', count_tail-split is_crlf n (p ∷ previous) (b ∷ bytes)),
      )

sum_line_endings-Counted :
    (first : ℕ) (rest : Bytes)
    → Counted
        (sum_line_endings first rest)
        (record { cr = from_bool (first == cr); lf = from_bool (first == lf); crlf = 0 })
        (first ∷ rest)
        rest
unfolding sum_line_endings
sum_line_endings-Counted first rest =
    count_batches-Counted batch_size (omega arith) (omega arith) (length rest) (suc (length rest))
      (record { cr = from_bool (first == cr); lf = from_bool (first == lf); crlf = 0 }) rest
      (first ∷ rest) (omega arith) (omega arith) (omega arith)

counts_eq :
    (s : Sums) (t : LineEndingCounts)
    → s.cr ≡ t.cr + t.crlf
    → s.crlf ≡ t.crlf
    → s.lf ≡ t.lf + t.crlf
    → counts_of s ≡ t
counts_eq s t a b c =
    ap₂ (λ x y. record { cr = x; crlf = y; lf = s.lf - s.crlf }) (omega arith) b
    ∙ ap (λ z. record { cr = t.cr; crlf = t.crlf; lf = z }) (omega arith)

-- The counts of CR, CRLF and LF that the loop over batches of 64 byte-wide counters yields are
-- those of counting the endings one by one; no counter wraps around, and pairs across blocks
-- and batches count once.
pub count_line_endings_lem : (content : Bytes) → count_line_endings content ≡ tally content
unfolding count_line_endings
count_line_endings_lem [] = unfold tally in refl
count_line_endings_lem (first ∷ rest) =
    let (c, l, p) = sum_line_endings-Counted first rest in
    let (x, y, z) = tally-Tallied first rest in
    counts_eq (sum_line_endings first rest) (tally (first ∷ rest)) (omega arith) (omega arith)
      (omega arith)
