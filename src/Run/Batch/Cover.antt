-- ===== src/Run/Batch/Cover.antt =====
-- crates/prek/src/run.rs, `run_by_batch`: the iterator until its end.
use mathlib.Core.List.{flatten}
use prek.Prelude.{
  ℕ, zero, suc, ◌+◌, ◌-◌, ◌≤◌, ◌<◌, ◌≡◌, inl, inr, sym, ap, ◌∙◌, Bytes, List, [], ◌∷◌, length, take,
  drop, ltb, arith, All, All-drop, Bool-cases, drop-drop, length-drop, drop-length, min, ltb→lt,
  ltb→le, length-take, take-append-drop,
}
use prek.Run.Partitions.{Partitions, arg_size, next, batch, done}
use prek.Run.Partitions.Greedy.{greedy, greedy_bounds, greedy_pos, total_size}
use prek.Run.Partitions.Cover.{taken, next-greedy, next-done}
use prek.Run.Batch.{all_batches, collect, enough_fuel}

-- A batch holds a filename, at most as many as the limit, and no more bytes than the line has.
abbrev pub IsBatch : Partitions → List Bytes → Type 0
IsBatch p b =
    (0 < length b) × (length b ≤ p.max_per_batch) × (total_size b ≤ p.remaining_arg_length)

abbrev pub Fits : Partitions → Bytes → Type 0
Fits p f = arg_size f ≤ p.remaining_arg_length

-- What the iterator still owes from the state `p`.
abbrev Covered : ℕ → Partitions → Type 0
Covered fuel p =
    (bs : List (List Bytes)) × (collect fuel p ≡ all_batches bs)
    × (flatten bs ≡ drop p.current_index p.filenames)
    × All (IsBatch p) bs

taken_pos :
    (p : Partitions)
    → All (Fits p) p.filenames
    → 0 < p.max_per_batch
    → p.current_index < length p.filenames
    → 0 < taken p
taken_pos p fit room more =
    go (drop p.current_index p.filenames) (All-drop (Fits p) p.current_index p.filenames fit)
      (length-drop p.current_index p.filenames)
  where
    go :
        (rest : List Bytes)
        → All (Fits p) rest
        → length rest ≡ length p.filenames - p.current_index
        → 0 < greedy p.max_per_batch p.remaining_arg_length rest
    go [] _ e = absurd (omega arith)
    go (f ∷ rest) (h, _) e = greedy_pos p.max_per_batch p.remaining_arg_length f rest room h

collect-done : (fuel : ℕ) (p : Partitions) → next p ≡ done → collect (suc fuel) p ≡ all_batches []
unfolding collect
collect-done fuel p h = ground arith

collect-batch :
    (fuel : ℕ) (p p' : Partitions) (b : List Bytes) (bs : List (List Bytes))
    → next p ≡ batch b p'
    → collect fuel p' ≡ all_batches bs
    → collect (suc fuel) p ≡ all_batches (b ∷ bs)
unfolding collect
collect-batch fuel p p' b bs h k = ground arith

-- A batch of one filename or more, before what is covered already.
cover_more :
    (fuel : ℕ) (p : Partitions)
    → p.current_index < length p.filenames
    → 0 < taken p
    → Covered fuel (record p { current_index = p.current_index + taken p })
    → Covered (suc fuel) p
cover_more fuel p more pos (bs, e, cover, each) =
    let rest = drop p.current_index p.filenames in
    let b = take (taken p) rest in
    let p' = record p { current_index = p.current_index + taken p } in
    let step : next p ≡ batch b p' = ground (arith, next-greedy p more) in
    let (le_room, le_rest, le_size) = greedy_bounds p.max_per_batch p.remaining_arg_length rest in
    let long : length b ≡ min (taken p) (length rest) = length-take (taken p) rest in
    (
      b ∷ bs,
      collect-batch fuel p p' b bs step e,
      unfold flatten in
          rw (cover, ← drop-drop p.current_index (taken p) p.filenames)
            (take-append-drop (taken p) rest),
      ((omega arith, omega arith, le_size), each),
    )

cover_rest :
    (fuel : ℕ) (p : Partitions)
    → All (Fits p) p.filenames
    → 0 < p.max_per_batch
    → 0 < length p.filenames
    → length p.filenames - p.current_index < fuel
    → Covered fuel p
cover_rest zero p _ _ _ h = absurd (omega arith)
cover_rest (suc fuel) p fit room some_name h =
    elim (Bool-cases (ltb p.current_index (length p.filenames))) [
      | inl more ↦
          let lt = ltb→lt _ _ more in
          let pos = taken_pos p fit room lt in
          cover_more fuel p lt pos (
            cover_rest fuel (record p { current_index = p.current_index + taken p }) fit room
              some_name (omega arith))
      | inr none_left ↦
          let le = ltb→le _ _ none_left in
          (
            [],
            collect-done fuel p (next-done p some_name le),
            unfold flatten in sym (drop-length p.current_index p.filenames le),
            tt,
          )
    ]

-- From a fresh iterator over at least one filename, each of which fits the remaining length,
-- where a batch may hold a filename, the iterator ends without a panic; its batches, put
-- together, are the filenames in order, and each batch is not empty, has at most max_per_batch
-- filenames and fits the remaining length.
pub collect_covers :
    (p : Partitions)
    → p.current_index ≡ 0
    → 0 < length p.filenames
    → 0 < p.max_per_batch
    → All (Fits p) p.filenames
    → (bs : List (List Bytes)) × (collect (enough_fuel p) p ≡ all_batches bs)
      × (flatten bs ≡ p.filenames)
      × All (IsBatch p) bs
collect_covers p start some_name room fit =
    let (bs, e, cover, each) = cover_rest (enough_fuel p) p fit room some_name (omega arith) in
    (bs, e, cover ∙ ap (λ n. drop n p.filenames) start, each)
