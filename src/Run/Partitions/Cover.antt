-- ===== src/Run/Partitions/Cover.antt =====
-- crates/prek/src/run.rs, `Partitions::next`: one step of the iterator, from the count of its
-- loop.

use prek.Prelude.{
  ℕ, suc, ◌+◌, ◌-◌, ◌≤◌, ◌<◌, ◌≡◌, ◌⊎◌, ◌↔◌, ap, ◌∷◌, Bytes, List, length, take, drop, ◌==◌,
  if◌then◌else◌, arith, length-drop, length-take,
}
use prek.Run.Partitions.{Partitions, arg_size, next, batch, done, too_long}
use prek.Run.Partitions.Greedy.{
  greedy, greedy_bounds, greedy_maximal, greedy_zero_iff, fill-greedy, total_size,
}

-- Some filename is left.
abbrev pub taken : Partitions → ℕ
taken p = greedy p.max_per_batch p.remaining_arg_length (drop p.current_index p.filenames)

pub next-greedy :
    (p : Partitions)
    → p.current_index < length p.filenames
    → next p ≡ (
        if taken p == 0
        then too_long
        else batch
            (take (taken p) (drop p.current_index p.filenames))
            (record p { current_index = p.current_index + taken p }))
unfolding next
next-greedy p h =
    let start = p.current_index in
    let e : p.max_per_batch - (start - start) ≡ p.max_per_batch = omega arith in
    let f =
      fill-greedy (drop start p.filenames) start p.max_per_batch start p.remaining_arg_length
        (omega arith) in
    ground (arith, (rw e at f))

pub next-done :
    (p : Partitions) → 0 < length p.filenames → length p.filenames ≤ p.current_index → next p ≡ done
unfolding next
next-done p h k = ground arith

-- A batch that the iterator yields while filenames are left is the next filenames in order, it
-- fits the remaining length, the iterator moves past exactly it, and if a filename is left
-- then the batch has the greatest number of filenames or would not fit with that filename.
pub next_maximal :
    (p p' : Partitions) (b : List Bytes)
    → p.current_index < length p.filenames
    → next p ≡ batch b p'
    → (b ≡ take (length b) (drop p.current_index p.filenames))
      × (p'.current_index ≡ p.current_index + length b)
      × (total_size b ≤ p.remaining_arg_length)
      × (p'.current_index < length p.filenames
          → (length b ≡ p.max_per_batch)
            ⊎ (p.remaining_arg_length
                < total_size (take (suc (length b)) (drop p.current_index p.filenames))))
next_maximal p p' b h e =
    let rest = drop p.current_index p.filenames in
    let (le_room, le_rest, le_size) = greedy_bounds p.max_per_batch p.remaining_arg_length rest in
    let long = length-take (taken p) rest in
    let far = length-drop p.current_index p.filenames in
    let maximal = greedy_maximal p.max_per_batch p.remaining_arg_length rest in
    ground (arith, next-greedy p h)

-- While a filename is left, the iterator panics exactly if a batch may hold no filename, or
-- the next filename does not fit the remaining length by itself.
pub next-too_long :
    (p : Partitions) (f : Bytes) (rest : List Bytes)
    → drop p.current_index p.filenames ≡ f ∷ rest
    → (next p ≡ too_long) ↔ ((p.max_per_batch ≡ 0) ⊎ (p.remaining_arg_length < arg_size f))
next-too_long p f rest h =
    let more : p.current_index < length p.filenames =
      omega (arith, ap length h, length-drop p.current_index p.filenames) in
    let stops = greedy_zero_iff p.max_per_batch p.remaining_arg_length f rest in
    let count : taken p ≡ greedy p.max_per_batch p.remaining_arg_length (f ∷ rest) =
      ap (greedy p.max_per_batch p.remaining_arg_length) h in
    ground (arith, next-greedy p more, stops, count)
