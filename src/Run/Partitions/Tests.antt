-- ===== src/Run/Partitions/Tests.antt =====
-- crates/prek/src/run.rs, `Partitions`: the iterator, at concrete filenames.
use prek.Prelude.{
  suc, ◌+◌, ◌≡◌, ◌≤◌, ◌<◌, ◌⊎◌, ◌↔◌, refl, Bytes, List, [], ◌∷◌, codes, length, take, drop, arith,
}
use prek.Run.Partitions.{Partitions, arg_size, next, fill, batch, too_long}
use prek.Run.Partitions.Greedy.{total_size}
use prek.Run.Partitions.Cover.{next_maximal, next-too_long}

abbrev names : List Bytes
names = codes "a.py" ∷ codes "b.py" ∷ codes "c.py" ∷ []

abbrev parts : Partitions
parts = record {
  filenames = names;
  current_index = 0;
  max_per_batch = 2;
  remaining_arg_length = 100;
}

abbrev two : List Bytes
two = codes "a.py" ∷ codes "b.py" ∷ []

first_two : next parts ≡ batch two (record parts { current_index = 2 })
unfolding next fill
first_two = refl

no_room : next (record parts { remaining_arg_length = 12 }) ≡ too_long
unfolding next fill
no_room = refl

next_maximal_example :
    (two ≡ take 2 (drop 0 names))
    × (2 ≡ 0 + length two)
    × (total_size two ≤ 100)
    × (2 < length names
        → (length two ≡ 2) ⊎ (100 < total_size (take (suc (length two)) (drop 0 names))))
next_maximal_example =
    next_maximal parts (record parts { current_index = 2 }) two (omega arith) first_two

next-too_long_example :
    (next (record parts { remaining_arg_length = 12 }) ≡ too_long)
    ↔ ((parts.max_per_batch ≡ 0) ⊎ (12 < arg_size (codes "a.py")))
next-too_long_example =
    next-too_long (record parts { remaining_arg_length = 12 }) (codes "a.py")
      (codes "b.py" ∷ codes "c.py" ∷ []) refl
