-- ===== src/Run/Partitions/Greedy.antt =====
-- crates/prek/src/run.rs, `Partitions::next`: how many filenames its loop takes.
use prek.Prelude.{
  ℕ, suc, ◌+◌, ◌-◌, ◌≤◌, ◌<◌, ◌≡◌, ◌⊎◌, ◌↔◌, Bytes, List, [], ◌∷◌, ◌||◌, length, take, ltb, leb,
  if◌then◌else◌, arith,
}
use prek.Run.Partitions.{arg_size, fill}

abbrev pub total_size : List Bytes → ℕ
total_size [] = 0
total_size (f ∷ fs) = arg_size f + total_size fs

-- How many filenames the loop takes, with room for `room` more.
pub greedy : ℕ → ℕ → List Bytes → ℕ
greedy room remaining [] = 0
greedy room remaining (f ∷ rest) =
    let more = greedy (room - 1) (remaining - arg_size f) rest in
    if ltb remaining (arg_size f) || leb room 0 then 0 else suc more

pub fill-greedy :
    (rest : List Bytes) (start limit index remaining : ℕ)
    → start ≤ index
    → (fill rest start limit index remaining).index
      ≡ index + greedy (limit - (index - start)) remaining rest
unfolding fill greedy
fill-greedy [] start limit index remaining h = omega arith
fill-greedy (f ∷ rest) start limit index remaining h =
    let e : limit - (index + 1 - start) ≡ limit - (index - start) - 1 = omega arith in
    let ih = fill-greedy rest start limit (index + 1) (remaining - arg_size f) (omega arith) in
    ground (arith, (rw e at ih))

pub greedy_bounds :
    (room remaining : ℕ) (rest : List Bytes)
    → (greedy room remaining rest ≤ room)
      × (greedy room remaining rest ≤ length rest)
      × (total_size (take (greedy room remaining rest) rest) ≤ remaining)
unfolding greedy
greedy_bounds room remaining [] = omega arith
greedy_bounds room remaining (f ∷ rest) =
    ground (arith, greedy_bounds (room - 1) (remaining - arg_size f) rest)

-- A filename that is left over would not have fitted, or the batch is full.
pub greedy_maximal :
    (room remaining : ℕ) (rest : List Bytes)
    → greedy room remaining rest < length rest
    → (greedy room remaining rest ≡ room)
      ⊎ (remaining < total_size (take (suc (greedy room remaining rest)) rest))
unfolding greedy
greedy_maximal room remaining [] h = absurd (omega arith)
greedy_maximal room remaining (f ∷ rest) h =
    ground (arith, greedy_maximal (room - 1) (remaining - arg_size f) rest)

pub greedy_pos :
    (room remaining : ℕ) (f : Bytes) (rest : List Bytes)
    → 0 < room
    → arg_size f ≤ remaining
    → 0 < greedy room remaining (f ∷ rest)
unfolding greedy
greedy_pos room remaining f rest h k = ground arith

pub greedy_zero_iff :
    (room remaining : ℕ) (f : Bytes) (rest : List Bytes)
    → (greedy room remaining (f ∷ rest) ≡ 0) ↔ ((room ≡ 0) ⊎ (remaining < arg_size f))
unfolding greedy
greedy_zero_iff room remaining f rest = ground arith
