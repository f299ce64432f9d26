-- ===== src/Run/Partitions.antt =====
-- crates/prek/src/run.rs: `Partitions`, the iterator that cuts the filenames of a hook into batches
-- that fit a command line. A filename, an argument and a variable are byte strings, of which the
-- code reads only the length. The index loop reads the slice from `current_index` on, so it is a
-- recursion on that suffix.
pub mod Greedy
pub mod Cover
mod Tests
use prek.Prelude.{
  ℕ, ◌+◌, ◌-◌, Bytes, List, [], ◌∷◌, ◌&&◌, ◌||◌, length, take, drop, ltb, leb, ◌==◌, if◌then◌else◌,
}

abbrev pub pointer_size_conservative : ℕ
pointer_size_conservative = 8

-- Required size of one argument and its pointer in argv.
abbrev pub arg_size : Bytes → ℕ
arg_size arg = pointer_size_conservative + length arg + 1

pub record Partitions : Type 0 where
  pub filenames : List Bytes
  pub current_index : ℕ
  pub max_per_batch : ℕ
  pub remaining_arg_length : ℕ

-- The two variables of the `while` loop when it ends.
pub record Filled : Type 0 where
  pub index : ℕ
  pub remaining : ℕ

-- The `while` loop: `rest` is `filenames[index..]`.
pub fill : List Bytes → ℕ → ℕ → ℕ → ℕ → Filled
fill [] start limit index remaining = record { index = index; remaining = remaining }
fill (filename ∷ rest) start limit index remaining =
    let more = fill rest start limit (index + 1) (remaining - arg_size filename) in
    if ltb remaining (arg_size filename) || leb limit (index - start)
    then record { index = index; remaining = remaining }
    else more

-- `None`, `Some(batch)` with the new state, or the panic on a filename that is too long.
pub data Next : Type 0 where
  done : Next
  batch : List Bytes → Partitions → Next
  too_long : Next

abbrev yield_from : Partitions → Filled → Next
yield_from p f =
    if f.index == p.current_index
    then too_long
    else batch (take (f.index - p.current_index) (drop p.current_index p.filenames))
        (record p { current_index = f.index })

pub next : Partitions → Next
unfolding fill
next p =
    if leb (length p.filenames) 0 && p.current_index == 0
    then batch [] (record p { current_index = 1 })
    else if leb (length p.filenames) p.current_index
    then done
    else yield_from p (
        fill (drop p.current_index p.filenames) p.current_index p.max_per_batch p.current_index
          p.remaining_arg_length)
