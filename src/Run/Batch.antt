-- ===== src/Run/Batch.antt =====
-- crates/prek/src/run.rs: `run_by_batch`. The batches are what the iterator yields until it ends.
-- `buffered` hands the outputs over in the order of the batches, whatever order they end in, so
-- `try_fold` is a fold over that list; `run` is the caller's closure. The iterator ends before the
-- fold begins: where a batch fails and a later filename is too long, `finish` panics, and the code
-- may return the failure first, which depends on how far `buffered` has read ahead.
pub mod Cover
pub mod Outputs
mod Tests
use prek.Prelude.{
  ℕ, zero, suc, ◌+◌, Bytes, List, [], ◌∷◌, none, some, length, ◌⊎◌, inl, inr, if◌then◌else◌,
}
use prek.Run.Partitions.{Partitions, done, batch, too_long, next}
use prek.Run.Limits.{BatchHook, Platform, split}
use prek.Run.Output
use prek.Run.Output.{HookRunOutput}

-- All the batches, or the panic of the iterator.
pub data Batches : Type 0 where
  all_batches : List (List Bytes) → Batches
  panicked : Batches
  out_of_fuel : Batches

abbrev pub prepend : List Bytes → Batches → Batches
prepend b (all_batches bs) = all_batches (b ∷ bs)
prepend b other = other

-- The iterator until its end.
pub collect : ℕ → Partitions → Batches
collect zero p = out_of_fuel
collect (suc fuel) p = elim (next p) [
  | done ↦ all_batches []
  | batch b p' ↦ prepend b (collect fuel p')
  | too_long ↦ panicked
]

-- Each round moves past a filename, but for the round on an empty list and the last one.
abbrev pub enough_fuel : Partitions → ℕ
enough_fuel p = length p.filenames + 2

-- `length_error` is the error of `split`, `failed` that of the closure.
pub data RunResult (E : Type 0) : Type 0 where
  completed : HookRunOutput → RunResult E
  failed : E → RunResult E
  length_error panic no_fuel : RunResult E

module _ {E : Type 0} (run : List Bytes → E ⊎ HookRunOutput) where
  -- The first batch that fails ends the fold.
  pub try_fold : HookRunOutput → List (List Bytes) → RunResult E
  try_fold combined [] = completed combined
  try_fold combined (b ∷ bs) = elim (run b) [
    | inl e ↦ failed e
    | inr output ↦ try_fold (Output.append combined output) bs
  ]

  pub finish : Batches → RunResult E
  finish (all_batches bs) = try_fold Output.default bs
  finish panicked = panic
  finish out_of_fuel = no_fuel

  pub run_by_batch : Platform → ℕ → BatchHook → List Bytes → List Bytes → RunResult E
  run_by_batch p batch_concurrency hook entry filenames =
      let concurrency = if hook.require_serial then 1 else batch_concurrency in
      elim (split p hook entry filenames concurrency) [
        | none ↦ length_error
        | some parts ↦ finish (collect (enough_fuel parts) parts)
      ]
