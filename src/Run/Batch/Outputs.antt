-- ===== src/Run/Batch/Outputs.antt =====
-- crates/prek/src/run.rs, `run_by_batch`: what a hook over batches returns.
use mathlib.Core.List.{flatten}
use prek.Prelude.{
  ℕ, ◌≡◌, ◌↔◌, ◌<◌, ◌⊎◌, inr, refl, Bytes, List, [], ◌∷◌, ◌++◌, arith, All, length, some,
  append_assoc, append-nil, if◌then◌else◌, ◌∙◌, sym, subst,
}
use prek.Run.Partitions.{Partitions}
use prek.Run.Limits.{BatchHook, Platform, split, limited}
use prek.Run.Output
use prek.Run.Output.{HookRunOutput}
use prek.Run.Output.ExitCode.{append_zero_iff, output-append}
use prek.Run.Limits.Bounds.{batch_limit_pos, split_fields}
use prek.Run.Batch.{all_batches, completed, try_fold, finish, collect, enough_fuel, run_by_batch}
use prek.Run.Batch.Cover.{IsBatch, Fits, collect_covers}

module _ (g : List Bytes → HookRunOutput) where
  abbrev pub outputs_of : List (List Bytes) → Bytes
  outputs_of [] = []
  outputs_of (b ∷ bs) = (g b).output ++ outputs_of bs

  -- The code of a batch is 0.
  abbrev pub Succeeds : List Bytes → Type 0
  Succeeds b = (g b).exit_code ≡ 0

  -- A closure that does not fail.
  abbrev pub total : {E : Type 0} → List Bytes → E ⊎ HookRunOutput
  total b = inr (g b)

  fold_all : HookRunOutput → List (List Bytes) → HookRunOutput
  fold_all combined [] = combined
  fold_all combined (b ∷ bs) = fold_all (Output.append combined (g b)) bs

  try_fold-fold_all :
      {E : Type 0} (bs : List (List Bytes)) (start : HookRunOutput)
      → try_fold {E = E} total start bs ≡ completed (fold_all start bs)
  unfolding try_fold fold_all
  try_fold-fold_all [] start = refl
  try_fold-fold_all (b ∷ bs) start = try_fold-fold_all bs (Output.append start (g b))

  fold_all-output :
      (bs : List (List Bytes)) (start : HookRunOutput)
      → (fold_all start bs).output ≡ start.output ++ outputs_of bs
  unfolding fold_all
  fold_all-output [] start = sym (append-nil _)
  fold_all-output (b ∷ bs) start =
      fold_all-output bs (Output.append start (g b))
      ∙ rw output-append (append_assoc start.output (g b).output (outputs_of bs))

  fold_all-exit_code :
      (bs : List (List Bytes)) (start : HookRunOutput)
      → ((fold_all start bs).exit_code ≡ 0) ↔ ((start.exit_code ≡ 0) × All Succeeds bs)
  unfolding fold_all
  fold_all-exit_code [] start = (λ h. (h, tt), λ h. h.0)
  fold_all-exit_code (b ∷ bs) start =
      let (down, up) = fold_all-exit_code bs (Output.append start (g b)) in
      let (apart, join) = append_zero_iff start (g b) in
      (
        λ h. let (both, rest) = down h in let (x, y) = apart both in (x, (y, rest)),
        λ h. up (join (h.0, h.1.0), h.1.1),
      )

  finish_all :
      {E : Type 0} (bs : List (List Bytes)) (parts : Partitions)
      → collect (enough_fuel parts) parts ≡ all_batches bs
      → finish {E = E} total (collect (enough_fuel parts) parts)
        ≡ completed (fold_all Output.default bs)
  unfolding finish
  finish_all bs parts h = rw h (try_fold-fold_all bs Output.default)

  module _ (platform : Platform) (batch_concurrency : ℕ) (hook : BatchHook)
      (entry filenames : List Bytes) where
    abbrev concurrency : ℕ
    concurrency = if hook.require_serial then 1 else batch_concurrency

    run_by_batch-finish :
        {E : Type 0} (parts : Partitions)
        → split platform hook entry filenames concurrency ≡ some parts
        → run_by_batch {E = E} total platform batch_concurrency hook entry filenames
          ≡ finish total (collect (enough_fuel parts) parts)
    unfolding run_by_batch
    run_by_batch-finish parts h = ground arith

    -- If there is at least one filename, the command is accepted, each filename fits what is
    -- left of the line, and a batch may hold a filename, then a hook whose closure never fails
    -- runs to completion over nonempty batches that respect both limits and are together the
    -- filenames in order; the output is that of the batches in order, and the exit code is 0
    -- exactly if that of each batch is.
    pub run_by_batch_completes :
        {E : Type 0} {parts : Partitions}
        → split platform hook entry filenames concurrency ≡ some parts
        → 0 < length filenames
        → ((n : ℕ) → hook.pass_filenames ≡ limited n → 0 < n)
        → All (Fits parts) filenames
        → (bs : List (List Bytes)) × (result : HookRunOutput) × (run_by_batch {E = E} total platform
              batch_concurrency hook entry filenames
            ≡ completed result)
          × (flatten bs ≡ filenames)
          × All (IsBatch parts) bs
          × (result.output ≡ outputs_of bs)
          × ((result.exit_code ≡ 0) ↔ All Succeeds bs)
    run_by_batch_completes {E} {parts} accepted some_name room fit =
        let (names, start, limit) =
          split_fields platform hook entry filenames concurrency accepted in
        let many : 0 < length parts.filenames = subst (λ l. 0 < length l) (sym names) some_name in
        let holds : 0 < parts.max_per_batch =
          subst (λ m. 0 < m) (sym limit)
            (batch_limit_pos hook.pass_filenames (length filenames) concurrency room) in
        let (bs, all_of, cover, each) =
          collect_covers parts start many holds (subst (All (Fits parts)) (sym names) fit) in
        let result = fold_all Output.default bs in
        let (zero_all, all_zero) = fold_all-exit_code bs Output.default in
        (
          bs,
          result,
          run_by_batch-finish {E = E} parts accepted ∙ finish_all {E = E} bs parts all_of,
          cover ∙ names,
          each,
          fold_all-output bs Output.default,
          (λ h. (zero_all h).1, λ h. all_zero (refl, h)),
        )
