-- ===== src/Run/Batch/Tests.antt =====
-- crates/prek/src/run.rs, `run_by_batch`, at a concrete platform.
use mathlib.Core.List.{flatten}
use prek.Prelude.{ℕ, ◌≡◌, ◌<◌, ◌↔◌, refl, ap, Bytes, List, [], ◌∷◌, codes, arith, All, some, false}
use prek.Run.Partitions.{Partitions}
use prek.Run.Limits.{
  BatchHook, Platform, PassFilenames, limited, split, available_length, platform_max_cli_length,
  clamp, arg_max_of, page_size_of, env_size, sum_env, inherited_size, command_size, sum_args,
  batch_limit,
}
use prek.Run.Output.{HookRunOutput}
use prek.Run.Batch.{collect, enough_fuel, all_batches, run_by_batch, completed}
use prek.Run.Batch.Cover.{IsBatch, collect_covers}
use prek.Run.Batch.Outputs.{outputs_of, total, Succeeds, run_by_batch_completes}

abbrev names : List Bytes
names = codes "a.py" ∷ codes "b.py" ∷ codes "c.py" ∷ []

abbrev linux : Platform
linux = record { arg_max = 2097152; page_size = 4096; vars = (codes "HOME", codes "/root") ∷ [] }

abbrev lint : BatchHook
lint = record {
  pass_filenames = limited 2;
  require_serial = false;
  args = codes "--fix" ∷ [];
  env = [];
}

abbrev entry : List Bytes
entry = codes "lint" ∷ []

abbrev parts : Partitions
parts = record {
  filenames = names;
  current_index = 0;
  max_per_batch = 2;
  remaining_arg_length = 1048514;
}

abbrev says_ok : List Bytes → HookRunOutput
says_ok b = record { exit_code = 0; output = codes "ok" }

accepts_lint : split linux lint entry names 4 ≡ some parts
unfolding split available_length platform_max_cli_length clamp arg_max_of page_size_of env_size
    sum_env inherited_size command_size sum_args batch_limit
accepts_lint = refl

limit_of : PassFilenames → ℕ
limit_of (limited n) = n
limit_of _ = 0

two_pos : (n : ℕ) → limited 2 ≡ limited n → 0 < n
two_pos n h = let e : 2 ≡ n = unfold limit_of in ap limit_of h in omega arith

collect_covers_example :
    (bs : List (List Bytes)) × (collect (enough_fuel parts) parts ≡ all_batches bs)
    × (flatten bs ≡ names)
    × All (IsBatch parts) bs
collect_covers_example =
    collect_covers parts refl (omega arith) (omega arith)
      (omega arith, (omega arith, (omega arith, tt)))

run_by_batch_completes_example :
    (bs : List (List Bytes)) × (result : HookRunOutput) × (run_by_batch {E = ℕ}
        (total says_ok)
        linux
        4
        lint
        entry
        names
      ≡ completed result)
    × (flatten bs ≡ names)
    × All (IsBatch parts) bs
    × (result.output ≡ outputs_of says_ok bs)
    × ((result.exit_code ≡ 0) ↔ All (Succeeds says_ok) bs)
run_by_batch_completes_example =
    run_by_batch_completes says_ok linux 4 lint entry names {E = ℕ} {parts = parts} accepts_lint
      (omega arith) two_pos (omega arith, (omega arith, (omega arith, tt)))
