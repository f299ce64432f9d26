-- ===== src/Schedule/Levels/Tests.antt =====
-- crates/prek/src/cli/run/run.rs, `run_hooks`: a workspace of two projects.
use mathlib.Core.List.{flatten, Perm}
use prek.Prelude.{true, false, none, some, List, [], ◌∷◌, Bytes}
use prek.Schedule.{Hook, remote, other_language, HookPlan, run, Execution}
use prek.Schedule.Groups.Rising.{Rising}
use prek.Schedule.Levels.{LevelProject, ScheduledHook, Options, project_groups}
use prek.Schedule.Levels.Sorting.{IsOrdered, project_groups-Rising}

abbrev linter : Hook
linter = record {
  idx = 0;
  priority = 10;
  repo = remote;
  fast_path = false;
  language = other_language;
  fail_fast = true;
  always_run = true;
}

abbrev formatter : Hook
formatter = record linter { idx = 1; priority = 0 }

abbrev hooks : List ScheduledHook
hooks =
    record { project = 0; plan = run linter } ∷ (record { project = 1; plan = run formatter } ∷ [])

abbrev nested : LevelProject
nested = record { idx = 1; depth = 1; hide_status = none; fail_fast = none }

abbrev root : LevelProject
root = record { idx = 0; depth = 0; hide_status = none; fail_fast = some false }

abbrev options : Options
options = record {
  fail_fast = none;
  hide_status = none;
  filesystem_hide_status = none;
  is_dry_run = false;
  worktree_cleaned = true;
  show_diff_on_failure = true;
}

-- Every hook is a process that fails.
abbrev failing : LevelProject → Bytes → List HookPlan → Bytes × (HookPlan → Execution)
failing p w group = (
  w,
  λ h. record { matched = true; dry_output = none; builtin_result = none; backend = some (1, []) },
)

project_groups-Rising_example :
    Rising 0 (project_groups (run linter ∷ (run formatter ∷ [])))
    × IsOrdered (flatten (project_groups (run linter ∷ (run formatter ∷ []))))
    × Perm
        (flatten (project_groups (run linter ∷ (run formatter ∷ []))))
        (run linter ∷ (run formatter ∷ []))
project_groups-Rising_example = project_groups-Rising (run linter ∷ (run formatter ∷ []))
