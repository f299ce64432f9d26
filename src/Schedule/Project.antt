-- ===== src/Schedule/Project.antt =====
-- crates/prek/src/cli/run/run.rs: `HookRunSession::run_project`. A group of hooks runs at once;
-- `execute` is what that does to the worktree, and the run of each hook. The results are kept in the order of the
-- hooks, in which the report shows them, not in the order in which they end.
pub mod Reference
pub mod Tracked
mod Tests
use prek.Prelude.{
  ℕ, Bytes, List, [], ◌∷◌, Bool, true, false, not, ◌&&◌, ◌||◌, Option, none, some, if◌then◌else◌,
  any,
}
use prek.Hooks.Output.{FileChanges, not_changed, modified, unknown_changes}
use prek.Schedule.{HookPlan, run, skip, Execution, HookRunResult, run_hook, requires_diff_tracking}
use prek.Schedule.Status.{PriorityGroupResult, new, should_stop_project}
use prek.Schedule.Diff.{
  DiffBaseline, unknown_baseline, snapshot, Changed, changed, diff_failed, not_captured,
  prepare_for_group, changed_after_group,
}

abbrev pub is_modified_report : FileChanges → Bool
is_modified_report modified = true
is_modified_report _ = false

abbrev pub is_unknown_report : FileChanges → Bool
is_unknown_report unknown_changes = true
is_unknown_report _ = false

abbrev pub reports_modified : List HookRunResult → Bool
reports_modified results = any (λ r. is_modified_report r.file_changes) results

abbrev pub reports_unknown : List HookRunResult → Bool
reports_unknown results = any (λ r. is_unknown_report r.file_changes) results

abbrev pub plan_tracks : HookPlan → Bool
plan_tracks (run hook) = requires_diff_tracking hook
plan_tracks (skip hook) = false

-- The results of the groups that ran and whether the run stops there, an error, or the panic.
pub data Outcome (W : Type 0) : Type 0 where
  finished : W → List PriorityGroupResult → Bool → Outcome W
  errored baseline_missing : Outcome W

abbrev pub prepend : {W : Type 0} → PriorityGroupResult → Outcome W → Outcome W
prepend g (finished w gs stop) = finished w (g ∷ gs) stop
prepend g other = other

-- One round of the loop.
pub data Round (W : Type 0) : Type 0 where
  rounded : W → DiffBaseline → PriorityGroupResult → Round W
  round_error round_panic : Round W

abbrev one_more : Option HookRunResult → Option (List HookRunResult) → Option (List HookRunResult)
one_more none rest = none
one_more (some r) none = none
one_more (some r) (some rs) = some (r ∷ rs)

module _ {W : Type 0} (diff : W → Option Bytes)
    (execute : W → List HookPlan → W × (HookPlan → Execution))
    (is_dry_run project_fail_fast : Bool) where
  pub group_results : (HookPlan → Execution) → List HookPlan → Option (List HookRunResult)
  group_results ran [] = some []
  group_results ran (h ∷ rest) = one_more (run_hook is_dry_run h (ran h)) (group_results ran rest)

  abbrev pub after_results : W → DiffBaseline → Option (List HookRunResult) → Round W
  after_results w baseline none = round_error
  after_results w baseline (some results) =
      let known_modified_files = reports_modified results in
      let needs_diff = not known_modified_files && reports_unknown results in
      elim (changed_after_group diff needs_diff w baseline) [
        | diff_failed ↦ round_error
        | not_captured ↦ round_panic
        | changed detected tracked ↦
            rounded w (if known_modified_files then unknown_baseline else tracked)
              (new results (known_modified_files || detected))
      ]

  pub group_round : W → DiffBaseline → List HookPlan → Round W
  unfolding group_results
  group_round w baseline hooks =
      elim (prepare_for_group diff (not is_dry_run && any plan_tracks hooks) w baseline) [
        | none ↦ round_error
        | some ready ↦
            let (w', ran) = execute w hooks in after_results w' ready (group_results ran hooks)
      ]

  pub run_groups : W → DiffBaseline → List (List HookPlan) → Outcome W
  unfolding group_round
  run_groups w baseline [] = finished w [] false
  run_groups w baseline (hooks ∷ rest) = elim (group_round w baseline hooks) [
    | round_error ↦ errored
    | round_panic ↦ baseline_missing
    | rounded w' baseline' g ↦
        if should_stop_project g project_fail_fast
        then finished w' (g ∷ []) true
        else prepend g (run_groups w' baseline' rest)
  ]

  -- `clean` is whether the worktree is known to have no changes.
  pub run_project : Bool → W → List (List HookPlan) → Outcome W
  unfolding run_groups
  run_project clean w groups = run_groups w (if clean then snapshot [] else unknown_baseline) groups
