-- ===== src/Schedule/Project/Tracked.antt =====
-- crates/prek/src/hooks/mod.rs and languages/mod.rs: which hooks report that they do not know
-- whether they modified files.
use prek.Prelude.{
  ℕ, ◌≡◌, List, [], ◌∷◌, Bool, true, not, ◌&&◌, Option, some, any, arith, inl, inr, Option-cases,
}
use prek.Schedule.{HookPlan, run, skip, Execution, HookRunResult, run_hook}
use prek.Schedule.Project.{is_unknown_report, reports_unknown, plan_tracks, group_results}

-- An unknown report comes from a hook that requires tracking, and from no dry run.
pub run_hook-plan_tracks :
    (is_dry_run : Bool) (h : HookPlan) (e : Execution) (r : HookRunResult)
    → run_hook is_dry_run h e ≡ some r
    → is_unknown_report r.file_changes ≡ true
    → (not is_dry_run && plan_tracks h) ≡ true
unfolding run_hook
run_hook-plan_tracks is_dry_run (skip hook) e r h u = ground arith
run_hook-plan_tracks is_dry_run (run hook) e r h u = ground arith

module _ {W : Type 0} (diff : W → Option (List ℕ))
    (execute : W → List HookPlan → W × (HookPlan → Execution))
    (is_dry_run project_fail_fast : Bool) where
  pub group_results-plan_tracks :
      (ran : HookPlan → Execution) (hooks : List HookPlan) (results : List HookRunResult)
      → group_results diff execute is_dry_run project_fail_fast ran hooks ≡ some results
      → reports_unknown results ≡ true
      → (not is_dry_run && any plan_tracks hooks) ≡ true
  unfolding group_results
  group_results-plan_tracks ran [] results h u = ground arith
  group_results-plan_tracks ran (p ∷ hooks) results h u =
      elim (Option-cases (run_hook is_dry_run p (ran p))) [
        | inl e ↦ ground arith
        | inr (r, e) ↦
            elim (Option-cases
              (group_results diff execute is_dry_run project_fail_fast ran hooks)) [
                | inl e' ↦ ground arith
                | inr (rs, e') ↦ ground (
                  arith,
                  run_hook-plan_tracks is_dry_run p (ran p) r e,
                  group_results-plan_tracks ran hooks rs e',
                )
              ]
      ]
