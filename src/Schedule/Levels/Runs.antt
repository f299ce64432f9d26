-- ===== src/Schedule/Levels/Runs.antt =====
-- The whole of `run_hooks`.
use prek.Prelude.{◌≡◌, false, ◌&&◌, Option, List, if◌then◌else◌, Bytes, any}
use prek.Schedule.{HookPlan, Execution}
use prek.Schedule.Project.{errored, baseline_missing}
use prek.Schedule.Levels.{
  LevelProject, ScheduledHook, Options, Session, Exit, exited, exit_error, exit_panic,
}
use prek.Schedule.Levels.Reports.{report_failed, report_modified, plans}
use prek.Schedule.Levels.Traces.{Follows, Fails}

module _ {W : Type 0} (diff : LevelProject → W → Option Bytes)
    (execute : LevelProject → W → List HookPlan → W × (HookPlan → Execution)) (o : Options) where
  -- What a run over levels owes: reports that follow them, the exit status 1 exactly if a group of a
  -- report failed, and the diff exactly if one modified files too and the option asks for it.
  abbrev pub ExitsAs : W → List ScheduledHook → List (List LevelProject) → Exit → Type 0
  ExitsAs w hooks levels (exited status shows_diff reports) =
      Follows diff execute o o.worktree_cleaned w (plans o hooks levels) reports
      × (status ≡ (if any report_failed reports then 1 else 0))
      × (shows_diff
          ≡ any report_failed reports && (o.show_diff_on_failure && any report_modified reports))
  ExitsAs w hooks levels exit_error =
      Fails diff execute o errored o.worktree_cleaned w (plans o hooks levels)
  ExitsAs w hooks levels exit_panic =
      Fails diff execute o baseline_missing o.worktree_cleaned w (plans o hooks levels)

  abbrev begin : Session
  begin = record { failed = false; modified_files = false }
