-- ===== src/Schedule/Levels/Follow.antt =====
-- What a run of the levels reports.
use prek.Prelude.{
  ◌≡◌, refl, sym, ap, subst, ◌∙◌, inl, inr, Bool, true, false, not, ◌&&◌, ◌||◌, Option, List, [],
  ◌∷◌, arith, if◌then◌else◌, Bool-cases, Bytes, any,
}
use prek.Schedule.{HookPlan, Execution}
use prek.Schedule.Project.{errored, baseline_missing}
use prek.Schedule.Levels.{
  LevelProject, ScheduledHook, Options, ProjectRun, level_runs, ProjectRunResult, project_failed,
  LevelOutcome, level_done, level_error, level_panic, Session, finish_level, stops, LevelReport,
  RunOutcome, ran, run_error, run_panic, with_report, run_level, run_levels,
}
use prek.Schedule.Levels.Reports.{
  has_modified, report_failed, report_modified, plans, or_assoc, or_false, and_not_or, List-cases,
  finish_level-failed, finish_level-modified,
}
use prek.Schedule.Levels.Planned.{level_runs-planned}
use prek.Schedule.Levels.Traces.{has_stop, LevelRun, Follows, Fails, LevelRan, run_level-LevelRan}

module _ {W : Type 0} (diff : LevelProject → W → Option Bytes)
    (execute : LevelProject → W → List HookPlan → W × (HookPlan → Execution)) (o : Options) where
  abbrev clean_of : Session → Bool
  clean_of s = o.worktree_cleaned && not s.modified_files

  abbrev pub RanAs : Session → W → List (List ProjectRun) → RunOutcome W → Type 0
  RanAs s w levels (ran last after reports) =
      Follows diff execute o (o.worktree_cleaned && not s.modified_files) w levels reports
      × (after.failed ≡ s.failed || any report_failed reports)
      × (after.modified_files ≡ s.modified_files || any report_modified reports)
  RanAs s w levels run_error =
      Fails diff execute o errored (o.worktree_cleaned && not s.modified_files) w levels
  RanAs s w levels run_panic =
      Fails diff execute o baseline_missing (o.worktree_cleaned && not s.modified_files) w levels

  next_clean :
      (s : Session) (results : List ProjectRunResult)
      → o.worktree_cleaned && not (finish_level s results).modified_files
        ≡ (o.worktree_cleaned && not s.modified_files) && not (any has_modified results)
  next_clean s results =
      ap (λ b. o.worktree_cleaned && not b) (finish_level-modified s results)
      ∙ and_not_or o.worktree_cleaned s.modified_files (any has_modified results)

  abbrev report_of : Session → List ProjectRun → List ProjectRunResult → LevelReport
  report_of s runs results = record { runs = runs; clean_baseline = clean_of s; results = results }

  stops-has_stop : (results : List ProjectRunResult) → has_stop results ≡ stops results
  stops-has_stop [] = refl
  stops-has_stop (r ∷ results) = ap (λ b. r.stop_after_level || b) (stops-has_stop results)

  module _ (s : Session) (w w' : W) (runs : List ProjectRun) (levels : List (List ProjectRun))
      (results : List ProjectRunResult)
      (level : LevelRun diff execute o (clean_of s) w runs results w') where
    RanAs_more :
        (out : RunOutcome W)
        → has_stop results ≡ false
        → RanAs (finish_level s results) w' levels out
        → RanAs s w (runs ∷ levels) (with_report (report_of s runs results) out)
    RanAs_more (ran last after reports) go (follows, fails, modifies) = (
      (
        w',
        refl,
        refl,
        level,
        rw go (
            subst (λ b. Follows diff execute o b w' levels reports) (next_clean s results) follows),
      ),
      fails
          ∙ ap (λ b. b || any report_failed reports) (finish_level-failed s results)
          ∙ or_assoc s.failed (any project_failed results) (any report_failed reports),
      modifies
          ∙ ap (λ b. b || any report_modified reports) (finish_level-modified s results)
          ∙ or_assoc s.modified_files (any has_modified results) (any report_modified reports),
    )
    RanAs_more run_error go h = inr (
      w',
      results,
      level,
      go,
      subst (λ b. Fails diff execute o errored b w' levels) (next_clean s results) h,
    )
    RanAs_more run_panic go h = inr (
      w',
      results,
      level,
      go,
      subst (λ b. Fails diff execute o baseline_missing b w' levels) (next_clean s results) h,
    )

    RanAs_stop :
        (last : W)
        → has_stop results ≡ true
        → RanAs s w
            (runs ∷ levels)
            (ran last (finish_level s results) (report_of s runs results ∷ []))
    RanAs_stop last stop = (
      (w', refl, refl, level, rw stop refl),
      finish_level-failed s results
          ∙ ap (λ b. s.failed || b) (sym (or_false (any project_failed results))),
      finish_level-modified s results
          ∙ ap (λ b. s.modified_files || b) (sym (or_false (any has_modified results))),
    )

    RanAs_level :
        (rest : RunOutcome W)
        → RanAs (finish_level s results) w' levels rest
        → RanAs s w (runs ∷ levels) (
            with_report
              (report_of s runs results)
              (if stops results then ran w' (finish_level s results) [] else rest))
    RanAs_level rest h = elim (Bool-cases (stops results)) [
      | inl stop ↦ rw stop (RanAs_stop w' (stops-has_stop results ∙ stop))
      | inr go ↦ rw go (RanAs_more rest (stops-has_stop results ∙ go) h)
    ]

  plans_skip :
      (hooks : List ScheduledHook) (projects : List LevelProject)
      (levels : List (List LevelProject))
      → level_runs o hooks projects ≡ []
      → plans o hooks (projects ∷ levels) ≡ plans o hooks levels
  unfolding plans
  plans_skip hooks projects levels e =
      rw (plans, sym (level_runs-planned o hooks projects) ∙ e) refl

  plans_more :
      (hooks : List ScheduledHook) (projects : List LevelProject)
      (levels : List (List LevelProject)) {first : ProjectRun} {more : List ProjectRun}
      → level_runs o hooks projects ≡ first ∷ more
      → plans o hooks (projects ∷ levels) ≡ (first ∷ more) ∷ plans o hooks levels
  unfolding plans
  plans_more hooks projects levels e =
      rw (plans, sym (level_runs-planned o hooks projects) ∙ e) refl

  module _ (hooks : List ScheduledHook) where
    levels_step :
        (w : W) (s : Session) (projects : List LevelProject) (levels : List (List LevelProject))
        (first : ProjectRun) (more : List ProjectRun) (out : LevelOutcome W)
        → level_runs o hooks projects ≡ first ∷ more
        → run_level diff execute o (o.worktree_cleaned && not s.modified_files) w (first ∷ more)
          ≡ out
        → LevelRan diff execute o (clean_of s) w (first ∷ more) out
        → ((w' : W) (s' : Session)
            → RanAs s' w' (plans o hooks levels) (run_levels diff execute o hooks w' s' levels))
        → RanAs s w
            ((first ∷ more) ∷ plans o hooks levels)
            (run_levels diff execute o hooks w s (projects ∷ levels))
    unfolding run_levels
    levels_step w s projects levels first more level_error e f h k = rw (run_levels, e, f) (inl h)
    levels_step w s projects levels first more level_panic e f h k = rw (run_levels, e, f) (inl h)
    levels_step w s projects levels first more (level_done w' results) e f h k =
        rw (run_levels, e, f)
          (RanAs_level s w w' (first ∷ more) (plans o hooks levels) results h _
            (k w' (finish_level s results)))

    run_levels_skip :
        (w : W) (s : Session) (projects : List LevelProject) (levels : List (List LevelProject))
        → level_runs o hooks projects ≡ []
        → run_levels diff execute o hooks w s (projects ∷ levels)
          ≡ run_levels diff execute o hooks w s levels
    unfolding run_levels
    run_levels_skip w s projects levels e = rw (run_levels, e) refl

    moved :
        (s : Session) (w : W) {p q : List (List ProjectRun)} {out other : RunOutcome W}
        → p ≡ q
        → out ≡ other
        → RanAs s w q other
        → RanAs s w p out
    moved s w {p} {q} {out} {other} e f h =
        subst (λ p. RanAs s w p out) (sym e) (subst (λ r. RanAs s w q r) (sym f) h)

    pub run_levels-RanAs :
        (w : W) (s : Session) (levels : List (List LevelProject))
        → RanAs s w (plans o hooks levels) (run_levels diff execute o hooks w s levels)
    run_levels-RanAs w s [] = unfold run_levels plans in (tt, ground arith, ground arith)
    run_levels-RanAs w s (projects ∷ levels) = elim (List-cases (level_runs o hooks projects)) [
      | inl empty ↦
          moved s w (plans_skip hooks projects levels empty)
            (run_levels_skip w s projects levels empty) (run_levels-RanAs w s levels)
      | inr (first, more, found) ↦ moved s w (plans_more hooks projects levels found) refl (
          levels_step w s projects levels first more _ found refl
            (run_level-LevelRan diff execute o (o.worktree_cleaned && not s.modified_files) w
              (first ∷ more))
            (λ w' s'. run_levels-RanAs w' s' levels))
    ]
