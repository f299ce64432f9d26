-- ===== src/Schedule/Levels/Traces.antt =====
-- The runs of projects that a run over levels consists of.
use prek.Prelude.{
  ◌≡◌, refl, ◌⊎◌, inl, inr, Bool, false, not, ◌&&◌, ◌||◌, Option, List, [], ◌∷◌, if◌then◌else◌,
  Bytes, any,
}
use prek.Schedule.{HookPlan, Execution}
use prek.Schedule.Project.{Outcome, finished, errored, baseline_missing, run_project}
use prek.Schedule.Status.{PriorityGroupResult}
use prek.Schedule.Levels.{
  LevelProject, Options, ProjectRun, ProjectRunResult, LevelReport, LevelOutcome, level_done,
  level_error, level_panic, with_result, run_one, run_level,
}
use prek.Schedule.Levels.Reports.{has_modified, report_modified}

-- One of the results stops the run.
abbrev pub has_stop : List ProjectRunResult → Bool
has_stop [] = false
has_stop (r ∷ results) = r.stop_after_level || has_stop results

module _ {W : Type 0} (diff : LevelProject → W → Option Bytes)
    (execute : LevelProject → W → List HookPlan → W × (HookPlan → Execution)) (o : Options) where
  -- The groups of a project, run from a state, end in an outcome.
  abbrev pub RunsTo : Bool → W → ProjectRun → Outcome W → Type 0
  RunsTo clean w r outcome =
      run_project (diff r.project) (execute r.project) o.is_dry_run r.project_fail_fast clean w
        r.groups
      ≡ outcome

  -- The runs of a level in order, each from the state that the one before it has ended in, with a
  -- result for each, and the state that the last ends in.
  abbrev pub LevelRun : Bool → W → List ProjectRun → List ProjectRunResult → W → Type 0
  LevelRun clean w [] [] last = last ≡ w
  LevelRun clean w [] (x ∷ results) last = ⊥
  LevelRun clean w (r ∷ runs) [] last = ⊥
  LevelRun clean w (r ∷ runs) (x ∷ results) last =
      (w' : W) × RunsTo clean w r (finished w' x.groups x.stop_after_level)
      × (x.project ≡ r.project)
      × (x.hidden_statuses ≡ r.hidden_statuses)
      × LevelRun clean w' runs results last

  -- The runs of a level in order, up to one that ends badly.
  abbrev pub LevelFails : Outcome W → Bool → W → List ProjectRun → Type 0
  LevelFails bad clean w [] = ⊥
  LevelFails bad clean w (r ∷ runs) =
      RunsTo clean w r bad
      ⊎ ((w' : W) × (groups : List PriorityGroupResult) × (stop : Bool) × RunsTo clean w r
            (finished w' groups stop)
          × LevelFails bad clean w' runs)

  -- The reports of a run of these levels: each level in order, up to and with one that stops, with
  -- a clean baseline as long as no level before it has modified files.
  abbrev pub Follows : Bool → W → List (List ProjectRun) → List LevelReport → Type 0
  Follows clean w [] [] = Unit
  Follows clean w [] (r ∷ reports) = ⊥
  Follows clean w (runs ∷ levels) [] = ⊥
  Follows clean w (runs ∷ levels) (r ∷ reports) =
      (w' : W) × (r.runs ≡ runs)
      × (r.clean_baseline ≡ clean)
      × LevelRun clean w runs r.results w'
      × (if has_stop r.results
          then (reports ≡ [])
          else Follows (clean && not (report_modified r)) w' levels reports)

  -- The levels in order, none of which stops, up to one with a run that ends badly.
  abbrev pub Fails : Outcome W → Bool → W → List (List ProjectRun) → Type 0
  Fails bad clean w [] = ⊥
  Fails bad clean w (runs ∷ levels) =
      LevelFails bad clean w runs
      ⊎ ((w' : W) × (results : List ProjectRunResult) × LevelRun clean w runs results w'
          × (has_stop results ≡ false)
          × Fails bad (clean && not (any has_modified results)) w' levels)

  -- What a run of a level owes.
  abbrev pub LevelRan : Bool → W → List ProjectRun → LevelOutcome W → Type 0
  LevelRan clean w runs (level_done last results) = LevelRun clean w runs results last
  LevelRan clean w runs level_error = LevelFails errored clean w runs
  LevelRan clean w runs level_panic = LevelFails baseline_missing clean w runs

  LevelRan-with_result :
      (clean : Bool) (w w' : W) (r : ProjectRun) (runs : List ProjectRun) (x : ProjectRunResult)
      (out : LevelOutcome W)
      → RunsTo clean w r (finished w' x.groups x.stop_after_level)
      → x.project ≡ r.project
      → x.hidden_statuses ≡ r.hidden_statuses
      → LevelRan clean w' runs out
      → LevelRan clean w (r ∷ runs) (with_result x out)
  LevelRan-with_result clean w w' r runs x (level_done last results) done p q h =
      (w', done, p, q, h)
  LevelRan-with_result clean w w' r runs x level_error done p q h =
      inr (w', x.groups, x.stop_after_level, done, h)
  LevelRan-with_result clean w w' r runs x level_panic done p q h =
      inr (w', x.groups, x.stop_after_level, done, h)

  level_step :
      (clean : Bool) (w : W) (r : ProjectRun) (runs : List ProjectRun) (outcome : Outcome W)
      → run_one diff execute o clean w r ≡ outcome
      → ((w' : W) → LevelRan clean w' runs (run_level diff execute o clean w' runs))
      → LevelRan clean w (r ∷ runs) (run_level diff execute o clean w (r ∷ runs))
  unfolding run_level
  level_step clean w r runs errored e h = rw (run_level, e) (inl (unfold run_one in e))
  level_step clean w r runs baseline_missing e h = rw (run_level, e) (inl (unfold run_one in e))
  level_step clean w r runs (finished w' groups stop) e h =
      rw (run_level, e)
        (LevelRan-with_result clean w w' r runs _ (run_level diff execute o clean w' runs)
          (unfold run_one in e) refl refl (h w'))

  pub run_level-LevelRan :
      (clean : Bool) (w : W) (runs : List ProjectRun)
      → LevelRan clean w runs (run_level diff execute o clean w runs)
  run_level-LevelRan clean w [] = unfold run_level in refl
  run_level-LevelRan clean w (r ∷ runs) =
      level_step clean w r runs (run_one diff execute o clean w r) refl
        (λ w'. run_level-LevelRan clean w' runs)
