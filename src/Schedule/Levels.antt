-- ===== src/Schedule/Levels.antt =====
-- crates/prek/src/cli/run/run.rs, `run_hooks`: the projects of a workspace in levels of one depth,
-- the hooks of a project, and the session that ends in an exit status. The projects of a level run at
-- once; here each begins where the one before it has ended, which is one of their orders. What the
-- terminal is told is the list of reports.
pub mod Sorting
pub mod Order
pub mod Planned
pub mod Reports
pub mod Traces
pub mod Follow
pub mod Runs
mod Tests
use prek.Prelude.{
  ℕ, zero, suc, ◌+◌, ◌-◌, ◌*◌, ◌/◌, ◌%◌, ◌^◌, ◌≤◌, ◌<◌, min, max, ◌≡◌, refl, sym, fun_ext, ap, ap₂,
  subst, ◌∙◌, ◌≢◌, ◌↔◌, ◌⊎◌, inl, inr, Bool, true, false, not, ◌&&◌, ◌||◌, Option, none, some, List,
  [], ◌∷◌, ◌++◌, map, append_assoc, append-nil, arith, ltb, leb, ◌==◌, if◌then◌else◌, ltb→lt,
  ltb→le, lt→ltb, leb→le, ==_iff, Bool-cases, Option-cases, Bytes, codes, length, get_elem?, take,
  drop, any, all, length-append, take-append-drop, length-take, length-drop, take-split,
  take-length, take-append, take-append_add, drop-append_add, take-take, drop-take, drop-length,
  drop-drop, eq_bytes, eq_bytes_iff, All, All-append, All-append_inv, All-drop, ◌>>=◌,
}
use prek.Schedule.{HookPlan, hook_of, Execution}
use prek.Schedule.Status.{PriorityGroupResult, is_modified, group_failed}
use prek.Schedule.Groups.{priority_groups}
use prek.Schedule.Project.{Outcome, finished, errored, baseline_missing, run_project}

-- config/mod.rs
pub data HideStatus : Type 0 where
  hide_passed hide_failed hide_skipped : HideStatus

pub record LevelProject : Type 0 where
  pub idx : ℕ
  pub depth : ℕ
  pub hide_status : Option (List HideStatus)
  pub fail_fast : Option Bool

-- A hook with the index of its project.
pub record ScheduledHook : Type 0 where
  pub project : ℕ
  pub plan : HookPlan

-- `project_to_hooks` at a project, with the hooks in the order of the configuration. The code takes
-- them out of the map; a project is listed once.
unfoldable pub hooks_of : ℕ → List ScheduledHook → List HookPlan
hooks_of project [] = []
hooks_of project (h ∷ hooks) =
    let rest = hooks_of project hooks in if h.project == project then h.plan ∷ rest else rest

-- By priority, and by index for the same priority.
abbrev pub comes_first : HookPlan → HookPlan → Bool
comes_first a b =
    ltb (hook_of a).priority (hook_of b).priority
    || ((hook_of a).priority == (hook_of b).priority && leb (hook_of a).idx (hook_of b).idx)

-- The stable sort of the standard library.
unfoldable pub insert_hook : HookPlan → List HookPlan → List HookPlan
insert_hook h [] = h ∷ []
insert_hook h (x ∷ sorted) =
    let rest = insert_hook h sorted in if comes_first h x then h ∷ (x ∷ sorted) else x ∷ rest

unfoldable pub sort_hooks : List HookPlan → List HookPlan
sort_hooks [] = []
sort_hooks (h ∷ hooks) = insert_hook h (sort_hooks hooks)

-- `PriorityGroups::new(hooks).collect()`, which ends within this fuel.
unfoldable pub project_groups : List HookPlan → List (List HookPlan)
project_groups hooks = elim (priority_groups (suc (length (sort_hooks hooks))) (sort_hooks hooks)) [
  | none ↦ []
  | some groups ↦ groups
]

-- `ProjectDepthGroups`: how many projects from the first on have its depth.
unfoldable pub same_depth : ℕ → List LevelProject → ℕ
same_depth depth [] = 0
same_depth depth (p ∷ projects) =
    let more = suc (same_depth depth projects) in if p.depth == depth then more else 0

unfoldable pub next_level : List LevelProject → Option (List LevelProject × List LevelProject)
next_level [] = none
next_level (first ∷ projects) =
    let n = same_depth first.depth (first ∷ projects) in
    some (take n (first ∷ projects), drop n (first ∷ projects))

-- The iterator until its end; none if the fuel is used up.
unfoldable pub project_levels : ℕ → List LevelProject → Option (List (List LevelProject))
project_levels zero projects = none
project_levels (suc n) projects = elim (next_level projects) [
  | none ↦ some []
  | some (level, rest) ↦ do levels ← project_levels n rest; some (level ∷ levels)
]

pub record ProjectRun : Type 0 where
  pub project : LevelProject
  pub hidden_statuses : List HideStatus
  pub project_fail_fast : Bool
  pub groups : List (List HookPlan)

abbrev pub or_else {ℓ} : {A : Type ℓ} → Option A → Option A → Option A
or_else none other = other
or_else (some a) other = some a

abbrev pub unwrap_or {ℓ} : {A : Type ℓ} → A → Option A → A
unwrap_or default none = default
unwrap_or default (some a) = a

-- What the command line and the user's file say.
pub record Options : Type 0 where
  pub fail_fast : Option Bool
  pub hide_status : Option (List HideStatus)
  pub filesystem_hide_status : Option (List HideStatus)
  pub is_dry_run : Bool
  pub worktree_cleaned : Bool
  pub show_diff_on_failure : Bool

unfoldable pub project_run : Options → LevelProject → List HookPlan → ProjectRun
project_run o p hooks = record {
  project = p;
  hidden_statuses =
      unwrap_or [] (or_else (or_else o.hide_status p.hide_status) o.filesystem_hide_status);
  project_fail_fast = unwrap_or false (or_else o.fail_fast p.fail_fast);
  groups = project_groups hooks;
}

-- The runs of a level: a project without hooks has none.
unfoldable pub level_runs : Options → List ScheduledHook → List LevelProject → List ProjectRun
level_runs o hooks [] = []
level_runs o hooks (p ∷ projects) = elim (hooks_of p.idx hooks) [
  | [] ↦ level_runs o hooks projects
  | h ∷ more ↦ project_run o p (h ∷ more) ∷ level_runs o hooks projects
]

pub record ProjectRunResult : Type 0 where
  pub project : LevelProject
  pub hidden_statuses : List HideStatus
  pub groups : List PriorityGroupResult
  pub stop_after_level : Bool

abbrev pub project_failed : ProjectRunResult → Bool
project_failed r = any group_failed r.groups

pub data LevelOutcome (W : Type 0) : Type 0 where
  level_done : W → List ProjectRunResult → LevelOutcome W
  level_error level_panic : LevelOutcome W

abbrev pub with_result : {W : Type 0} → ProjectRunResult → LevelOutcome W → LevelOutcome W
with_result r (level_done w results) = level_done w (r ∷ results)
with_result r other = other

pub record Session : Type 0 where
  pub failed : Bool
  pub modified_files : Bool

-- `finish_priority_group`
abbrev pub finish_group : Session → PriorityGroupResult → Session
finish_group s g = record {
  failed = s.failed || group_failed g;
  modified_files = s.modified_files || is_modified g.modification;
}

unfoldable pub finish_groups : Session → List PriorityGroupResult → Session
finish_groups s [] = s
finish_groups s (g ∷ groups) = finish_groups (finish_group s g) groups

-- The results of a level, one project after the other, and whether one of them stops the run.
unfoldable pub finish_level : Session → List ProjectRunResult → Session
finish_level s [] = s
finish_level s (r ∷ results) = finish_level (finish_groups s r.groups) results

abbrev pub stops : List ProjectRunResult → Bool
stops results = any (λ r. r.stop_after_level) results

-- What a level was told and what it reports.
pub record LevelReport : Type 0 where
  pub runs : List ProjectRun
  pub clean_baseline : Bool
  pub results : List ProjectRunResult

pub data RunOutcome (W : Type 0) : Type 0 where
  ran : W → Session → List LevelReport → RunOutcome W
  run_error run_panic : RunOutcome W

abbrev pub with_report : {W : Type 0} → LevelReport → RunOutcome W → RunOutcome W
with_report r (ran w s reports) = ran w s (r ∷ reports)
with_report r other = other

-- The exit status, whether the diff is shown, and the reports.
pub data Exit : Type 0 where
  exited : ℕ → Bool → List LevelReport → Exit
  exit_error exit_panic : Exit

module _ {W : Type 0} (diff : LevelProject → W → Option Bytes)
    (execute : LevelProject → W → List HookPlan → W × (HookPlan → Execution)) (o : Options) where
  unfoldable pub run_one : Bool → W → ProjectRun → Outcome W
  run_one clean w r =
      run_project (diff r.project) (execute r.project) o.is_dry_run r.project_fail_fast clean w
        r.groups

  unfoldable pub run_level : Bool → W → List ProjectRun → LevelOutcome W
  run_level clean w [] = level_done w []
  run_level clean w (r ∷ runs) = elim (run_one clean w r) [
    | errored ↦ level_error
    | baseline_missing ↦ level_panic
    | finished w' groups stop ↦
        with_result
          (record {
            project = r.project;
            hidden_statuses = r.hidden_statuses;
            groups = groups;
            stop_after_level = stop;
          })
          (run_level clean w' runs)
  ]

  unfoldable pub run_levels :
      List ScheduledHook → W → Session → List (List LevelProject) → RunOutcome W
  run_levels hooks w s [] = ran w s []
  run_levels hooks w s (projects ∷ levels) = elim (level_runs o hooks projects) [
    | [] ↦ run_levels hooks w s levels
    | first ∷ more ↦
        let runs = first ∷ more in
        let clean = o.worktree_cleaned && not s.modified_files in
        elim (run_level clean w runs) [
          | level_error ↦ run_error
          | level_panic ↦ run_panic
          | level_done w' results ↦
              let s' = finish_level s results in
              let report : LevelReport = record {
                runs = runs;
                clean_baseline = clean;
                results = results;
              } in
              let rest = run_levels hooks w' s' levels in
              with_report report (if stops results then ran w' s' [] else rest)
        ]
  ]

  -- `finish`
  unfoldable pub finish : RunOutcome W → Exit
  finish (ran w s reports) =
      exited (if s.failed then 1 else 0) (s.failed && (o.show_diff_on_failure && s.modified_files))
        reports
  finish run_error = exit_error
  finish run_panic = exit_panic

  unfoldable pub run_hooks : W → List LevelProject → List ScheduledHook → Option Exit
  run_hooks w projects hooks = do
    levels ← project_levels (suc (length projects)) projects
    some (finish (run_levels hooks w (record { failed = false; modified_files = false }) levels))
