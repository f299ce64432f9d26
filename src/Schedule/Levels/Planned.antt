-- ===== src/Schedule/Levels/Planned.antt =====
-- The runs that the projects of a level call for, written out.
use prek.Prelude.{
  ◌≡◌, refl, sym, ap, ap₂, ◌∙◌, Bool, true, false, Option, none, some, List, [], ◌∷◌, arith, ◌==◌,
  if◌then◌else◌, any, all,
}
use prek.Schedule.{HookPlan}
use prek.Schedule.Levels.{
  HideStatus, LevelProject, ScheduledHook, hooks_of, project_groups, ProjectRun, or_else, unwrap_or,
  Options, project_run, level_runs,
}

-- Whether to stop after a failure: what the command line says, or else the project.
abbrev pub fail_fast_of : Option Bool → Option Bool → Bool
fail_fast_of (some b) _ = b
fail_fast_of none (some b) = b
fail_fast_of none none = false

-- What is not shown: what the command line says, or else the project, or else the user's file.
abbrev pub hidden_of :
    Option (List HideStatus) → Option (List HideStatus) → Option (List HideStatus) → List HideStatus
hidden_of (some l) _ _ = l
hidden_of none (some l) _ = l
hidden_of none none (some l) = l
hidden_of none none none = []

abbrev belongs_to : LevelProject → ScheduledHook → Bool
belongs_to p h = h.project == p.idx

abbrev pub own_hooks : LevelProject → List ScheduledHook → List HookPlan
own_hooks p [] = []
own_hooks p (h ∷ hooks) = if belongs_to p h then h.plan ∷ own_hooks p hooks else own_hooks p hooks

abbrev pub planned_run : Options → List ScheduledHook → LevelProject → ProjectRun
planned_run o hooks p = record {
  project = p;
  hidden_statuses = hidden_of o.hide_status p.hide_status o.filesystem_hide_status;
  project_fail_fast = fail_fast_of o.fail_fast p.fail_fast;
  groups = project_groups (own_hooks p hooks);
}

-- A run for each project that a hook belongs to.
unfoldable pub planned : Options → List ScheduledHook → List LevelProject → List ProjectRun
planned o hooks [] = []
planned o hooks (p ∷ projects) =
    if any (belongs_to p) hooks
    then planned_run o hooks p ∷ planned o hooks projects
    else planned o hooks projects

fail_fast_same : (a b : Option Bool) → unwrap_or false (or_else a b) ≡ fail_fast_of a b
fail_fast_same (some a) b = refl
fail_fast_same none (some b) = refl
fail_fast_same none none = refl

hidden_same :
    (a b c : Option (List HideStatus)) → unwrap_or [] (or_else (or_else a b) c) ≡ hidden_of a b c
hidden_same (some a) b c = refl
hidden_same none (some b) c = refl
hidden_same none none (some c) = refl
hidden_same none none none = refl

own_hooks_same :
    (p : LevelProject) (hooks : List ScheduledHook) → hooks_of p.idx hooks ≡ own_hooks p hooks
unfolding hooks_of
own_hooks_same p [] = refl
own_hooks_same p (h ∷ hooks) = rw (own_hooks_same p hooks) refl

-- Whether a list has an item.
abbrev has_item {ℓ} : {A : Type ℓ} → List A → Bool
has_item [] = false
has_item (x ∷ xs) = true

has_own :
    (p : LevelProject) (hooks : List ScheduledHook)
    → has_item (hooks_of p.idx hooks) ≡ any (belongs_to p) hooks
unfolding hooks_of
has_own p [] = refl
has_own p (h ∷ hooks) = ground (arith, has_own p hooks)

project_run_same :
    (o : Options) (p : LevelProject) (all : List ScheduledHook) (hooks : List HookPlan)
    → hooks_of p.idx all ≡ hooks
    → project_run o p hooks ≡ planned_run o all p
unfolding project_run
project_run_same o p all hooks e =
    let same : hooks ≡ own_hooks p all = sym e ∙ own_hooks_same p all in
    let settings : project_run o p hooks
        ≡ record (planned_run o all p) { groups = project_groups hooks } =
      ap₂
        (λ hidden stop. record {
          project = p;
          hidden_statuses = hidden;
          project_fail_fast = stop;
          groups = project_groups hooks;
        })
        (hidden_same o.hide_status p.hide_status o.filesystem_hide_status)
        (fail_fast_same o.fail_fast p.fail_fast) in
    settings ∙ ap (λ l. record (planned_run o all p) { groups = project_groups l }) same

planned_step :
    (o : Options) (hooks : List ScheduledHook) (p : LevelProject) (projects : List LevelProject)
    (own : List HookPlan)
    → hooks_of p.idx hooks ≡ own
    → any (belongs_to p) hooks ≡ has_item own
    → level_runs o hooks projects ≡ planned o hooks projects
    → level_runs o hooks (p ∷ projects) ≡ planned o hooks (p ∷ projects)
unfolding level_runs planned
planned_step o hooks p projects [] e f h = rw (level_runs, planned, e, f) h
planned_step o hooks p projects (first ∷ more) e f h =
    rw (level_runs, planned, e, f)
      (ap₂ (λ r rest. r ∷ rest) (project_run_same o p hooks (first ∷ more) e) h)

pub level_runs-planned :
    (o : Options) (hooks : List ScheduledHook) (projects : List LevelProject)
    → level_runs o hooks projects ≡ planned o hooks projects
level_runs-planned o hooks [] = unfold level_runs planned in refl
level_runs-planned o hooks (p ∷ projects) =
    planned_step o hooks p projects (hooks_of p.idx hooks) refl (sym (has_own p hooks))
      (level_runs-planned o hooks projects)
