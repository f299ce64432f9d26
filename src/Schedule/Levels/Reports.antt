-- ===== src/Schedule/Levels/Reports.antt =====
-- What the reports of a run say, and the session that it ends in.
use prek.Prelude.{
  ◌≡◌, refl, ap, ◌∙◌, ◌⊎◌, inl, inr, Bool, true, false, not, ◌&&◌, ◌||◌, List, [], ◌∷◌, arith, any,
}
use prek.Schedule.Status.{PriorityGroupResult, is_modified, group_failed}
use prek.Schedule.Levels.{
  LevelProject, ScheduledHook, Options, ProjectRun, ProjectRunResult, project_failed, Session,
  finish_group, finish_groups, finish_level, LevelReport,
}
use prek.Schedule.Levels.Planned.{planned}

abbrev pub has_modified : ProjectRunResult → Bool
has_modified r = any (λ g. is_modified g.modification) r.groups

abbrev pub report_failed : LevelReport → Bool
report_failed r = any project_failed r.results

abbrev pub report_modified : LevelReport → Bool
report_modified r = any has_modified r.results

-- The levels with a project that has hooks.
unfoldable pub plans :
    Options → List ScheduledHook → List (List LevelProject) → List (List ProjectRun)
plans o hooks [] = []
plans o hooks (projects ∷ levels) = elim (planned o hooks projects) [
  | [] ↦ plans o hooks levels
  | first ∷ more ↦ (first ∷ more) ∷ plans o hooks levels
]

pub or_assoc : (a b c : Bool) → (a || b) || c ≡ a || (b || c)
or_assoc true b c = refl
or_assoc false b c = refl

pub or_false : (b : Bool) → b || false ≡ b
or_false true = refl
or_false false = refl

pub and_not_or : (a b c : Bool) → a && not (b || c) ≡ (a && not b) && not c
and_not_or a b c = ground arith

pub List-cases :
    {A : Type 0} (xs : List A) → (xs ≡ []) ⊎ ((x : A) × (rest : List A) × (xs ≡ x ∷ rest))
List-cases [] = inl refl
List-cases (x ∷ xs) = inr (x, xs, refl)

pub any_or :
    {A : Type 0} (p : A → Bool) (b : Bool) (x : A) (xs : List A)
    → (b || p x) || any p xs ≡ b || any p (x ∷ xs)
any_or p true x xs = refl
any_or p false x xs = refl

finish_groups-failed :
    (s : Session) (groups : List PriorityGroupResult)
    → (finish_groups s groups).failed ≡ s.failed || any group_failed groups
unfolding finish_groups
finish_groups-failed s [] = ground arith
finish_groups-failed s (g ∷ groups) =
    finish_groups-failed (finish_group s g) groups ∙ any_or group_failed s.failed g groups

finish_groups-modified :
    (s : Session) (groups : List PriorityGroupResult)
    → (finish_groups s groups).modified_files
      ≡ s.modified_files || any (λ g. is_modified g.modification) groups
unfolding finish_groups
finish_groups-modified s [] = ground arith
finish_groups-modified s (g ∷ groups) =
    finish_groups-modified (finish_group s g) groups
    ∙ any_or (λ g. is_modified g.modification) s.modified_files g groups

pub finish_level-failed :
    (s : Session) (results : List ProjectRunResult)
    → (finish_level s results).failed ≡ s.failed || any project_failed results
unfolding finish_level
finish_level-failed s [] = ground arith
finish_level-failed s (r ∷ results) =
    finish_level-failed (finish_groups s r.groups) results
    ∙ ap (λ b. b || any project_failed results) (finish_groups-failed s r.groups)
    ∙ any_or project_failed s.failed r results

pub finish_level-modified :
    (s : Session) (results : List ProjectRunResult)
    → (finish_level s results).modified_files ≡ s.modified_files || any has_modified results
unfolding finish_level
finish_level-modified s [] = ground arith
finish_level-modified s (r ∷ results) =
    finish_level-modified (finish_groups s r.groups) results
    ∙ ap (λ b. b || any has_modified results) (finish_groups-modified s r.groups)
    ∙ any_or has_modified s.modified_files r results
