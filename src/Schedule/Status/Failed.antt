-- ===== src/Schedule/Status/Failed.antt =====
-- crates/prek/src/cli/run/run.rs, `PriorityGroupResult`: when a group fails, and which result is
-- marked.
use prek.Prelude.{◌≡◌, refl, List, [], ◌∷◌, ◌++◌, Bool, true, false, ◌||◌, some, any, arith, All}
use prek.Schedule.{is_failure, HookRunResult}
use prek.Schedule.Status.{
  single_hook, executed, fail_result, mark_first, count_two, from_results, new, group_failed,
}

-- A group fails exactly if it modified files or one of its hooks failed.
group_failed-new :
    (results : List HookRunResult) (modified_files : Bool)
    → group_failed (new results modified_files)
      ≡ (modified_files || any (λ r. is_failure r.status) results)
unfolding new from_results
group_failed-new results modified_files = ground arith

abbrev pub NotExecuted : HookRunResult → Type 0
NotExecuted r = executed r ≡ false

any-none : (rs : List HookRunResult) → All NotExecuted rs → any executed rs ≡ false
any-none [] h = refl
any-none (r ∷ rs) h = ground (arith, any-none rs h.1)

any-one :
    (before : List HookRunResult) (r : HookRunResult) (after : List HookRunResult)
    → executed r ≡ true
    → any executed (before ++ r ∷ after) ≡ true
any-one [] r after h = ground arith
any-one (b ∷ before) r after h = ground (arith, any-one before r after h)

count_two-none :
    (rs : List HookRunResult) (seen : Bool) → All NotExecuted rs → count_two rs seen ≡ false
unfolding count_two
count_two-none [] seen h = refl
count_two-none (r ∷ rs) seen h = ground (arith, count_two-none rs seen h.1, h.0)

count_two-one :
    (before : List HookRunResult) (r : HookRunResult) (after : List HookRunResult)
    → All NotExecuted before
    → executed r ≡ true
    → All NotExecuted after
    → count_two (before ++ r ∷ after) false ≡ false
unfolding count_two
count_two-one [] r after h k l = ground (arith, count_two-none after true l)
count_two-one (b ∷ before) r after h k l = ground (arith, count_two-one before r after h.1 k l, h.0)

mark_first-one :
    (before : List HookRunResult) (r : HookRunResult) (after : List HookRunResult)
    → All NotExecuted before
    → executed r ≡ true
    → mark_first (before ++ r ∷ after) ≡ before ++ fail_result r ∷ after
unfolding mark_first
mark_first-one [] r after h k = ground arith
mark_first-one (b ∷ before) r after h k = ground (arith, mark_first-one before r after h.1 k, h.0)

-- If a group modified files and just one of its hooks was executed, then that hook's status
-- becomes failed, the other results stay, and the modification is that of a single hook.
pub new-single :
    (before : List HookRunResult) (r : HookRunResult) (after : List HookRunResult)
    → All NotExecuted before
    → executed r ≡ true
    → All NotExecuted after
    → new (before ++ r ∷ after) true
      ≡ record { results = before ++ fail_result r ∷ after; modification = some single_hook }
unfolding new from_results
new-single before r after h k l = ground (
  arith,
  any-one before r after k,
  count_two-one before r after h k l,
  mark_first-one before r after h k,
)
