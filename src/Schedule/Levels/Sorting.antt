-- ===== src/Schedule/Levels/Sorting.antt =====
-- The hooks of a project in the order in which they run.
use mathlib.Core.List.{flatten, Perm}
use mathlib.Core.List.Perm
use prek.Prelude.{
  ℕ, suc, ◌≤◌, ◌<◌, ◌⊎◌, ◌≡◌, refl, sym, ap, subst, ◌∙◌, inl, inr, true, false, some, List, [], ◌∷◌,
  arith, if◌then◌else◌, Bool-cases, length,
}
use prek.Schedule.{HookPlan, hook_of}
use prek.Schedule.Groups.{priority_of, priority_groups}
use prek.Schedule.Groups.Rising.{Sorted, Rising, priority_groups-Rising}
use prek.Schedule.Levels.{comes_first, insert_hook, sort_hooks, project_groups}

-- Each hook comes first of itself and the next.
abbrev IsLinked : List HookPlan → Type 0
IsLinked [] = Unit
IsLinked (a ∷ []) = Unit
IsLinked (a ∷ (b ∷ hooks)) = (comes_first a b ≡ true) × IsLinked (b ∷ hooks)

insert_hook-Perm : (h : HookPlan) (hooks : List HookPlan) → Perm (insert_hook h hooks) (h ∷ hooks)
unfolding insert_hook
insert_hook-Perm h [] = Perm.rfl
insert_hook-Perm h (x ∷ hooks) = elim (Bool-cases (comes_first h x)) [
  | inl first ↦ rw first Perm.rfl
  | inr later ↦ rw later (Perm.trans (Perm.cons x (insert_hook-Perm h hooks)) (Perm.swap h x hooks))
]

sort_hooks-Perm : (hooks : List HookPlan) → Perm (sort_hooks hooks) hooks
unfolding sort_hooks
sort_hooks-Perm [] = Perm.rfl
sort_hooks-Perm (h ∷ hooks) =
    Perm.trans (insert_hook-Perm h (sort_hooks hooks)) (Perm.cons h (sort_hooks-Perm hooks))

comes_first_total : (a b : HookPlan) → comes_first a b ≡ false → comes_first b a ≡ true
comes_first_total a b e = ground arith

IsLinked-tail : (x : HookPlan) (hooks : List HookPlan) → IsLinked (x ∷ hooks) → IsLinked hooks
IsLinked-tail x [] o = tt
IsLinked-tail x (y ∷ hooks) (e, o) = o

-- Behind a hook that comes first of an ordered list and of another hook, the hook may be inserted.
insert_hook-IsOrdered_below :
    (x h : HookPlan) (hooks : List HookPlan)
    → comes_first x h ≡ true
    → IsLinked (x ∷ hooks)
    → IsLinked (insert_hook h hooks)
    → IsLinked (x ∷ insert_hook h hooks)
unfolding insert_hook
insert_hook-IsOrdered_below x h [] e o s = (e, tt)
insert_hook-IsOrdered_below x h (y ∷ hooks) e (xy, o) s = elim (Bool-cases (comes_first h y)) [
  | inl first ↦ rw first (e, (first, o))
  | inr later ↦
      rw later
        (xy, subst (λ b. IsLinked (if b then h ∷ (y ∷ hooks) else y ∷ insert_hook h hooks)) later s)
]

insert_hook-IsLinked :
    (h : HookPlan) (hooks : List HookPlan) → IsLinked hooks → IsLinked (insert_hook h hooks)
unfolding insert_hook
insert_hook-IsLinked h [] o = tt
insert_hook-IsLinked h (x ∷ hooks) o = elim (Bool-cases (comes_first h x)) [
  | inl first ↦ rw first (first, o)
  | inr later ↦ rw later (
      insert_hook-IsOrdered_below x h hooks (comes_first_total h x later) o
        (insert_hook-IsLinked h hooks (IsLinked-tail x hooks o)))
]

sort_hooks-IsLinked : (hooks : List HookPlan) → IsLinked (sort_hooks hooks)
unfolding sort_hooks
sort_hooks-IsLinked [] = tt
sort_hooks-IsLinked (h ∷ hooks) =
    insert_hook-IsLinked h (sort_hooks hooks) (sort_hooks-IsLinked hooks)

IsLinked-Sorted :
    (lo : ℕ) (h : HookPlan) (hooks : List HookPlan)
    → lo ≤ priority_of h
    → IsLinked (h ∷ hooks)
    → Sorted lo (h ∷ hooks)
IsLinked-Sorted lo h [] le o = (le, tt)
IsLinked-Sorted lo h (x ∷ hooks) le (e, o) =
    (le, IsLinked-Sorted (priority_of h) x hooks (ground arith) o)

ordered_Sorted : (hooks : List HookPlan) → IsLinked hooks → Sorted 0 hooks
ordered_Sorted [] o = tt
ordered_Sorted (h ∷ hooks) o = IsLinked-Sorted 0 h hooks (omega arith) o

groups_found :
    (hooks : List HookPlan) {gs : List (List HookPlan)}
    → priority_groups (suc (length (sort_hooks hooks))) (sort_hooks hooks) ≡ some gs
    → project_groups hooks ≡ gs
unfolding project_groups
groups_found hooks e = rw (project_groups, e) refl

-- A lower priority, or the same one and an index that is not higher.
abbrev Precedes : HookPlan → HookPlan → Type 0
Precedes a b =
    ((hook_of a).priority < (hook_of b).priority)
    ⊎ (((hook_of a).priority ≡ (hook_of b).priority) × ((hook_of a).idx ≤ (hook_of b).idx))

abbrev pub IsOrdered : List HookPlan → Type 0
IsOrdered [] = Unit
IsOrdered (a ∷ []) = Unit
IsOrdered (a ∷ (b ∷ hooks)) = Precedes a b × IsOrdered (b ∷ hooks)

comes_first-Precedes : (a b : HookPlan) → comes_first a b ≡ true → Precedes a b
comes_first-Precedes a b e = ground arith

IsLinked-IsOrdered : (hooks : List HookPlan) → IsLinked hooks → IsOrdered hooks
IsLinked-IsOrdered [] o = tt
IsLinked-IsOrdered (a ∷ []) o = tt
IsLinked-IsOrdered (a ∷ (b ∷ hooks)) (e, o) =
    (comes_first-Precedes a b e, IsLinked-IsOrdered (b ∷ hooks) o)

-- The groups of a project are all of its hooks, each once, in the order of their priorities
-- and, within one priority, of their indices; no group is empty, the hooks of a group have one
-- priority, and it is higher with each group.
pub project_groups-Rising :
    (hooks : List HookPlan)
    → Rising 0 (project_groups hooks)
      × IsOrdered (flatten (project_groups hooks))
      × Perm (flatten (project_groups hooks)) hooks
project_groups-Rising hooks =
    let (gs, run, flat, rising) =
      priority_groups-Rising (sort_hooks hooks)
        (ordered_Sorted (sort_hooks hooks) (sort_hooks-IsLinked hooks)) in
    let found = sym (groups_found hooks run) in
    let same = sym flat ∙ ap flatten found in
    (
      subst (Rising 0) found rising,
      subst IsOrdered same (IsLinked-IsOrdered (sort_hooks hooks) (sort_hooks-IsLinked hooks)),
      subst (λ l. Perm l hooks) same (sort_hooks-Perm hooks),
    )
