-- ===== src/Schedule/Groups/Rising.antt =====
-- crates/prek/src/cli/run/run.rs, `PriorityGroups`: the groups of hooks that are sorted by
-- priority.
use mathlib.Core.List.{flatten}
use prek.Prelude.{
  ℕ, zero, suc, ◌≡◌, ◌≤◌, ◌<◌, refl, ap, ◌∙◌, List, [], ◌∷◌, ◌++◌, some, take, drop, length, arith,
  All, length-drop, length-take, take-append-drop,
}
use prek.Schedule.{HookPlan}
use prek.Schedule.Groups.{priority_of, next_priority, next_group, priority_groups}

-- Each hook comes before none of a lower priority, and the first is at least `lo`.
abbrev pub Sorted : ℕ → List HookPlan → Type 0
Sorted lo [] = Unit
Sorted lo (h ∷ rest) = (lo ≤ priority_of h) × Sorted (priority_of h) rest

abbrev pub HasPriority : ℕ → HookPlan → Type 0
HasPriority p h = priority_of h ≡ p

-- Groups that are not empty, each of one priority, which is higher with each group.
abbrev pub Rising : ℕ → List (List HookPlan) → Type 0
Rising lo [] = Unit
Rising lo (g ∷ gs) = (p : ℕ) × (lo ≤ p) × (0 < length g) × All (HasPriority p) g × Rising (suc p) gs

next_priority-same :
    (p : ℕ) (hooks : List HookPlan) → All (HasPriority p) (take (next_priority p hooks) hooks)
unfolding next_priority
next_priority-same p [] = tt
next_priority-same p (h ∷ rest) = ground (arith, next_priority-same p rest)

next_priority-Sorted :
    (p : ℕ) (hooks : List HookPlan)
    → Sorted p hooks
    → Sorted (suc p) (drop (next_priority p hooks) hooks)
unfolding next_priority
next_priority-Sorted p [] s = tt
next_priority-Sorted p (h ∷ rest) s = ground (arith, next_priority-Sorted p rest)

next_priority_le : (p : ℕ) (hooks : List HookPlan) → next_priority p hooks ≤ length hooks
unfolding next_priority
next_priority_le p [] = omega arith
next_priority_le p (h ∷ rest) = ground (arith, next_priority_le p rest)

next_priority_pos :
    (h : HookPlan) (rest : List HookPlan) → 0 < next_priority (priority_of h) (h ∷ rest)
unfolding next_priority
next_priority_pos h rest = ground arith

-- What the iterator owes for hooks that are sorted from `lo` on.
abbrev Grouped : ℕ → ℕ → List HookPlan → Type 0
Grouped fuel lo hooks =
    (gs : List (List HookPlan)) × (priority_groups fuel hooks ≡ some gs)
    × (flatten gs ≡ hooks)
    × Rising lo gs

Grouped-cons :
    (fuel lo : ℕ) (h : HookPlan) (rest : List HookPlan)
    → lo ≤ priority_of h
    → Grouped fuel
        (suc (priority_of h))
        (drop (next_priority (priority_of h) (h ∷ rest)) (h ∷ rest))
    → Grouped (suc fuel) lo (h ∷ rest)
unfolding priority_groups next_group flatten
Grouped-cons fuel lo h rest le (gs, e, flat, rising) =
    let p = priority_of h in
    let n = next_priority p (h ∷ rest) in
    (
      take n (h ∷ rest) ∷ gs,
      rw e refl,
      ap (λ l. take n (h ∷ rest) ++ l) flat ∙ take-append-drop n (h ∷ rest),
      (
        p,
        le,
        omega (
          arith,
          next_priority_pos h rest,
          next_priority_le p (h ∷ rest),
          length-take n (h ∷ rest),
        ),
        next_priority-same p (h ∷ rest),
        rising,
      ),
    )

Grouped-all :
    (fuel lo : ℕ) (hooks : List HookPlan)
    → length hooks < fuel
    → Sorted lo hooks
    → Grouped fuel lo hooks
Grouped-all zero lo hooks h s = absurd (omega arith)
Grouped-all (suc fuel) lo [] h s =
    ([], unfold priority_groups next_group in refl, unfold flatten in refl, tt)
Grouped-all (suc fuel) lo (x ∷ rest) h (le, s) =
    let p = priority_of x in
    let n = next_priority p (x ∷ rest) in
    Grouped-cons fuel lo x rest le (
      Grouped-all fuel (suc p) (drop n (x ∷ rest))
        (omega (arith, next_priority_pos x rest, length-drop n (x ∷ rest)))
        (next_priority-Sorted p (x ∷ rest) (omega arith, s)))

-- The iterator over hooks that are sorted by priority ends; its groups, put together, are the
-- hooks in order, no group is empty, the hooks of a group have one priority, and it is higher
-- with each group.
pub priority_groups-Rising :
    (hooks : List HookPlan)
    → Sorted 0 hooks
    → (gs : List (List HookPlan)) × (priority_groups (suc (length hooks)) hooks ≡ some gs)
      × (flatten gs ≡ hooks)
      × Rising 0 gs
priority_groups-Rising hooks s = Grouped-all (suc (length hooks)) 0 hooks (omega arith) s
