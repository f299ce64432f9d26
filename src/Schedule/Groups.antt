-- ===== src/Schedule/Groups.antt =====
-- crates/prek/src/cli/run/run.rs: `PriorityGroups`. `position` and `drain` cut the hooks at the
-- first of another priority.
pub mod Rising
use prek.Prelude.{
  ℕ, zero, suc, List, [], ◌∷◌, Option, none, some, take, drop, length, ◌==◌, if◌then◌else◌,
}
use prek.Schedule.{HookPlan, hook_of}

abbrev pub priority_of : HookPlan → ℕ
priority_of h = (hook_of h).priority

-- The index of the first hook with another priority, or else how many there are.
pub next_priority : ℕ → List HookPlan → ℕ
next_priority priority [] = 0
next_priority priority (h ∷ rest) =
    let more = suc (next_priority priority rest) in if priority_of h == priority then more else 0

-- A group, and the hooks that are left.
pub next_group : List HookPlan → Option (List HookPlan × List HookPlan)
unfolding next_priority
next_group [] = none
next_group (first ∷ rest) =
    let n = next_priority (priority_of first) (first ∷ rest) in
    some (take n (first ∷ rest), drop n (first ∷ rest))

abbrev more_groups : List HookPlan → Option (List (List HookPlan)) → Option (List (List HookPlan))
more_groups g none = none
more_groups g (some gs) = some (g ∷ gs)

-- The iterator until its end; `none` means that the fuel ran out.
pub priority_groups : ℕ → List HookPlan → Option (List (List HookPlan))
unfolding next_group
priority_groups zero hooks = none
priority_groups (suc fuel) hooks = elim (next_group hooks) [
  | none ↦ some []
  | some (g, rest) ↦ more_groups g (priority_groups fuel rest)
]
