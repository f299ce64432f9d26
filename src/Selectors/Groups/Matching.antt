-- ===== src/Selectors/Groups/Matching.antt =====
-- crates/prek/src/cli/run/selector.rs, `GroupFilters::matches_groups`: the verdict on a hook.
use prek.Prelude.{
  ◌≡◌, refl, fun_ext, ap, Bool, false, not, ◌&&◌, ◌||◌, Option, none, some, List, [], ◌∷◌, arith,
  Bytes, any, all,
}
use prek.Selectors.{Hook, ConfiguredHook, FilterUsage, is_empty}
use prek.Selectors.Usage.{scan-hit}
use prek.Selectors.Groups.{
  GroupSelector, named, ungrouped, GroupFilters, matches_groups, matches_hook_groups,
  matches_configured_groups, hook_contains, groups_contain, has_text,
}

any-not-all {ℓ} :
    {A : Type ℓ} (p : A → Bool) (xs : List A) → any (λ x. not (p x)) xs ≡ not (all p xs)
any-not-all p [] = refl
any-not-all p (x ∷ xs) = ground (arith, any-not-all p xs)

-- In any state of the usage, a hook passes the filters by groups exactly if no group is
-- included or one that it has is, it has every required group, and it has no excluded one.
pub matches_groups_lem :
    (f : GroupFilters) (usage : FilterUsage) (contains : GroupSelector → Bool)
    → (matches_groups f usage contains).1 ≡ (
        (is_empty f.include_any || any contains f.include_any)
        && (all contains f.require_all && not (any contains f.exclude_any)))
unfolding matches_groups
matches_groups_lem f usage contains = ground (
  arith,
  scan-hit contains contains 0 f.exclude_any usage.excludes false,
  scan-hit contains contains 0 f.include_any usage.includes (is_empty f.include_any),
  scan-hit contains (λ g. not (contains g)) 0 f.require_all usage.requirements false,
  any-not-all contains f.require_all,
)

-- The groups that the configuration gives a hook.
abbrev pub configured_groups : Option (List Bytes) → List Bytes
configured_groups none = []
configured_groups (some groups) = groups

contains-same :
    (hook : Hook) (groups : Option (List Bytes)) (g : GroupSelector)
    → hook.groups ≡ configured_groups groups
    → hook_contains hook g ≡ groups_contain groups g
contains-same hook none (named group) h = ap (λ l. has_text l group) h
contains-same hook none ungrouped h = ap is_empty h
contains-same hook (some groups) (named group) h = ap (λ l. has_text l group) h
contains-same hook (some groups) ungrouped h = ap is_empty h

pub matches_hook-configured :
    (f : GroupFilters) (usage : FilterUsage) (hook : Hook) (configured : ConfiguredHook)
    → hook.groups ≡ configured_groups configured.groups
    → matches_hook_groups f usage hook ≡ matches_configured_groups f usage configured
unfolding matches_hook_groups matches_configured_groups
matches_hook-configured f usage hook configured h =
    ap (matches_groups f usage) (fun_ext (λ g. contains-same hook configured.groups g h))
