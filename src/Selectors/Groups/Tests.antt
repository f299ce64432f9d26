-- ===== src/Selectors/Groups/Tests.antt =====
-- crates/prek/src/cli/run/selector.rs, `GroupFilters`, at concrete values.
use prek.Prelude.{
  ◌≡◌, refl, inl, inr, not, ◌&&◌, ◌||◌, none, some, List, [], ◌∷◌, Bytes, codes, eq_bytes, any, all,
}
use prek.Selectors.{Hook, ConfiguredHook, default_usage, is_empty}
use prek.Selectors.Groups.{
  named, ungrouped, cannot_contain_whitespace, uses_the_reserved_prefix, validate_group_name,
  parse_groups, GroupFilters, matches_groups, hook_contains,
}
use prek.Selectors.Groups.Matching.{matches_groups_lem}
use prek.Selectors.Groups.Names.{ParsesTo, parse_groups-ParsesTo}

abbrev fast : Hook
fast = record { project_path = []; id = codes "ruff"; alias = []; groups = codes "fast" ∷ [] }

abbrev configured_fast : ConfiguredHook
configured_fast = record {
  project_relative_path = [];
  id = codes "ruff";
  alias = none;
  groups = some (codes "fast" ∷ []);
}

abbrev filters : GroupFilters
filters = record {
  include_any = named (codes "slow") ∷ named (codes "fast") ∷ [];
  require_all = named (codes "fast") ∷ [];
  exclude_any = ungrouped ∷ [];
}

a_tab_is_refused : validate_group_name (codes "a b") ≡ some cannot_contain_whitespace
unfolding validate_group_name
a_tab_is_refused = refl

matches_groups_lem_example : (matches_groups filters default_usage (hook_contains fast)).1 ≡ (
    (is_empty filters.include_any || any (hook_contains fast) filters.include_any)
    && (all (hook_contains fast) filters.require_all
        && not (any (hook_contains fast) filters.exclude_any)))
matches_groups_lem_example = matches_groups_lem filters default_usage (hook_contains fast)

abbrev given : List Bytes
given = codes "fast" ∷ codes "@ungrouped" ∷ codes "fast" ∷ []

parse_groups-ParsesTo_example :
    ParsesTo (codes "--group") [] given (parse_groups (codes "--group") [] given)
parse_groups-ParsesTo_example = parse_groups-ParsesTo (codes "--group") [] given

fast_is_accepted :
    parse_groups (codes "--group") [] given ≡ inr (named (codes "fast") ∷ (ungrouped ∷ []))
unfolding parse_groups eq_bytes
fast_is_accepted = refl

a_prefix_is_refused :
    parse_groups (codes "--group") [] (codes "@fast" ∷ [])
    ≡ inl (codes "--group=@fast", uses_the_reserved_prefix)
unfolding parse_groups eq_bytes
a_prefix_is_refused = refl
