-- ===== src/Selectors/Tests.antt =====
-- crates/prek/src/cli/run/selector.rs: hooks against selectors, at concrete values.
use prek.Prelude.{◌≡◌, refl, inl, true, false, none, some, [], ◌∷◌, codes, eq_bytes}
use prek.Filter.{FilePath, strip_prefix}
use prek.Selectors.{
  cli_arg, cli_flag, SelectorExpr, by_hook_id, project_prefix, project_hook, Selector, Hook,
  ConfiguredHook, default_usage, unused, Selectors, selected, not_selected, select_hook,
  matches_hook, matches_path, excludes_configured_hook,
}
use prek.Selectors.Usage.{select_all, unmatched, select_all-unmatched}
use prek.Selectors.Prefilter.{matches_path-select_hook, excludes_configured-select_hook}

abbrev web : FilePath
web = codes "web" ∷ []

abbrev ruff : Hook
ruff = record {
  project_path = web;
  id = codes "ruff";
  alias = codes "lint";
  groups = codes "fast" ∷ [];
}

abbrev configured_ruff : ConfiguredHook
configured_ruff = record {
  project_relative_path = web;
  id = codes "ruff";
  alias = none;
  groups = some (codes "fast" ∷ []);
}

abbrev mypy : Hook
mypy = record { project_path = []; id = codes "mypy"; alias = []; groups = [] }

abbrev include : SelectorExpr → Selector
include e = record { source = cli_arg; original = codes "x"; expr = e }

abbrev skip : SelectorExpr → Selector
skip e = record { source = cli_flag (codes "--skip"); original = codes "x"; expr = e }

abbrev some_selectors : Selectors
some_selectors = record {
  includes = include (project_prefix web) ∷ include (by_hook_id (codes "black")) ∷ [];
  skips = skip (project_hook web (codes "tests")) ∷ skip (by_hook_id (codes "mypy")) ∷ [];
}

ruff_is_selected : (select_hook some_selectors default_usage ruff).1 ≡ selected
unfolding select_hook matches_hook strip_prefix eq_bytes
ruff_is_selected = refl

mypy_is_not_selected : (select_hook some_selectors default_usage mypy).1 ≡ not_selected
unfolding select_hook matches_hook strip_prefix eq_bytes
mypy_is_not_selected = refl

root_is_prefiltered : (matches_path some_selectors default_usage []).1 ≡ true
unfolding matches_path strip_prefix eq_bytes
root_is_prefiltered = refl

select_all-unmatched_example :
    (unused 0
        (select_all some_selectors default_usage (ruff ∷ mypy ∷ [])).includes
        some_selectors.includes
      ≡ unmatched (λ h x. matches_hook x h) (ruff ∷ mypy ∷ []) 0 some_selectors.includes)
    × (unused 0
          (select_all some_selectors default_usage (ruff ∷ mypy ∷ [])).excludes
          some_selectors.skips
        ≡ unmatched (λ h x. matches_hook x h) (ruff ∷ mypy ∷ []) 0 some_selectors.skips)
select_all-unmatched_example = select_all-unmatched some_selectors (ruff ∷ mypy ∷ [])

matches_path-select_hook_example : (matches_path some_selectors default_usage web).1 ≡ true
unfolding select_hook matches_hook strip_prefix eq_bytes
matches_path-select_hook_example =
    matches_path-select_hook some_selectors default_usage default_usage ruff refl

excludes_configured-select_hook_example :
    (excludes_configured_hook some_selectors default_usage configured_ruff).1 ≡ false
unfolding select_hook matches_hook strip_prefix eq_bytes
excludes_configured-select_hook_example =
    excludes_configured-select_hook some_selectors default_usage default_usage configured_ruff ruff
      (refl, refl, inl refl) refl
