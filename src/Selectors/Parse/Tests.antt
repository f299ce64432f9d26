-- ===== src/Selectors/Parse/Tests.antt =====
-- crates/prek/src/cli/run/selector.rs: the parse of selectors, at concrete values.
use prek.Prelude.{◌≡◌, refl, ◌↔◌, inr, some, List, [], ◌∷◌, ◌++◌, map, codes, eq_bytes}
use prek.Filter.{FilePath}
use prek.Paths.{Component, root_dir, normal}
use prek.Selectors.{cli_arg, SelectorExpr, project_hook}
use prek.Selectors.Parse.{
  real_absolute, normalize_path, parse_single_selector, parse_comma_separated, display,
}
use prek.Selectors.Parse.Inside.{normalize_path_iff}
use prek.Selectors.Parse.RoundTrip.{display-parse}

abbrev repo : FilePath
repo = codes "repo" ∷ []

abbrev in_web : List Component
in_web = normal (codes "repo") ∷ normal (codes "web") ∷ []

sibling_lem :
    real_absolute (root_dir ∷ in_web) (codes "../docs")
    ≡ some (root_dir ∷ map normal (repo ++ codes "docs" ∷ []))
unfolding real_absolute eq_bytes
sibling_lem = refl

normalize_path_iff_example :
    (normalize_path
        (real_absolute (root_dir ∷ in_web))
        (codes "../docs")
        (root_dir ∷ map normal repo)
      ≡ inr (codes "docs" ∷ []))
    ↔ (real_absolute (root_dir ∷ in_web) (codes "../docs")
        ≡ some (root_dir ∷ map normal (repo ++ codes "docs" ∷ [])))
normalize_path_iff_example =
    normalize_path_iff in_web (tt, (tt, tt)) repo (codes "../docs") (codes "docs" ∷ [])

commas_lem : parse_comma_separated (codes " a, ,b ,") ≡ codes "a" ∷ codes "b" ∷ []
unfolding parse_comma_separated
commas_lem = refl

abbrev web_ruff : SelectorExpr
web_ruff = project_hook (codes "web" ∷ codes "app" ∷ []) (codes "ruff")

display-parse_example :
    parse_single_selector
      (real_absolute (root_dir ∷ map normal repo))
      (display web_ruff)
      (root_dir ∷ map normal repo)
      cli_arg
    ≡ inr (record { source = cli_arg; original = display web_ruff; expr = web_ruff })
unfolding eq_bytes
display-parse_example = display-parse cli_arg repo web_ruff (refl, refl)
