-- ===== src/Selectors/Prefilter.antt =====
-- crates/prek/src/cli/run/selector.rs: the selection of a hook against the prefilters of projects and configured hooks.
use prek.Prelude.{
  ◌≡◌, refl, sym, ap, ap₂, ◌∙◌, ◌⊎◌, Bool, true, false, not, ◌&&◌, ◌||◌, none, some, List, [], ◌∷◌,
  arith, if◌then◌else◌, any,
}
use prek.Filter.{FilePath, starts_with}
use prek.Filter.Tree.Lookup.{eq_path_iff}
use prek.Selectors.{
  SelectorExpr, by_hook_id, project_prefix, project_hook, Selector, Hook, ConfiguredHook,
  FilterUsage, Selectors, selected, skipped, not_selected, select_hook, matches_path, matches_hook,
  expr_matches, expr_is_prefix, expr_keeps, is_empty, selection, excludes_configured_hook,
  matches_configured_hook, expr_matches_configured,
}
use prek.Selectors.Usage.{scan-hit}

abbrev by_hook : Hook → Selector → Bool
by_hook hook selector = matches_hook selector hook

-- The selection by the selectors alone, in any state of the usage.
pub select_hook_lem :
    (s : Selectors) (usage : FilterUsage) (hook : Hook)
    → (select_hook s usage hook).1 ≡ (
        if not (is_empty s.includes || any (λ x. matches_hook x hook) s.includes)
        then not_selected
        else if any (λ x. matches_hook x hook) s.skips
        then skipped
        else selected)
unfolding select_hook
select_hook_lem s usage hook =
    ap₂ selection
      (scan-hit (by_hook hook) (by_hook hook) 0 s.includes usage.includes (is_empty s.includes))
      (scan-hit (by_hook hook) (by_hook hook) 0 s.skips usage.excludes false)

matches_path_lem :
    (s : Selectors) (usage : FilterUsage) (path : FilePath)
    → (matches_path s usage path).1 ≡ (
        not (any (λ x. expr_is_prefix path x.expr) s.skips)
        && (is_empty s.includes || any (λ x. expr_keeps path x.expr) s.includes))
unfolding matches_path
matches_path_lem s usage path =
    let p = λ (x : Selector). expr_is_prefix path x.expr in
    let k = λ (x : Selector). expr_keeps path x.expr in
    ground (
      arith,
      scan-hit p p 0 s.skips usage.excludes false,
      scan-hit p k 0 s.includes usage.includes false,
    )

expr_is_prefix-matches :
    (e : SelectorExpr) (hook : Hook)
    → expr_is_prefix hook.project_path e ≡ true
    → expr_matches e hook ≡ true
expr_is_prefix-matches (by_hook_id id) hook h = ground arith
expr_is_prefix-matches (project_prefix p) hook h = h
expr_is_prefix-matches (project_hook p id) hook h = ground arith

expr_keeps-matches :
    (e : SelectorExpr) (hook : Hook)
    → expr_matches e hook ≡ true
    → expr_keeps hook.project_path e ≡ true
expr_keeps-matches (by_hook_id id) hook h = refl
expr_keeps-matches (project_prefix p) hook h = h
expr_keeps-matches (project_hook p id) hook h =
    ground (arith, eq_path_iff p hook.project_path, eq_path_iff hook.project_path p)

any_mono {ℓ} :
    {A : Type ℓ} (p q : A → Bool) (xs : List A)
    → ((x : A) → p x ≡ true → q x ≡ true)
    → any p xs ≡ true
    → any q xs ≡ true
any_mono p q [] f h = h
any_mono p q (x ∷ xs) f h = ground (arith, f x, any_mono p q xs f)

-- In any states of the usage, the path of a project that has a selected hook passes the check
-- of paths which comes before.
pub matches_path-select_hook :
    (s : Selectors) (usage usage' : FilterUsage) (hook : Hook)
    → (select_hook s usage hook).1 ≡ selected
    → (matches_path s usage' hook.project_path).1 ≡ true
matches_path-select_hook s usage usage' hook h =
    let path = hook.project_path in
    let skips =
      any_mono (λ x. expr_is_prefix path x.expr) (λ x. matches_hook x hook) s.skips
        (λ x. unfold matches_hook in expr_is_prefix-matches x.expr hook) in
    let keeps =
      any_mono (λ x. matches_hook x hook) (λ x. expr_keeps path x.expr) s.includes
        (λ x. unfold matches_hook in expr_keeps-matches x.expr hook) in
    ground (arith, select_hook_lem s usage hook, matches_path_lem s usage' path, skips, keeps)

-- A hook that is built from a configured one: an alias that is not given is some other text.
abbrev pub IsBuilt : ConfiguredHook → Hook → Type 0
IsBuilt configured hook =
    (configured.id ≡ hook.id)
    × (configured.project_relative_path ≡ hook.project_path)
    × ((configured.alias ≡ none) ⊎ (configured.alias ≡ some hook.alias))

configured-matches :
    (e : SelectorExpr) (configured : ConfiguredHook) (hook : Hook)
    → IsBuilt configured hook
    → expr_matches_configured e configured ≡ true
    → expr_matches e hook ≡ true
configured-matches (by_hook_id id) configured hook (ids, paths, aliases) h = ground (arith)
configured-matches (project_prefix p) configured hook (ids, paths, aliases) h =
    ap (λ q. starts_with q p) (sym paths) ∙ h
configured-matches (project_hook p id) configured hook (ids, paths, aliases) h = ground (arith)

excludes_configured_hook_lem :
    (s : Selectors) (usage : FilterUsage) (hook : ConfiguredHook)
    → (excludes_configured_hook s usage hook).1 ≡ any (λ x. matches_configured_hook x hook) s.skips
unfolding excludes_configured_hook
excludes_configured_hook_lem s usage hook =
    let p = λ (x : Selector). matches_configured_hook x hook in
    scan-hit p p 0 s.skips usage.excludes false

-- In any states of the usage, the configured hook that a selected hook is built from, with the
-- same id, path and alias or with no alias, is not ruled out by the skips before.
pub excludes_configured-select_hook :
    (s : Selectors) (usage usage' : FilterUsage) (configured : ConfiguredHook) (hook : Hook)
    → IsBuilt configured hook
    → (select_hook s usage hook).1 ≡ selected
    → (excludes_configured_hook s usage' configured).1 ≡ false
excludes_configured-select_hook s usage usage' configured hook built h =
    let skips =
      any_mono (λ x. matches_configured_hook x configured) (λ x. matches_hook x hook) s.skips
        (λ x.
          unfold matches_hook matches_configured_hook in
          configured-matches x.expr configured hook built) in
    ground
      (arith, select_hook_lem s usage hook, excludes_configured_hook_lem s usage' configured, skips)
