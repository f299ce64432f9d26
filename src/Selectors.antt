-- ===== src/Selectors.antt =====
-- crates/prek/src/cli/run/selector.rs: which hooks the command line and the environment select, and which selectors
-- were used. A text is its code points. The usage behind the mutex is passed from call to call.
pub mod Usage
pub mod Prefilter
pub mod Groups
pub mod Parse
pub mod Report
mod Tests
use prek.Prelude.{
  ℕ, zero, suc, ◌+◌, ◌-◌, ◌*◌, ◌/◌, ◌%◌, ◌^◌, ◌≤◌, ◌<◌, min, max, ◌≡◌, refl, sym, fun_ext, ap, ap₂,
  subst, ◌∙◌, ◌≢◌, ◌↔◌, ◌⊎◌, inl, inr, Bool, true, false, not, ◌&&◌, ◌||◌, Option, none, some, List,
  [], ◌∷◌, ◌++◌, map, append_assoc, append-nil, arith, ltb, leb, ◌==◌, if◌then◌else◌, ltb→lt,
  ltb→le, lt→ltb, leb→le, ==_iff, Bool-cases, Option-cases, Bytes, codes, length, get_elem?, take,
  drop, any, all, length-append, take-append-drop, length-take, length-drop, take-split,
  take-length, take-append, take-append_add, drop-append_add, take-take, drop-take, drop-length,
  drop-drop, eq_bytes, eq_bytes_iff, All, All-append, All-append_inv, All-drop,
}
use prek.Filter.{FilePath, eq_path, starts_with}

pub data SelectorSource : Type 0 where
  cli_arg : SelectorSource
  cli_flag env_var : Bytes → SelectorSource

pub data SelectorExpr : Type 0 where
  by_hook_id : Bytes → SelectorExpr
  project_prefix : FilePath → SelectorExpr
  project_hook : FilePath → Bytes → SelectorExpr

pub record Selector : Type 0 where
  pub source : SelectorSource
  pub original : Bytes
  pub expr : SelectorExpr

-- The fields of a hook that the selectors read.
pub record Hook : Type 0 where
  pub project_path : FilePath
  pub id : Bytes
  pub alias : Bytes
  pub groups : List Bytes

pub record ConfiguredHook : Type 0 where
  pub project_relative_path : FilePath
  pub id : Bytes
  pub alias : Option Bytes
  pub groups : Option (List Bytes)

abbrev pub expr_matches : SelectorExpr → Hook → Bool
expr_matches (by_hook_id hook_id) hook = eq_bytes hook.id hook_id || eq_bytes hook.alias hook_id
expr_matches (project_prefix project_path) hook = starts_with hook.project_path project_path
expr_matches (project_hook project_path hook_id) hook =
    (eq_bytes hook.id hook_id || eq_bytes hook.alias hook_id)
    && eq_path project_path hook.project_path

pub matches_hook : Selector → Hook → Bool
matches_hook selector hook = expr_matches selector.expr hook

abbrev is_alias : Option Bytes → Bytes → Bool
is_alias none selector = false
is_alias (some alias) selector = eq_bytes alias selector

abbrev matches_hook_id : ConfiguredHook → Bytes → Bool
matches_hook_id hook selector = eq_bytes hook.id selector || is_alias hook.alias selector

abbrev expr_matches_configured : SelectorExpr → ConfiguredHook → Bool
expr_matches_configured (by_hook_id selector) hook = matches_hook_id hook selector
expr_matches_configured (project_prefix project_path) hook =
    starts_with hook.project_relative_path project_path
expr_matches_configured (project_hook project_path selector) hook =
    eq_path project_path hook.project_relative_path && matches_hook_id hook selector

pub matches_configured_hook : Selector → ConfiguredHook → Bool
matches_configured_hook selector hook = expr_matches_configured selector.expr hook

-- The sets of used indices.
pub record FilterUsage : Type 0 where
  pub includes : List ℕ
  pub requirements : List ℕ
  pub excludes : List ℕ

abbrev pub default_usage : FilterUsage
default_usage = record { includes = []; requirements = []; excludes = [] }

abbrev pub has_index : ℕ → List ℕ → Bool
has_index n used = any (λ m. m == n) used

abbrev pub use_index : ℕ → List ℕ → List ℕ
use_index n used = if has_index n used then used else n ∷ used

-- The loops over all selectors: `uses` says whether one is marked as used, `counts` whether it
-- counts as a match.
pub scan {ℓ} : {A : Type ℓ} → (A → Bool) → (A → Bool) → ℕ → List A → List ℕ → Bool → List ℕ × Bool
scan uses counts idx [] used hit = (used, hit)
scan uses counts idx (x ∷ xs) used hit =
    scan uses counts (idx + 1) xs (if uses x then use_index idx used else used) (hit || counts x)

-- `unused_includes` and the like, for one of the sets.
pub unused {ℓ} : {A : Type ℓ} → ℕ → List ℕ → List A → List (ℕ × A)
unused idx used [] = []
unused idx used (x ∷ xs) =
    let rest = unused (idx + 1) used xs in if has_index idx used then rest else (idx, x) ∷ rest

pub record Selectors : Type 0 where
  pub includes : List Selector
  pub skips : List Selector

pub data HookSelection : Type 0 where
  selected skipped not_selected : HookSelection

abbrev pub is_empty {ℓ} : {A : Type ℓ} → List A → Bool
is_empty [] = true
is_empty (x ∷ xs) = false

abbrev selection : Bool → Bool → HookSelection
selection included was_skipped =
    if not included then not_selected else if was_skipped then skipped else selected

unfoldable pub select_hook : Selectors → FilterUsage → Hook → FilterUsage × HookSelection
unfolding scan matches_hook
select_hook s usage hook =
    let matches = λ (x : Selector). matches_hook x hook in
    let (excludes, was_skipped) = scan matches matches 0 s.skips usage.excludes false in
    let (includes, included) =
      scan matches matches 0 s.includes usage.includes (is_empty s.includes) in
    (record usage { excludes = excludes; includes = includes }, selection included was_skipped)

abbrev is_selected : HookSelection → Bool
is_selected selected = true
is_selected skipped = false
is_selected not_selected = false

-- `Selectors::matches_hook`
pub selects_hook : Selectors → FilterUsage → Hook → FilterUsage × Bool
unfolding select_hook
selects_hook s usage hook =
    let (used, selection) = select_hook s usage hook in (used, is_selected selection)

pub excludes_configured_hook : Selectors → FilterUsage → ConfiguredHook → FilterUsage × Bool
unfolding scan matches_configured_hook
excludes_configured_hook s usage hook =
    let matches = λ (x : Selector). matches_configured_hook x hook in
    let (excludes, was_skipped) = scan matches matches 0 s.skips usage.excludes false in
    (record usage { excludes = excludes }, was_skipped)

abbrev expr_is_id : Bytes → SelectorExpr → Bool
expr_is_id hook_id (by_hook_id id) = eq_bytes id hook_id
expr_is_id hook_id (project_prefix path) = false
expr_is_id hook_id (project_hook path id) = false

pub matches_id : Selectors → FilterUsage → Bytes → FilterUsage × Bool
unfolding scan
matches_id s usage hook_id =
    let is_id = λ (x : Selector). expr_is_id hook_id x.expr in
    let (excludes, was_skipped) = scan is_id is_id 0 s.skips usage.excludes false in
    let after_skips = record usage { excludes = excludes } in
    let (includes, included) = scan is_id is_id 0 s.includes usage.includes false in
    if was_skipped
    then (after_skips, false)
    else if is_empty s.includes
    then (after_skips, true)
    else (record after_skips { includes = includes }, included)

-- A prefix of the path, which marks the selector as used.
abbrev pub expr_is_prefix : FilePath → SelectorExpr → Bool
expr_is_prefix path (project_prefix project_path) = starts_with path project_path
expr_is_prefix path (by_hook_id id) = false
expr_is_prefix path (project_hook project_path id) = false

-- An include that keeps the project.
abbrev pub expr_keeps : FilePath → SelectorExpr → Bool
expr_keeps path (by_hook_id id) = true
expr_keeps path (project_prefix project_path) = starts_with path project_path
expr_keeps path (project_hook project_path id) = eq_path path project_path

unfoldable pub matches_path : Selectors → FilterUsage → FilePath → FilterUsage × Bool
unfolding scan
matches_path s usage path =
    let is_prefix = λ (x : Selector). expr_is_prefix path x.expr in
    let keeps = λ (x : Selector). expr_keeps path x.expr in
    let (excludes, was_skipped) = scan is_prefix is_prefix 0 s.skips usage.excludes false in
    let after_skips = record usage { excludes = excludes } in
    let (includes, included) = scan is_prefix keeps 0 s.includes usage.includes false in
    if was_skipped
    then (after_skips, false)
    else if is_empty s.includes
    then (after_skips, true)
    else (record after_skips { includes = includes }, included)
