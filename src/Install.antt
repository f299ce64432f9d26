-- ===== src/Install.antt =====
-- crates/prek/src/cli/run/install.rs, with what hook.rs says of environments: hooks find an environment
-- in the store, or they are installed in partitions. The installation by a language is an argument, as is
-- what a hook's request for a version says of an environment. Partitions are installed one after the
-- other, which is one of the orders of the concurrent ones.
pub mod Agree
pub mod Partitions
pub mod Found
pub mod Provided
mod Tests
use prek.Prelude.{
  ℕ, zero, suc, ◌+◌, ◌-◌, ◌*◌, ◌/◌, ◌%◌, ◌^◌, ◌≤◌, ◌<◌, min, max, ◌≡◌, refl, sym, fun_ext, ap, ap₂,
  subst, ◌∙◌, ◌≢◌, ◌↔◌, ◌⊎◌, inl, inr, Bool, true, false, not, ◌&&◌, ◌||◌, Option, none, some, List,
  [], ◌∷◌, ◌++◌, map, append_assoc, append-nil, arith, ltb, leb, ◌==◌, if◌then◌else◌, ltb→lt,
  ltb→le, lt→ltb, leb→le, ==_iff, Bool-cases, Option-cases, Bytes, codes, length, get_elem?, take,
  drop, any, all, length-append, take-append-drop, length-take, length-drop, take-split,
  take-length, take-append, take-append_add, drop-append_add, take-take, drop-take, drop-length,
  drop-drop, eq_bytes, eq_bytes_iff, All, All-append, All-append_inv, All-drop, ◌>>=◌,
}

-- The languages that a partition tells apart.
pub data Language : Type 0 where
  python pygrep : Language
  other_language : ℕ → Language

unfoldable pub eq_language : Language → Language → Bool
eq_language python python = true
eq_language pygrep pygrep = true
eq_language (other_language a) (other_language b) = a == b
eq_language _ _ = false

pub record RepoIdentity : Type 0 where
  pub url : Bytes
  pub rev : Bytes

pub data Repo : Type 0 where
  remote : RepoIdentity → Repo
  local meta builtin : Repo

abbrev pub identity : Repo → Option RepoIdentity
identity (remote r) = some r
identity _ = none

unfoldable pub eq_identity : Option RepoIdentity → Option RepoIdentity → Bool
eq_identity none none = true
eq_identity (some a) (some b) = eq_bytes a.url b.url && eq_bytes a.rev b.rev
eq_identity _ _ = false

unfoldable pub eq_dependencies : List Bytes → List Bytes → Bool
eq_dependencies [] [] = true
eq_dependencies (a ∷ as_left) (b ∷ as_right) = eq_bytes a b && eq_dependencies as_left as_right
eq_dependencies _ _ = false

-- The marker of an environment; `toolchain` is what a request for a version reads.
pub record InstallInfo : Type 0 where
  pub current_schema : Bool
  pub language : Language
  pub repo : Option RepoIdentity
  pub dependencies : List Bytes
  pub toolchain : Bytes

pub record Hook : Type 0 where
  pub idx : ℕ
  pub repo : Repo
  pub language : Language
  pub supports_install_env : Bool
  pub additional_dependencies : List Bytes
  pub satisfied_by : InstallInfo → Bool

abbrev pub is_installable : Repo → Bool
is_installable (remote r) = true
is_installable local = true
is_installable meta = false
is_installable builtin = false

abbrev pub needs_install_env : Hook → Bool
needs_install_env hook = is_installable hook.repo && hook.supports_install_env

-- `environment_requirement` and `is_satisfied_by`
unfoldable pub is_satisfied_by : Hook → InstallInfo → Bool
is_satisfied_by hook info =
    info.current_schema
    && (eq_language info.language hook.language
        && (eq_identity info.repo (identity hook.repo)
            && (eq_dependencies info.dependencies hook.additional_dependencies
                && hook.satisfied_by info)))

pub data InstalledHook : Type 0 where
  installed : Hook → InstallInfo → InstalledHook
  no_need_install : Hook → InstalledHook

abbrev pub hook_of : InstalledHook → Hook
hook_of (installed hook info) = hook
hook_of (no_need_install hook) = hook

-- Both `pygrep` and Python may provision Python.
abbrev pub partition_language : Language → Language
partition_language pygrep = python
partition_language language = language

unfoldable pub same_install_partition : Hook → Hook → Bool
same_install_partition left right =
    eq_language (partition_language left.language) (partition_language right.language)
    && (eq_identity (identity left.repo) (identity right.repo)
        && eq_dependencies left.additional_dependencies right.additional_dependencies)

-- `same_install_partition(&partition[0], &hook)`; no partition is empty.
abbrev pub belongs : List Hook → Hook → Bool
belongs [] hook = false
belongs (first ∷ partition) hook = same_install_partition first hook

unfoldable pub add_hook : Hook → List (List Hook) → List (List Hook)
add_hook hook [] = (hook ∷ []) ∷ []
add_hook hook (partition ∷ partitions) =
    let rest = add_hook hook partitions in
    if belongs partition hook then (partition ++ (hook ∷ [])) ∷ partitions else partition ∷ rest

unfoldable pub add_hooks : List Hook → List (List Hook) → List (List Hook)
add_hooks [] partitions = partitions
add_hooks (hook ∷ hooks) partitions = add_hooks hooks (add_hook hook partitions)

abbrev pub partition_hooks : List Hook → List (List Hook)
partition_hooks hooks = add_hooks hooks []

-- An environment of the store, and whether it is healthy.
pub record CachedInstallInfo : Type 0 where
  pub info : InstallInfo
  pub health : Bool

unfoldable pub find_cached : Hook → List CachedInstallInfo → Option InstallInfo
find_cached hook [] = none
find_cached hook (env ∷ envs) =
    let rest = find_cached hook envs in
    if is_satisfied_by hook env.info && env.health then some env.info else rest

-- `installed_hook`, or no need of one
unfoldable pub cached_hook : List CachedInstallInfo → Hook → Option InstalledHook
cached_hook envs hook =
    if needs_install_env hook
    then elim (find_cached hook envs) [ none ↦ none | some info ↦ some (installed hook info) ]
    else some (no_need_install hook)

unfoldable pub partition_installed_hooks :
    List CachedInstallInfo → List Hook → List InstalledHook × List Hook
partition_installed_hooks envs [] = ([], [])
partition_installed_hooks envs (hook ∷ hooks) =
    let (found, missing) = partition_installed_hooks envs hooks in
    elim (cached_hook envs hook) [
      | none ↦ (found, hook ∷ missing)
      | some cached ↦ (cached ∷ found, missing)
    ]

-- The first environment of the partition that satisfies the hook.
unfoldable pub find_reusable : Hook → List InstalledHook → Option InstallInfo
find_reusable hook [] = none
find_reusable hook (no_need_install other ∷ installed_hooks) = find_reusable hook installed_hooks
find_reusable hook (installed other info ∷ installed_hooks) =
    let rest = find_reusable hook installed_hooks in
    if is_satisfied_by hook info then some info else rest

module _ {W : Type 0} (install : W → Hook → Option (W × InstalledHook)) where
  -- The installation of one hook; a hook of no repository is an error.
  unfoldable pub install_one : W → Hook → Option (W × InstalledHook)
  install_one w hook = if is_installable hook.repo then install w hook else none

  unfoldable pub install_hook : W → List InstalledHook → Hook → Option (W × InstalledHook)
  install_hook w installed_hooks hook =
      elim (if needs_install_env hook then find_reusable hook installed_hooks else none) [
        | some info ↦ some (w, installed hook info)
        | none ↦ install_one w hook
      ]

  unfoldable pub install_partition :
      W → List Hook → List InstalledHook → Option (W × List InstalledHook)
  install_partition w [] installed_hooks = some (w, installed_hooks)
  install_partition w (hook ∷ hooks) installed_hooks = do
    (w', installed_hook) ← install_hook w installed_hooks hook
    install_partition w' hooks (installed_hooks ++ (installed_hook ∷ []))

  unfoldable pub install_partitions :
      W → List (List Hook) → List InstalledHook → Option (W × List InstalledHook)
  install_partitions w [] installed_hooks = some (w, installed_hooks)
  install_partitions w (partition ∷ partitions) installed_hooks = do
    (w', more) ← install_partition w partition []
    install_partitions w' partitions (installed_hooks ++ more)

  unfoldable pub install_hooks :
      W → List CachedInstallInfo → List Hook → Option (W × List InstalledHook)
  install_hooks w envs hooks =
      let (installed_hooks, hooks_to_install) = partition_installed_hooks envs hooks in
      install_partitions w (partition_hooks hooks_to_install) installed_hooks
