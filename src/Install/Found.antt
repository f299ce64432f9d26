-- ===== src/Install/Found.antt =====
-- The hooks that find an environment in the store or in their partition.
use mathlib.Core.List.{Perm, perm_middle}
use mathlib.Core.List.Perm
use prek.Prelude.{
  ◌≡◌, refl, sym, ap, subst, ◌⊎◌, inl, inr, Bool, true, false, ◌&&◌, Option, none, some, List, [],
  ◌∷◌, ◌++◌, map, arith, if◌then◌else◌, Bool-cases, Option-cases, All,
}
use prek.Install.{
  Hook, InstallInfo, InstalledHook, installed, no_need_install, hook_of, needs_install_env,
  is_satisfied_by, CachedInstallInfo, find_cached, cached_hook, partition_installed_hooks,
  find_reusable,
}
use prek.Install.Agree.{
  Satisfies, is_satisfied_by_sound, is_satisfied_by_complete, Needed, needs_install_env_iff,
}

-- A hook that needs no environment, or one with an environment that satisfies it and that has
-- this source.
abbrev pub IsProvided : (InstallInfo → Type 0) → InstalledHook → Type 0
IsProvided Source (installed hook info) = Needed hook × Satisfies hook info × Source info
IsProvided Source (no_need_install hook) = ¬ Needed hook

-- A healthy environment of the store.
abbrev pub FromStore : List CachedInstallInfo → InstallInfo → Type 0
FromStore [] info = ⊥
FromStore (env ∷ envs) info = ((env.health ≡ true) × (env.info ≡ info)) ⊎ FromStore envs info

-- No healthy environment of the store satisfies the hook.
abbrev NotStored : List CachedInstallInfo → Hook → Type 0
NotStored envs hook = All (λ env. env.health ≡ true → ¬ Satisfies hook env.info) envs

-- A hook that needs an environment and finds none in the store.
abbrev pub Lacks : List CachedInstallInfo → Hook → Type 0
Lacks envs hook = Needed hook × NotStored envs hook

chosen_info :
    (test : Bool) (info : InstallInfo) (rest : Option InstallInfo) {found : InstallInfo}
    → (if test then some info else rest) ≡ some found
    → ((test ≡ true) × (info ≡ found)) ⊎ (rest ≡ some found)
chosen_info true info rest e = inl (refl, ground (arith, e))
chosen_info false info rest e = inr e

passed_over :
    (test : Bool) (info : InstallInfo) (rest : Option InstallInfo)
    → (if test then some info else rest) ≡ none
    → (test ≡ false) × (rest ≡ none)
passed_over true info rest e = ground (arith, e)
passed_over false info rest e = (refl, e)

first_true : (a b : Bool) → a && b ≡ true → a ≡ true
first_true a b e = ground arith

second_true : (a b : Bool) → a && b ≡ true → b ≡ true
second_true a b e = ground arith

find_cached-some :
    (hook : Hook) (envs : List CachedInstallInfo) {info : InstallInfo}
    → find_cached hook envs ≡ some info
    → Satisfies hook info × FromStore envs info
unfolding find_cached
find_cached-some hook [] e = ground arith
find_cached-some hook (env ∷ envs) e =
    elim (chosen_info (is_satisfied_by hook env.info && env.health) env.info (find_cached hook envs)
      e) [
        | inl (holds, here) ↦ (
          subst (Satisfies hook) here (is_satisfied_by_sound hook env.info (first_true _ _ holds)),
          inl (second_true _ _ holds, here),
        )
        | inr later ↦
            let (satisfied, stored) = find_cached-some hook envs later in (satisfied, inr stored)
      ]

find_cached-none :
    (hook : Hook) (envs : List CachedInstallInfo)
    → find_cached hook envs ≡ none
    → NotStored envs hook
unfolding find_cached
find_cached-none hook [] e = tt
find_cached-none hook (env ∷ envs) e =
    let (fails, later) =
      passed_over (is_satisfied_by hook env.info && env.health) env.info (find_cached hook envs)
        e in
    (
      λ healthy satisfied.
          absurd (ground (arith, is_satisfied_by_complete hook env.info satisfied, healthy, fails)),
      find_cached-none hook envs later,
    )

module _ (Source : InstallInfo → Type 0) where
  pub find_reusable-some :
      (hook : Hook) (installed_hooks : List InstalledHook) {info : InstallInfo}
      → All (IsProvided Source) installed_hooks
      → find_reusable hook installed_hooks ≡ some info
      → Satisfies hook info × Source info
  unfolding find_reusable
  find_reusable-some hook [] p e = ground arith
  find_reusable-some hook (no_need_install other ∷ rest) (_, p) e = find_reusable-some hook rest p e
  find_reusable-some hook (installed other info ∷ rest) ((_, _, source), p) e =
      elim (chosen_info (is_satisfied_by hook info) info (find_reusable hook rest) e) [
        | inl (holds, here) ↦ (
          subst (Satisfies hook) here (is_satisfied_by_sound hook info holds),
          subst Source here source,
        )
        | inr later ↦ find_reusable-some hook rest p later
      ]

module _ (envs : List CachedInstallInfo) where
  -- What a search for a hook's environment in the store owes.
  abbrev Cached : Hook → Option InstalledHook → Type 0
  Cached hook none = Lacks envs hook
  Cached hook (some i) = IsProvided (FromStore envs) i × (hook_of i ≡ hook)

  cached_hook-Cached : (hook : Hook) → Cached hook (cached_hook envs hook)
  unfolding cached_hook
  cached_hook-Cached hook = elim (Bool-cases (needs_install_env hook)) [
    | inr unneeded ↦
        rw (cached_hook, unneeded)
          (λ n. absurd (ground (arith, (needs_install_env_iff hook).1 n, unneeded)), refl)
    | inl needed ↦ elim (Option-cases (find_cached hook envs)) [
      | inl missing ↦
          rw (cached_hook, needed, missing)
            ((needs_install_env_iff hook).0 needed, find_cached-none hook envs missing)
      | inr (info, found) ↦
          rw (cached_hook, needed, found)
            (
              let (satisfied, stored) = find_cached-some hook envs found in
                  ((needs_install_env_iff hook).0 needed, satisfied, stored),
              refl,
            )
    ]
  ]

  module _ (P : Hook → Type 0) where
    abbrev Split : List Hook → List InstalledHook × List Hook → Type 0
    Split hooks (found, missing) =
        All (IsProvided (FromStore envs)) found
        × All (λ h. P h × Lacks envs h) missing
        × Perm (map hook_of found ++ missing) hooks

    Split-cons :
        (hook : Hook) (hooks : List Hook) (o : Option InstalledHook) (found : List InstalledHook)
        (missing : List Hook)
        → P hook
        → Cached hook o
        → Split hooks (found, missing)
        → Split
            (hook ∷ hooks)
            (elim o [ none ↦ (found, hook ∷ missing) | some cached ↦ (cached ∷ found, missing) ])
    Split-cons hook hooks none found missing h lacks (p, n, perm) = (
      p,
      ((h, lacks), n),
      Perm.trans (perm_middle (map hook_of found) missing) (Perm.cons hook perm),
    )
    Split-cons hook hooks (some i) found missing h (is, same) (p, n, perm) = (
      (is, p),
      n,
      subst (λ h. Perm (h ∷ (map hook_of found ++ missing)) (hook ∷ hooks)) (sym same)
          (Perm.cons hook perm),
    )

    pub partition_installed_hooks-Split :
        (hooks : List Hook) → All P hooks → Split hooks (partition_installed_hooks envs hooks)
    unfolding partition_installed_hooks
    partition_installed_hooks-Split [] hs = (tt, tt, Perm.rfl)
    partition_installed_hooks-Split (hook ∷ hooks) (h, hs) =
        let rest = partition_installed_hooks envs hooks in
        Split-cons hook hooks (cached_hook envs hook) rest.0 rest.1 h (cached_hook-Cached hook)
          (partition_installed_hooks-Split hooks hs)

pub map_append :
    {A B : Type 0} (f : A → B) (xs ys : List A) → map f (xs ++ ys) ≡ map f xs ++ map f ys
map_append f [] ys = refl
map_append f (x ∷ xs) ys = ap (λ l. f x ∷ l) (map_append f xs ys)
