-- ===== src/Install/Tests.antt =====
-- crates/prek/src/cli/run/install.rs, at concrete hooks.
use mathlib.Core.List.{flatten, Perm}
use prek.Prelude.{
  ℕ, suc, ◌≡◌, refl, sym, ap, subst, inl, inr, Bool, true, false, Option, none, some, List, [], ◌∷◌,
  arith, Bool-cases, codes, eq_bytes,
}
use prek.Install.{
  python, pygrep, Repo, remote, local, meta, builtin, Hook, InstallInfo, InstalledHook,
  CachedInstallInfo, installed, no_need_install, identity, eq_language, eq_identity,
  eq_dependencies, partition_hooks, add_hooks, add_hook, same_install_partition, install_hooks,
}
use prek.Install.Partitions.{ArePartitions, partition_hooks-ArePartitions}
use prek.Install.Agree.{IsOf, Needed, Satisfies}
use prek.Install.Provided.{InstallsAll, install_hooks-InstallsAll}

abbrev formatter : Hook
formatter = record {
  idx = 0;
  repo = local;
  language = python;
  supports_install_env = true;
  additional_dependencies = codes "black" ∷ [];
  satisfied_by = λ info. true;
}

abbrev search : Hook
search = record formatter { idx = 1; language = pygrep }

abbrev linter : Hook
linter = record formatter { idx = 2; additional_dependencies = codes "ruff" ∷ [] }

abbrev hooks : List Hook
hooks = formatter ∷ (linter ∷ (search ∷ []))

in_two_partitions : partition_hooks hooks ≡ (formatter ∷ (search ∷ [])) ∷ ((linter ∷ []) ∷ [])
unfolding add_hooks add_hook same_install_partition eq_language eq_identity eq_dependencies eq_bytes
in_two_partitions = refl

partition_hooks-ArePartitions_example :
    ArePartitions (partition_hooks hooks) × Perm (flatten (partition_hooks hooks)) hooks
partition_hooks-ArePartitions_example = partition_hooks-ArePartitions hooks

abbrev info_of : Hook → InstallInfo
info_of hook = record {
  current_schema = true;
  language = hook.language;
  repo = identity hook.repo;
  dependencies = hook.additional_dependencies;
  toolchain = codes "3.12";
}

-- An installation counts itself, unless the hook's request does not accept the tool chain.
abbrev or_refused : Hook → ℕ → Bool → Option (ℕ × InstalledHook)
or_refused hook n true = some (suc n, installed hook (info_of hook))
or_refused hook n false = none

abbrev install : ℕ → Hook → Option (ℕ × InstalledHook)
install n hook = or_refused hook n (hook.satisfied_by (info_of hook))

made : Hook → Option (ℕ × InstalledHook) → InstalledHook
made hook none = no_need_install hook
made hook (some (n, i)) = i

made_same :
    (hook : Hook) {n m : ℕ} {i j : InstalledHook}
    → ◌≡◌ {A = Option (ℕ × InstalledHook)} (some (n, i)) (some (m, j))
    → i ≡ j
unfolding made
made_same hook e = ap (made hook) e

identity-IsOf_self : (r : Repo) → IsOf r (identity r)
identity-IsOf_self (remote r) = refl
identity-IsOf_self local = refl
identity-IsOf_self meta = refl
identity-IsOf_self builtin = refl

install_makes :
    (n : ℕ) (hook : Hook) (m : ℕ) (i : InstalledHook)
    → Needed hook
    → install n hook ≡ some (m, i)
    → (info : InstallInfo) × (i ≡ installed hook info) × Satisfies hook info
install_makes n hook m i needed e = elim (Bool-cases (hook.satisfied_by (info_of hook))) [
  | inl accepted ↦
      let done =
        subst (λ b. ◌≡◌ {A = Option (ℕ × InstalledHook)} (or_refused hook n b) (some (m, i)))
          accepted e in
      (
        info_of hook,
        sym (made_same hook done),
        (refl, refl, identity-IsOf_self hook.repo, refl, accepted),
      )
  | inr refused ↦
      let failed =
        subst (λ b. ◌≡◌ {A = Option (ℕ × InstalledHook)} (or_refused hook n b) (some (m, i)))
          refused e in
      absurd (ground (arith, failed))
]

-- A store with a broken environment for the formatter and a healthy one for the linter.
abbrev envs : List CachedInstallInfo
envs =
    record { info = info_of formatter; health = false }
    ∷ (record { info = info_of linter; health = true } ∷ [])

install_hooks-InstallsAll_example :
    InstallsAll install install_makes 0 envs hooks (install_hooks install 0 envs hooks)
install_hooks-InstallsAll_example = install_hooks-InstallsAll install install_makes 0 envs hooks
