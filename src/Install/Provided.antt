-- ===== src/Install/Provided.antt =====
-- Every hook is given an environment.
use mathlib.Core.List.{flatten, Perm}
use mathlib.Core.List.Perm
use prek.Prelude.{
  ◌≡◌, refl, sym, ap, subst, ◌∙◌, ◌⊎◌, inl, inr, Option, none, some, List, [], ◌∷◌, ◌++◌, map,
  append_assoc, append-nil, Option-cases, All, All-append, All-append_inv,
}
use prek.Prelude.{All-map}
use prek.Install.{
  Hook, InstallInfo, InstalledHook, installed, no_need_install, hook_of, CachedInstallInfo,
  partition_installed_hooks, partition_hooks, find_reusable, install_one, install_hook,
  install_partition, install_partitions, install_hooks,
}
use prek.Install.Agree.{Satisfies, is_installable-true, Needed, needs_install_env_iff}
use prek.Install.Partitions.{partition_hooks-ArePartitions, partition_hooks-All}
use prek.Install.Found.{
  IsProvided, FromStore, Lacks, find_reusable-some, partition_installed_hooks-Split, map_append,
}

abbrev pub IsIn : Hook → List Hook → Type 0
IsIn hook [] = ⊥
IsIn hook (h ∷ hooks) = (hook ≡ h) ⊎ IsIn hook hooks

All-IsIn : (hooks : List Hook) → All (λ h. IsIn h hooks) hooks
All-IsIn [] = tt
All-IsIn (h ∷ hooks) = (inl refl, All-map (λ x m. inr m) hooks (All-IsIn hooks))

-- The states that the installations of such hooks, one after the other, lead to.
pub data Reached {W : Type 0} (Missing : Hook → Type 0)
    (install : W → Hook → Option (W × InstalledHook)) (begin : W) : W → Type 0 where
  here : Reached Missing install begin begin
  later :
      {w w' : W} {hook : Hook} {i : InstalledHook}
      → Reached Missing install begin w
      → Missing hook
      → install w hook ≡ some (w', i)
      → Reached Missing install begin w'

module _ {W : Type 0} (install : W → Hook → Option (W × InstalledHook))
    (makes : (w : W) (hook : Hook) (w' : W) (i : InstalledHook)
      → Needed hook
      → install w hook ≡ some (w', i)
      → (info : InstallInfo) × (i ≡ installed hook info) × Satisfies hook info)
    (begin : W) (envs : List CachedInstallInfo) (hooks : List Hook) where
  -- A hook of the run that needs an environment and finds none in the store.
  abbrev pub Missing : Hook → Type 0
  Missing hook = IsIn hook hooks × Lacks envs hook

  abbrev At : W → Type 0
  At w = Reached Missing install begin w

  -- A healthy environment of the store, or one that an installation of the run has made.
  abbrev pub Source : InstallInfo → Type 0
  Source info =
      FromStore envs info
      ⊎ ((w : W) × (hook : Hook) × (w' : W) × At w
          × Missing hook
          × (install w hook ≡ some (w', installed hook info)))

  -- An installation of the run that ends in an error.
  abbrev pub Fails : Type 0
  Fails = (w : W) × (hook : Hook) × At w × Missing hook × (install w hook ≡ none)

  abbrev IsDone : InstalledHook → Type 0
  IsDone i = IsProvided Source i

  abbrev OneDone : Hook → Option (W × InstalledHook) → Type 0
  OneDone hook none = Fails
  OneDone hook (some (w', i)) = At w' × IsDone i × (hook_of i ≡ hook)

  install-OneDone :
      (w : W) (hook : Hook) (o : Option (W × InstalledHook))
      → At w
      → Missing hook
      → install w hook ≡ o
      → OneDone hook o
  install-OneDone w hook none at m e = (w, hook, at, m, e)
  install-OneDone w hook (some (w', i)) at m e =
      let (info, made, satisfied) = makes w hook w' i m.1.0 e in
      let done : install w hook ≡ some (w', installed hook info) =
        subst (λ i. install w hook ≡ some (w', i)) made e in
      let provided : IsDone (installed hook info) =
        (m.1.0, satisfied, inr (w, hook, w', at, m, done)) in
      (later at m e, subst IsDone (sym made) provided, ap hook_of made)

  install_hook-OneDone :
      (w : W) (before : List InstalledHook) (hook : Hook)
      → At w
      → Missing hook
      → All IsDone before
      → OneDone hook (install_hook install w before hook)
  unfolding install_hook install_one
  install_hook-OneDone w before hook at m p =
      let needed = (needs_install_env_iff hook).1 m.1.0 in
      elim (Option-cases (find_reusable hook before)) [
        | inl missing ↦
            rw (install_hook, needed, missing, install_one, is_installable-true hook m.1.0)
              (install-OneDone w hook (install w hook) at m refl)
        | inr (info, found) ↦
            let (satisfied, source) = find_reusable-some Source hook before p found in
            rw (install_hook, needed, found) (at, (m.1.0, satisfied, source), refl)
      ]

  abbrev AllDone : List Hook → List InstalledHook → Option (W × List InstalledHook) → Type 0
  AllDone hs before none = Fails
  AllDone hs before (some (w', after)) =
      At w' × All IsDone after × (map hook_of after ≡ map hook_of before ++ hs)

  AllDone-shift :
      (hook : Hook) (hs : List Hook) (before : List InstalledHook) (i : InstalledHook)
      (o : Option (W × List InstalledHook))
      → hook_of i ≡ hook
      → AllDone hs (before ++ (i ∷ [])) o
      → AllDone (hook ∷ hs) before o
  AllDone-shift hook hs before i none same h = h
  AllDone-shift hook hs before i (some (w', after)) same (at, p, e) = (
    at,
    p,
    e
        ∙ ap (λ l. l ++ hs) (map_append hook_of before (i ∷ []))
        ∙ append_assoc (map hook_of before) (hook_of i ∷ []) hs
        ∙ ap (λ h. map hook_of before ++ (h ∷ hs)) same,
  )

  AllDone-append :
      (p rest : List Hook) (before more : List InstalledHook) (o : Option (W × List InstalledHook))
      → map hook_of more ≡ p
      → AllDone rest (before ++ more) o
      → AllDone (p ++ rest) before o
  AllDone-append p rest before more none same h = h
  AllDone-append p rest before more (some (w', after)) same (at, q, e) = (
    at,
    q,
    e
        ∙ ap (λ l. l ++ rest) (map_append hook_of before more)
        ∙ append_assoc (map hook_of before) (map hook_of more) rest
        ∙ ap (λ l. map hook_of before ++ (l ++ rest)) same,
  )

  install_none :
      (w : W) (before : List InstalledHook)
      → At w
      → All IsDone before
      → AllDone [] before (install_partitions install w [] before)
  unfolding install_partitions
  install_none w before at p = (at, p, sym (append-nil (map hook_of before)))

  partition_step :
      (w : W) (hook : Hook) (hs : List Hook) (before : List InstalledHook)
      (o : Option (W × InstalledHook))
      → install_hook install w before hook ≡ o
      → OneDone hook o
      → ((w' : W) (i : InstalledHook)
          → At w'
          → IsDone i
          → AllDone hs (before ++ (i ∷ [])) (install_partition install w' hs (before ++ (i ∷ []))))
      → AllDone (hook ∷ hs) before (install_partition install w (hook ∷ hs) before)
  unfolding install_partition
  partition_step w hook hs before none e fails k = rw (install_partition, e) fails
  partition_step w hook hs before (some (w', i)) e (at, is, same) k =
      rw (install_partition, e) (AllDone-shift hook hs before i _ same (k w' i at is))

  install_partition-AllDone :
      (w : W) (hs : List Hook) (before : List InstalledHook)
      → At w
      → All Missing hs
      → All IsDone before
      → AllDone hs before (install_partition install w hs before)
  install_partition-AllDone w [] before at n p =
      unfold install_partition in (at, p, sym (append-nil (map hook_of before)))
  install_partition-AllDone w (hook ∷ hs) before at (n, ns) p =
      partition_step w hook hs before _ refl (install_hook-OneDone w before hook at n p)
        (λ w' i at' is.
          install_partition-AllDone w' hs (before ++ (i ∷ [])) at' ns
            (All-append IsDone before (i ∷ []) p (is, tt)))

  partitions_step :
      (w : W) (p : List Hook) (partitions : List (List Hook)) (before : List InstalledHook)
      (o : Option (W × List InstalledHook))
      → install_partition install w p [] ≡ o
      → AllDone p [] o
      → ((w' : W) (more : List InstalledHook)
          → At w'
          → All IsDone more
          → AllDone
              (flatten partitions)
              (before ++ more)
              (install_partitions install w' partitions (before ++ more)))
      → AllDone
          (p ++ flatten partitions)
          before
          (install_partitions install w (p ∷ partitions) before)
  unfolding install_partitions
  partitions_step w p partitions before none e fails k = rw (install_partitions, e) fails
  partitions_step w p partitions before (some (w', more)) e (at, are, same) k =
      rw (install_partitions, e)
        (AllDone-append p (flatten partitions) before more _ same (k w' more at are))

  install_partitions-AllDone :
      (w : W) (partitions : List (List Hook)) (before : List InstalledHook)
      → At w
      → All Missing (flatten partitions)
      → All IsDone before
      → AllDone (flatten partitions) before (install_partitions install w partitions before)
  unfolding flatten
  install_partitions-AllDone w [] before at n p = install_none w before at p
  install_partitions-AllDone w (part ∷ partitions) before at n p =
      let (now, rest) = All-append_inv Missing part (flatten partitions) n in
      partitions_step w part partitions before _ refl
        (install_partition-AllDone w part [] at now tt)
        (λ w' more at' are.
          install_partitions-AllDone w' partitions (before ++ more) at' rest
            (All-append IsDone before more p are))

  -- What an installation of the hooks owes: each hook once with what it needs, or an installation
  -- that ends in an error.
  abbrev pub InstallsAll : Option (W × List InstalledHook) → Type 0
  InstallsAll none = Fails
  InstallsAll (some (w', after)) = At w' × All IsDone after × Perm (map hook_of after) hooks

  InstallsAll-found :
      (rest : List Hook) (found : List InstalledHook) (o : Option (W × List InstalledHook))
      → AllDone rest found o
      → Perm (map hook_of found ++ rest) hooks
      → InstallsAll o
  InstallsAll-found rest found none h perm = h
  InstallsAll-found rest found (some (w', after)) (at, p, e) perm =
      (at, p, subst (λ l. Perm l hooks) (sym e) perm)

  stored-IsDone : (i : InstalledHook) → IsProvided (FromStore envs) i → IsDone i
  stored-IsDone (installed hook info) (needed, satisfied, stored) = (needed, satisfied, inl stored)
  stored-IsDone (no_need_install hook) unneeded = unneeded

  -- If an installation by a language that succeeds yields its hook with an environment that
  -- satisfies the hook, then an installation of hooks that succeeds yields each hook once: one
  -- that needs an environment with one of the current schema and of its language, repository
  -- and dependencies that its request accepts, which is a healthy one of the store or one that
  -- an installation of this run has made, and one that needs none without. One that fails does
  -- so because, in a state that installations of this run lead to, the installation of one of
  -- the hooks has failed, which needs an environment and which no healthy environment of the
  -- store satisfies. In both cases the installations that led to the state were of such hooks
  -- only.
  pub install_hooks-InstallsAll : InstallsAll (install_hooks install begin envs hooks)
  unfolding install_hooks
  install_hooks-InstallsAll =
      let (found, missing) = partition_installed_hooks envs hooks in
      let (p, n, perm) =
        partition_installed_hooks-Split envs (λ h. IsIn h hooks) hooks (All-IsIn hooks) in
      let parts = partition_hooks missing in
      let (_, same) = partition_hooks-ArePartitions missing in
      InstallsAll-found (flatten parts) found (install_partitions install begin parts found)
        (install_partitions-AllDone begin parts found here (partition_hooks-All Missing missing n)
          (All-map stored-IsDone found p))
        (Perm.trans (Perm.append_left (map hook_of found) same) perm)
