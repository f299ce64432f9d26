-- ===== src/Install/Agree.antt =====
-- What the tests of a partition and of an environment compare, field by field.
use prek.Prelude.{
  ◌≡◌, refl, ap, ap₂, ◌↔◌, ◌⊎◌, inl, inr, Bool, true, ◌&&◌, Option, none, some, List, [], ◌∷◌,
  arith, Bytes, eq_bytes_iff,
}
use prek.Install.{
  Language, python, pygrep, other_language, eq_language, RepoIdentity, Repo, remote, local, meta,
  builtin, identity, eq_identity, eq_dependencies, InstallInfo, Hook, is_installable,
  needs_install_env, is_satisfied_by, partition_language, same_install_partition,
}

eq_language_refl : (a : Language) → eq_language a a ≡ true
unfolding eq_language
eq_language_refl python = refl
eq_language_refl pygrep = refl
eq_language_refl (other_language n) = ground arith

eq_language_sound : (a b : Language) → eq_language a b ≡ true → a ≡ b
unfolding eq_language
eq_language_sound python python e = refl
eq_language_sound python pygrep e = ground arith
eq_language_sound python (other_language b) e = ground arith
eq_language_sound pygrep python e = ground arith
eq_language_sound pygrep pygrep e = refl
eq_language_sound pygrep (other_language b) e = ground arith
eq_language_sound (other_language a) python e = ground arith
eq_language_sound (other_language a) pygrep e = ground arith
eq_language_sound (other_language a) (other_language b) e = ap other_language (ground arith)

eq_dependencies_iff : (a b : List Bytes) → (eq_dependencies a b ≡ true) ↔ (a ≡ b)
unfolding eq_dependencies
eq_dependencies_iff [] [] = ground arith
eq_dependencies_iff [] (y ∷ ys) = ground arith
eq_dependencies_iff (x ∷ xs) [] = ground arith
eq_dependencies_iff (x ∷ xs) (y ∷ ys) = ground (arith, eq_bytes_iff x y, eq_dependencies_iff xs ys)

-- An environment of this repository: one of a remote repository at its revision, one of any other
-- at none.
abbrev pub IsOf : Repo → Option RepoIdentity → Type 0
IsOf (remote r) o = o ≡ some r
IsOf local o = o ≡ none
IsOf meta o = o ≡ none
IsOf builtin o = o ≡ none

-- The same remote repository at the same revision, or none of the two is remote.
abbrev pub SameRepo : Repo → Repo → Type 0
SameRepo (remote a) (remote b) = (a.url ≡ b.url) × (a.rev ≡ b.rev)
SameRepo (remote a) _ = ⊥
SameRepo _ (remote b) = ⊥
SameRepo _ _ = Unit

identity-IsOf : (r : Repo) (o : Option RepoIdentity) → eq_identity o (identity r) ≡ true → IsOf r o
unfolding eq_identity
identity-IsOf (remote r) none e = ground arith
identity-IsOf (remote r) (some a) e = ap some (
    ap₂ (λ url rev. record { url = url; rev = rev }) (ground (arith, eq_bytes_iff a.url r.url))
      (ground (arith, eq_bytes_iff a.rev r.rev)))
identity-IsOf local none e = refl
identity-IsOf local (some a) e = ground arith
identity-IsOf meta none e = refl
identity-IsOf meta (some a) e = ground arith
identity-IsOf builtin none e = refl
identity-IsOf builtin (some a) e = ground arith

IsOf-identity : (r : Repo) (o : Option RepoIdentity) → IsOf r o → eq_identity o (identity r) ≡ true
unfolding eq_identity
IsOf-identity (remote r) o e =
    rw e (ground (arith, eq_bytes_iff r.url r.url, eq_bytes_iff r.rev r.rev))
IsOf-identity local o e = rw e refl
IsOf-identity meta o e = rw e refl
IsOf-identity builtin o e = rw e refl

identity-SameRepo : (a b : Repo) → (eq_identity (identity a) (identity b) ≡ true) ↔ SameRepo a b
unfolding eq_identity
identity-SameRepo (remote a) (remote b) =
    ground (arith, eq_bytes_iff a.url b.url, eq_bytes_iff a.rev b.rev)
identity-SameRepo (remote a) local = ground arith
identity-SameRepo (remote a) meta = ground arith
identity-SameRepo (remote a) builtin = ground arith
identity-SameRepo local (remote b) = ground arith
identity-SameRepo local local = ground arith
identity-SameRepo local meta = ground arith
identity-SameRepo local builtin = ground arith
identity-SameRepo meta (remote b) = ground arith
identity-SameRepo meta local = ground arith
identity-SameRepo meta meta = ground arith
identity-SameRepo meta builtin = ground arith
identity-SameRepo builtin (remote b) = ground arith
identity-SameRepo builtin local = ground arith
identity-SameRepo builtin meta = ground arith
identity-SameRepo builtin builtin = ground arith

-- Python, or pygrep, which may provision Python.
abbrev UsesPython : Language → Type 0
UsesPython language = (language ≡ python) ⊎ (language ≡ pygrep)

abbrev pub SharesLanguage : Language → Language → Type 0
SharesLanguage a b = (a ≡ b) ⊎ (UsesPython a × UsesPython b)

partition_language_shares :
    (a b : Language)
    → eq_language (partition_language a) (partition_language b) ≡ true
    → SharesLanguage a b
unfolding eq_language
partition_language_shares python python e = inl refl
partition_language_shares python pygrep e = inr (inl refl, inr refl)
partition_language_shares python (other_language b) e = ground arith
partition_language_shares pygrep python e = inr (inr refl, inl refl)
partition_language_shares pygrep pygrep e = inl refl
partition_language_shares pygrep (other_language b) e = ground arith
partition_language_shares (other_language a) python e = ground arith
partition_language_shares (other_language a) pygrep e = ground arith
partition_language_shares (other_language a) (other_language b) e =
    inl (eq_language_sound (other_language a) (other_language b) e)

python_shared : (a : Language) → UsesPython a → partition_language a ≡ python
python_shared a (inl e) = rw e refl
python_shared a (inr e) = rw e refl

SharesLanguage-partition :
    (a b : Language)
    → SharesLanguage a b
    → eq_language (partition_language a) (partition_language b) ≡ true
SharesLanguage-partition a b (inl e) = rw e (eq_language_refl (partition_language b))
SharesLanguage-partition a b (inr (p, q)) =
    rw (python_shared a p, python_shared b q) (eq_language_refl python)

-- Two hooks that one partition may hold.
abbrev pub SharesPartition : Hook → Hook → Type 0
SharesPartition a b =
    SharesLanguage a.language b.language
    × SameRepo a.repo b.repo
    × (a.additional_dependencies ≡ b.additional_dependencies)

pub same_install_partition_sound :
    (a b : Hook) → same_install_partition a b ≡ true → SharesPartition a b
unfolding same_install_partition
same_install_partition_sound a b e = (
  partition_language_shares a.language b.language (ground arith),
  (identity-SameRepo a.repo b.repo).0 (ground arith),
  (eq_dependencies_iff a.additional_dependencies b.additional_dependencies).0 (ground arith),
)

pub same_install_partition_complete :
    (a b : Hook) → SharesPartition a b → same_install_partition a b ≡ true
unfolding same_install_partition
same_install_partition_complete a b (l, r, d) =
    let p = SharesLanguage-partition a.language b.language l in
    let q = (identity-SameRepo a.repo b.repo).1 r in
    let s = (eq_dependencies_iff a.additional_dependencies b.additional_dependencies).1 d in
    rw (p, q, s) refl

-- An environment that satisfies a hook; what the hook's request for a version says is its own.
abbrev pub Satisfies : Hook → InstallInfo → Type 0
Satisfies hook info =
    (info.current_schema ≡ true)
    × (info.language ≡ hook.language)
    × IsOf hook.repo info.repo
    × (info.dependencies ≡ hook.additional_dependencies)
    × (hook.satisfied_by info ≡ true)

pub is_satisfied_by_sound :
    (hook : Hook) (info : InstallInfo) → is_satisfied_by hook info ≡ true → Satisfies hook info
unfolding is_satisfied_by
is_satisfied_by_sound hook info e = (
  ground arith,
  eq_language_sound info.language hook.language (ground arith),
  identity-IsOf hook.repo info.repo (ground arith),
  (eq_dependencies_iff info.dependencies hook.additional_dependencies).0 (ground arith),
  ground arith,
)

pub is_satisfied_by_complete :
    (hook : Hook) (info : InstallInfo) → Satisfies hook info → is_satisfied_by hook info ≡ true
unfolding is_satisfied_by
is_satisfied_by_complete hook info (current, l, r, d, s) =
    let p : eq_language info.language hook.language ≡ true =
      rw l (eq_language_refl hook.language) in
    let q = IsOf-identity hook.repo info.repo r in
    let t = (eq_dependencies_iff info.dependencies hook.additional_dependencies).1 d in
    rw (p, q, t) (ground arith)

-- Hooks of a remote or a local repository, in a language with environments.
abbrev IsInstallable : Repo → Type 0
IsInstallable (remote r) = Unit
IsInstallable local = Unit
IsInstallable meta = ⊥
IsInstallable builtin = ⊥

abbrev pub Needed : Hook → Type 0
Needed hook = IsInstallable hook.repo × (hook.supports_install_env ≡ true)

IsInstallable-iff :
    (r : Repo) (b : Bool) → (is_installable r && b ≡ true) ↔ (IsInstallable r × (b ≡ true))
IsInstallable-iff (remote r) b = ground arith
IsInstallable-iff local b = ground arith
IsInstallable-iff meta b = ground arith
IsInstallable-iff builtin b = ground arith

pub needs_install_env_iff : (hook : Hook) → (needs_install_env hook ≡ true) ↔ Needed hook
needs_install_env_iff hook = IsInstallable-iff hook.repo hook.supports_install_env

is_installable-true_of : (r : Repo) → IsInstallable r → is_installable r ≡ true
is_installable-true_of (remote r) h = refl
is_installable-true_of local h = refl
is_installable-true_of meta h = absurd h
is_installable-true_of builtin h = absurd h

pub is_installable-true : (hook : Hook) → Needed hook → is_installable hook.repo ≡ true
is_installable-true hook (h, _) = is_installable-true_of hook.repo h
