-- ===== src/Filter/Index/Places.antt =====
-- crates/prek/src/cli/run/filter.rs, `RunFileIndex::new`: the indices that the tree yields, and the
-- places where files are pushed.
use mathlib.Core.List.{reverse, reverse-cons}
use prek.Prelude.{
  ℕ, zero, suc, ◌+◌, ◌-◌, ◌≡◌, ◌≤◌, ◌<◌, ◌⊎◌, inl, inr, refl, sym, ap, ◌∙◌, subst, List, [], ◌∷◌,
  ◌++◌, map, Option, none, some, if◌then◌else◌, get_elem?, All, All-map, All-append, ◌==◌, arith,
  length, Bool-cases, append-nil, eq_bytes_iff,
}
use prek.Filter.{FilePath, eq_path, strip_prefix, Project, ProjectFile}
use prek.Filter.Tree.{index_of}
use prek.Filter.Tree.Lookup.{eq_path_iff, index_from, at_prefixes}
use prek.Filter.Index.{push_at}

-- The files of one project.
abbrev pub files_of : ℕ → List (List ProjectFile) → List ProjectFile
files_of n [] = []
files_of zero (l ∷ lists) = l
files_of (suc n) (l ∷ lists) = files_of n lists

pub files_of-push_at :
    (n m : ℕ) (file : ProjectFile) (lists : List (List ProjectFile))
    → m < length lists
    → files_of n (push_at m file lists) ≡ files_of n lists ++ (if n == m then file ∷ [] else [])
unfolding push_at
files_of-push_at n m file [] h = absurd (omega arith)
files_of-push_at zero zero file (l ∷ lists) h = ground arith
files_of-push_at zero (suc m) file (l ∷ lists) h = ground (arith, append-nil l)
files_of-push_at (suc n) zero file (l ∷ lists) h = ground (arith, append-nil (files_of n lists))
files_of-push_at (suc n) (suc m) file (l ∷ lists) h =
    ground (arith, files_of-push_at n m file lists)

pub length-push_at :
    (m : ℕ) (file : ProjectFile) (lists : List (List ProjectFile))
    → length (push_at m file lists) ≡ length lists
unfolding push_at
length-push_at m file [] = refl
length-push_at zero file (l ∷ lists) = refl
length-push_at (suc m) file (l ∷ lists) = ground (arith, length-push_at m file lists)

pub All-reverse : {A : Type 0} (P : A → Type 0) (xs : List A) → All P xs → All P (reverse xs)
All-reverse P [] h = tt
All-reverse P (x ∷ xs) (p, h) =
    subst (All P) (sym (reverse-cons x xs))
      (All-append P (reverse xs) (x ∷ []) (All-reverse P xs h) (p, tt))

-- An index at a prefix of a path.
abbrev pub AtPrefix : (FilePath → Option ℕ) → FilePath → ℕ → Type 0
AtPrefix at path i =
    (q : FilePath) × (rest : FilePath) × (at q ≡ some i) × (strip_prefix path q ≡ some rest)

AtPrefix-cons :
    (at : FilePath → Option ℕ) (c : List ℕ) (path : FilePath) (i : ℕ)
    → AtPrefix (λ q. at (c ∷ q)) path i
    → AtPrefix at (c ∷ path) i
unfolding strip_prefix
AtPrefix-cons at c path i (q, rest, e, h) =
    (c ∷ q, rest, e, ground (arith, (eq_bytes_iff c c).1 refl))

AtPrefix-here :
    (at : FilePath → Option ℕ) (path : FilePath) (o : Option ℕ)
    → at [] ≡ o
    → All (AtPrefix at path) (index_of o)
unfolding strip_prefix
AtPrefix-here at path none e = tt
AtPrefix-here at [] (some i) e = (([], [], e, refl), tt)
AtPrefix-here at (c ∷ path) (some i) e = (([], c ∷ path, e, refl), tt)

pub at_prefixes-AtPrefix :
    (at : FilePath → Option ℕ) (path : FilePath) → All (AtPrefix at path) (at_prefixes at path)
at_prefixes-AtPrefix at [] = AtPrefix-here at [] (at []) refl
at_prefixes-AtPrefix at (c ∷ path) =
    All-append (AtPrefix at (c ∷ path)) (index_of (at [])) (at_prefixes (λ q. at (c ∷ q)) path)
      (AtPrefix-here at (c ∷ path) (at []) refl)
      (All-map (AtPrefix-cons at c path) (at_prefixes (λ q. at (c ∷ q)) path)
        (at_prefixes-AtPrefix (λ q. at (c ∷ q)) path))

-- The index of a path is that of a project with the path.
index_from-found :
    (paths : List FilePath) (k : ℕ) (q : FilePath) (found : Option ℕ) (i : ℕ)
    → index_from k paths q found ≡ some i
    → (found ≡ some i) ⊎ ((k ≤ i) × (get_elem? paths (i - k) ≡ some q))
unfolding index_from
index_from-found [] k q found i e = inl e
index_from-found (p ∷ paths) k q found i e =
    elim (index_from-found paths (k + 1) q (if eq_path p q then some k else found) i e) [
      | inl h ↦ elim (Bool-cases (eq_path p q)) [
        | inl same ↦
            let at_k : k ≡ i = ground arith in
            let zero_left : i - k ≡ 0 = omega arith in
            inr (
              omega arith,
              ap (get_elem? (p ∷ paths)) zero_left ∙ ap some ((eq_path_iff p q).0 same),
            )
        | inr other ↦ inl (ground arith)
      ]
      | inr (le, h) ↦
          let more : i - k ≡ suc (i - (k + 1)) = omega arith in
          inr (omega arith, ap (get_elem? (p ∷ paths)) more ∙ h)
    ]

abbrev pub path_of : Project → FilePath
path_of p = p.relative_path

get_elem?-map :
    (projects : List Project) (i : ℕ) (q : FilePath)
    → get_elem? (map path_of projects) i ≡ some q
    → (project : Project) × (get_elem? projects i ≡ some project) × (project.relative_path ≡ q)
get_elem?-map [] i q e = absurd (ground arith)
get_elem?-map (p ∷ projects) zero q e = (p, refl, ground arith)
get_elem?-map (p ∷ projects) (suc i) q e = get_elem?-map projects i q e

-- The index of the project at a path.
abbrev pub project_at : List Project → FilePath → Option ℕ
project_at projects q = index_from 0 (map path_of projects) q none

-- A project that has a file in its directory.
abbrev pub Holds : List Project → FilePath → ℕ → Type 0
Holds projects path i =
    (project : Project) × (hook_path : FilePath) × (get_elem? projects i ≡ some project)
    × (strip_prefix path project.relative_path ≡ some hook_path)

pub AtPrefix-Holds :
    (projects : List Project) (path : FilePath) (i : ℕ)
    → AtPrefix (project_at projects) path i
    → Holds projects path i
AtPrefix-Holds projects path i (q, rest, e, h) =
    elim (index_from-found (map path_of projects) 0 q none i e) [
      | inl never ↦ absurd (ground arith)
      | inr (le, at) ↦
          let whole : i - 0 ≡ i = omega arith in
          let (project, found, same) =
            get_elem?-map projects i q (ap (get_elem? (map path_of projects)) (sym whole) ∙ at) in
          (project, rest, found, ap (strip_prefix path) same ∙ h)
    ]
