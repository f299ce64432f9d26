-- ===== src/Filter/Tree/Lookup.antt =====
-- crates/prek/src/cli/run/filter.rs, `ProjectPathNode`: the tree of paths as a map from paths to
-- indices.
use prek.Prelude.{
  ℕ, ◌+◌, ◌≡◌, ◌↔◌, refl, sym, ap, fun_ext, ◌∙◌, Bytes, List, [], ◌∷◌, ◌++◌, true, Option, none,
  some, if◌then◌else◌, eq_bytes, eq_bytes_iff, arith, append-nil,
}
use prek.Filter.{FilePath, eq_path}
use prek.Filter.Tree.{
  ProjectPathNode, Children, node, nil, child, get, put, entry, insert, default, matching_projects,
  index_of,
}

pub eq_path_iff : (p q : FilePath) → (eq_path p q ≡ true) ↔ (p ≡ q)
unfolding eq_path
eq_path_iff [] [] = ground arith
eq_path_iff [] (b ∷ q) = ground arith
eq_path_iff (a ∷ p) [] = ground arith
eq_path_iff (a ∷ p) (b ∷ q) = ground (arith, eq_bytes_iff a b, eq_path_iff p q)

-- The index at exactly a path.
pub lookup : ProjectPathNode → FilePath → Option ℕ
lookup (node i children) [] = i
lookup (node i children) (c ∷ path) = elim (get c children) [ none ↦ none | some n ↦ lookup n path ]

get-put :
    (c d : Bytes) (n : ProjectPathNode) (children : Children)
    → get d (put c n children) ≡ (if eq_bytes c d then some n else get d children)
unfolding get put
get-put c d n nil = refl
get-put c d n (child e m rest) =
    ground (arith, get-put c d n rest, eq_bytes_iff c d, eq_bytes_iff e c, eq_bytes_iff e d)

lookup-default : (path : FilePath) → lookup default path ≡ none
unfolding lookup get
lookup-default [] = refl
lookup-default (c ∷ path) = refl

lookup-entry :
    (c : Bytes) (children : Children) (path : FilePath)
    → lookup (entry c children) path
      ≡ (elim (get c children) [ none ↦ none | some n ↦ lookup n path ])
lookup-entry c children path = ground (arith, lookup-default path)

-- After a path is inserted with an index, the tree has that index at that path, and what it
-- had at every other path.
lookup-insert :
    (path : FilePath) (i : ℕ) (n : ProjectPathNode) (q : FilePath)
    → lookup (insert path i n) q ≡ (if eq_path path q then some i else lookup n q)
unfolding lookup insert eq_path
lookup-insert [] i (node j children) [] = refl
lookup-insert [] i (node j children) (d ∷ q) = refl
lookup-insert (c ∷ path) i (node j children) [] = refl
lookup-insert (c ∷ path) i (node j children) (d ∷ q) = ground (
  arith,
  get-put c d (insert path i (entry c children)) children,
  lookup-insert path i (entry c children) q,
  lookup-entry c children q,
  eq_bytes_iff c d,
)

-- The values of a map at the prefixes of a path, the shortest first.
abbrev pub at_prefixes : (FilePath → Option ℕ) → FilePath → List ℕ
at_prefixes f [] = index_of (f [])
at_prefixes f (c ∷ path) = index_of (f []) ++ at_prefixes (λ q. f (c ∷ q)) path

at_prefixes-none : (path : FilePath) → at_prefixes (λ _. none) path ≡ []
at_prefixes-none [] = refl
at_prefixes-none (c ∷ path) = at_prefixes-none path

module _ (i : Option ℕ) (children : Children) (c : Bytes) where
  -- The map below a component.
  abbrev below : FilePath → Option ℕ
  below q = lookup (node i children) (c ∷ q)

  below-none : get c children ≡ none → ◌≡◌ {A = FilePath → Option ℕ} below (λ _. none)
  unfolding lookup
  below-none e = fun_ext (λ q. ground arith)

  below-some :
      (n : ProjectPathNode)
      → get c children ≡ some n
      → ◌≡◌ {A = FilePath → Option ℕ} below (lookup n)
  unfolding lookup
  below-some n e = fun_ext (λ q. ground arith)

-- The step of the loop into a child, if there is one.
abbrev descend : Option ℕ → FilePath → Option ProjectPathNode → List ℕ
descend i path none = index_of i
descend i path (some n) = index_of i ++ matching_projects n path

matching_projects-step :
    (i : Option ℕ) (children : Children) (c : Bytes) (path : FilePath)
    → matching_projects (node i children) (c ∷ path) ≡ descend i path (get c children)
unfolding matching_projects get
matching_projects-step i nil c path = refl
matching_projects-step i (child d n rest) c path = ground arith

-- The indices that the tree yields for a path are those of its prefixes, the shortest first.
pub matching_projects-prefixes :
    (n : ProjectPathNode) (path : FilePath) → matching_projects n path ≡ at_prefixes (lookup n) path
unfolding lookup
matching_projects-prefixes (node i nil) [] = unfold matching_projects in refl
matching_projects-prefixes (node i (child d n rest)) [] = unfold matching_projects in refl
matching_projects-prefixes (node i children) (c ∷ path) =
    matching_projects-step i children c path
    ∙ go (get c children) refl (λ m. matching_projects-prefixes m path)
  where
    go :
        (found : Option ProjectPathNode)
        → get c children ≡ found
        → ((m : ProjectPathNode) → matching_projects m path ≡ at_prefixes (lookup m) path)
        → descend i path found ≡ index_of i ++ at_prefixes (below i children c) path
    go none e ih = sym (
        ap (λ f. index_of i ++ at_prefixes f path) (below-none i children c e)
        ∙ ap (λ l. index_of i ++ l) (at_prefixes-none path)
        ∙ append-nil (index_of i))
    go (some m) e ih =
        ap (λ l. index_of i ++ l) (ih m)
        ∙ ap (λ f. index_of i ++ at_prefixes f path) (sym (below-some i children c m e))

-- The tree of the projects, the first of which has the index `idx`.
pub insert_all : ℕ → List FilePath → ProjectPathNode → ProjectPathNode
insert_all idx [] n = n
insert_all idx (path ∷ more) n = insert_all (idx + 1) more (insert path idx n)

-- The index of the last of the paths that is this one.
unfoldable pub index_from : ℕ → List FilePath → FilePath → Option ℕ → Option ℕ
index_from idx [] q found = found
index_from idx (path ∷ more) q found =
    index_from (idx + 1) more q (if eq_path path q then some idx else found)

lookup-insert_all :
    (idx : ℕ) (paths : List FilePath) (n : ProjectPathNode) (q : FilePath)
    → lookup (insert_all idx paths n) q ≡ index_from idx paths q (lookup n q)
unfolding insert_all index_from
lookup-insert_all idx [] n q = refl
lookup-insert_all idx (path ∷ more) n q =
    lookup-insert_all (idx + 1) more (insert path idx n) q
    ∙ ap (index_from (idx + 1) more q) (lookup-insert path idx n q)

-- The tree that is built from the projects' paths yields, for a file's path, the index of the
-- project at each prefix of it that is a project's path, from the root to the leaf.
pub tree_matches :
    (paths : List FilePath) (path : FilePath)
    → matching_projects (insert_all 0 paths default) path
      ≡ at_prefixes (λ q. index_from 0 paths q none) path
tree_matches paths path =
    matching_projects-prefixes (insert_all 0 paths default) path
    ∙ ap (λ (f : FilePath → Option ℕ). at_prefixes f path)
        (fun_ext
          (λ q. lookup-insert_all 0 paths default q ∙ ap (index_from 0 paths q) (lookup-default q)))
