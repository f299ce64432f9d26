-- ===== src/Filter/Tree.antt =====
-- crates/prek/src/cli/run/filter.rs: `ProjectPathNode`, the tree of the projects' paths. A hash map
-- of the children is an association list with one entry for each component.
pub mod Lookup
use prek.Prelude.{
  ℕ, suc, ◌+◌, Bytes, List, [], ◌∷◌, ◌++◌, Bool, true, false, Option, none, some, if◌then◌else◌,
  eq_bytes,
}
use prek.Filter.{FilePath}

mutual
  pub data ProjectPathNode : Type 0 where
    node : Option ℕ → Children → ProjectPathNode

  pub data Children : Type 0 where
    nil : Children
    child : Bytes → ProjectPathNode → Children → Children

abbrev pub default : ProjectPathNode
default = node none nil

pub get : Bytes → Children → Option ProjectPathNode
get c nil = none
get c (child d n rest) = if eq_bytes d c then some n else get c rest

pub put : Bytes → ProjectPathNode → Children → Children
put c n nil = child c n nil
put c n (child d m rest) = if eq_bytes d c then child d n rest else child d m (put c n rest)

abbrev or_default : Option ProjectPathNode → ProjectPathNode
or_default none = default
or_default (some n) = n

abbrev pub entry : Bytes → Children → ProjectPathNode
entry c children = or_default (get c children)

-- The loop goes down one component at a time, and then replaces the index.
pub insert : FilePath → ℕ → ProjectPathNode → ProjectPathNode
unfolding get put
insert [] project_idx (node i children) = node (some project_idx) children
insert (c ∷ path) project_idx (node i children) =
    node i (put c (insert path project_idx (entry c children)) children)

abbrev pub index_of : Option ℕ → List ℕ
index_of none = []
index_of (some i) = i ∷ []

-- The indices on the way down, from the root to the leaf.
pub matching_projects : ProjectPathNode → FilePath → List ℕ
matching_projects (node i nil) path = index_of i
matching_projects (node i (child d n rest)) [] = index_of i
matching_projects (node i (child d n rest)) (c ∷ path) = elim (get c (child d n rest)) [
  | none ↦ index_of i
  | some below ↦ index_of i ++ matching_projects below path
]
