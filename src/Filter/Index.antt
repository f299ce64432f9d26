-- ===== src/Filter/Index.antt =====
-- crates/prek/src/cli/run/filter.rs: `RunFileIndex::new`, the files of a run for each project. The
-- vector of the projects' files is a list of lists. The panics on an index out of range and on a path that is
-- no prefix are `none`. The cache of tags is left out.
pub mod Places
pub mod Owners
mod Tests
use mathlib.Core.List.{reverse}
use prek.Prelude.{
  ℕ, zero, suc, ◌+◌, List, [], ◌∷◌, ◌++◌, map, Bool, true, false, Option, none, some, if◌then◌else◌,
  get_elem?,
}
use prek.Filter.{
  FilePath, strip_prefix, is_some, Project, ProjectFile, FileEntry, FileMode, is_orphan, filter_of,
  FilenameFilter_matches,
}
use prek.Filter.Tree.{ProjectPathNode, default, matching_projects}
use prek.Filter.Tree.Lookup.{insert_all}

abbrev pub is_deleted : FileEntry → Bool
is_deleted file = is_some file.deleted_mode

abbrev pub project_file : ℕ → FileEntry → FilePath → ProjectFile
project_file file_idx file hook_path = record {
  file_idx = file_idx;
  hook_path = hook_path;
  deleted = is_deleted file;
}

-- `project_files[project_idx].files.push(file)`
pub push_at : ℕ → ProjectFile → List (List ProjectFile) → List (List ProjectFile)
push_at n file [] = []
push_at zero file (l ∷ lists) = (l ++ file ∷ []) ∷ lists
push_at (suc n) file (l ∷ lists) = l ∷ push_at n file lists

module _ (projects : List Project) where
  -- The loop over the projects that match a file, the deepest first.
  pub index_file :
      ℕ → FileEntry → List ℕ → List (List ProjectFile) → Option (List (List ProjectFile))
  index_file file_idx file [] lists = some lists
  index_file file_idx file (project_idx ∷ more) lists = elim (get_elem? projects project_idx) [
    | none ↦ none
    | some project ↦ elim (strip_prefix file.path project.relative_path) [
      | none ↦ none
      | some hook_path ↦
          let pushed =
            if FilenameFilter_matches (filter_of project) hook_path
            then push_at project_idx (project_file file_idx file hook_path) lists
            else lists in
          let rest = index_file file_idx file more pushed in
          if is_orphan project then some pushed else rest
    ]
  ]

  pub index_files :
      ProjectPathNode
      → ℕ
      → List FileEntry
      → List (List ProjectFile)
      → Option (List (List ProjectFile))
  unfolding index_file
  index_files tree file_idx [] lists = some lists
  index_files tree file_idx (file ∷ rest) lists =
      elim (index_file file_idx file (reverse (matching_projects tree file.path)) lists) [
        | none ↦ none
        | some lists' ↦ index_files tree (file_idx + 1) rest lists'
      ]

  pub run_file_index : List FileEntry → Option (List (List ProjectFile))
  unfolding index_files
  run_file_index files =
      index_files (insert_all 0 (map (λ p. p.relative_path) projects) default) 0 files
        (map (λ p. []) projects)
