-- ===== src/Filter/Index/Tests.antt =====
-- crates/prek/src/cli/run/filter.rs, `RunFileIndex::new`, at concrete projects.
use prek.Prelude.{ℕ, ◌≡◌, refl, List, [], ◌∷◌, true, none, some, codes, length, eq_bytes, false}
use prek.Filter.{Project, ProjectFile, FileEntry, eq_path, strip_prefix, FilenameFilter_matches}
use prek.Filter.Tree.Lookup.{index_from}
use prek.Filter.Index.{run_file_index}
use prek.Filter.Index.Places.{files_of}
use prek.Filter.Index.Owners.{owned_files, owned_by, run_file_index-owned_files}

abbrev root : Project
root = record { relative_path = []; files = none; exclude = none; orphan = none }

abbrev src : Project
src = record { relative_path = codes "src" ∷ []; files = none; exclude = none; orphan = some true }

abbrev main_rs : FileEntry
main_rs = record { path = codes "src" ∷ codes "main.rs" ∷ []; deleted_mode = none }

abbrev readme : FileEntry
readme = record { path = codes "README" ∷ []; deleted_mode = none }

-- The file of the orphan project is not one of the project above it.
root_files :
    owned_files (root ∷ src ∷ []) 0 0 (main_rs ∷ readme ∷ [])
    ≡ record { file_idx = 1; hook_path = readme.path; deleted = false } ∷ []
unfolding owned_files owned_by index_from eq_path eq_bytes strip_prefix FilenameFilter_matches
root_files = refl

run_file_index-owned_files_example :
    (lists : List (List ProjectFile)) × (run_file_index (root ∷ src ∷ []) (main_rs ∷ readme ∷ [])
      ≡ some lists)
    × (length lists ≡ 2)
    × ((n : ℕ) → files_of n lists ≡ owned_files (root ∷ src ∷ []) n 0 (main_rs ∷ readme ∷ []))
run_file_index-owned_files_example =
    run_file_index-owned_files (root ∷ src ∷ []) (main_rs ∷ readme ∷ [])
