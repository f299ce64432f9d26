-- ===== src/Filter/Index/Owners.antt =====
-- crates/prek/src/cli/run/filter.rs, `RunFileIndex::new`: the owners of a file, and the files of one
-- project.
use mathlib.Core.List.{reverse}
use prek.Prelude.{
  ℕ, zero, suc, ◌+◌, ◌≡◌, ◌<◌, inl, inr, refl, sym, ap, ◌∙◌, List, [], ◌∷◌, ◌++◌, map, Option, none,
  some, if◌then◌else◌, get_elem?, All, All-map, ◌==◌, arith, length, Bool-cases, append_assoc,
  append-nil,
}
use prek.Filter.{
  FilePath, strip_prefix, Project, ProjectFile, FileEntry, is_orphan, filter_of,
  FilenameFilter_matches,
}
use prek.Filter.Tree.{ProjectPathNode, default, matching_projects}
use prek.Filter.Tree.Lookup.{insert_all, at_prefixes, tree_matches}
use prek.Filter.Index.{project_file, push_at, index_file, index_files, run_file_index}
use prek.Filter.Index.Places.{
  files_of, files_of-push_at, length-push_at, All-reverse, at_prefixes-AtPrefix, path_of,
  project_at, Holds, AtPrefix-Holds,
}

module _ (projects : List Project) where
  -- What a project adds for a file in its directory, by its patterns.
  abbrev accepted : ℕ → FileEntry → Project → Option FilePath → List ProjectFile
  accepted file_idx file project none = []
  accepted file_idx file project (some hook_path) =
      if FilenameFilter_matches (filter_of project) hook_path
      then project_file file_idx file hook_path ∷ []
      else []

  -- The files that the owners of a file, the deepest first, add to those of project `n`. An orphan
  -- project is the last owner.
  unfoldable pub owned_by : ℕ → ℕ → FileEntry → List ℕ → List ProjectFile
  owned_by n file_idx file [] = []
  owned_by n file_idx file (i ∷ more) = elim (get_elem? projects i) [
    | none ↦ []
    | some project ↦
        (if n == i
          then accepted file_idx file project (strip_prefix file.path project.relative_path)
          else [])
        ++ (if is_orphan project then [] else owned_by n file_idx file more)
  ]

  -- The files of project `n`: those that it owns, in the order of the run.
  unfoldable pub owned_files : ℕ → ℕ → List FileEntry → List ProjectFile
  owned_files n file_idx [] = []
  owned_files n file_idx (file ∷ rest) =
      owned_by n file_idx file (reverse (at_prefixes (project_at projects) file.path))
      ++ owned_files n (file_idx + 1) rest

  abbrev Indexed :
      List (List ProjectFile) → Option (List (List ProjectFile)) → (ℕ → List ProjectFile) → Type 0
  Indexed lists result added =
      (lists' : List (List ProjectFile)) × (result ≡ some lists')
      × (length lists' ≡ length lists)
      × ((n : ℕ) → files_of n lists' ≡ files_of n lists ++ added n)

  get_elem?_lt : (ps : List Project) (i : ℕ) (p : Project) → get_elem? ps i ≡ some p → i < length ps
  get_elem?_lt [] i p e = absurd (ground arith)
  get_elem?_lt (x ∷ ps) zero p e = omega arith
  get_elem?_lt (x ∷ ps) (suc i) p e = omega (arith, get_elem?_lt ps i p e)

  module _ (file_idx : ℕ) (file : FileEntry) where
    abbrev pushed : ℕ → Project → FilePath → List (List ProjectFile) → List (List ProjectFile)
    pushed i project hook_path lists =
        if FilenameFilter_matches (filter_of project) hook_path
        then push_at i (project_file file_idx file hook_path) lists
        else lists

    length-pushed :
        (i : ℕ) (project : Project) (hook_path : FilePath) (lists : List (List ProjectFile))
        → length (pushed i project hook_path lists) ≡ length lists
    length-pushed i project hook_path lists =
        ground (arith, length-push_at i (project_file file_idx file hook_path) lists)

    files_of-pushed :
        (n i : ℕ) (project : Project) (hook_path : FilePath) (lists : List (List ProjectFile))
        → i < length lists
        → files_of n (pushed i project hook_path lists)
          ≡ files_of n lists
            ++ (if n == i then accepted file_idx file project (some hook_path) else [])
    files_of-pushed n i project hook_path lists h = ground (
      arith,
      files_of-push_at n i (project_file file_idx file hook_path) lists h,
      append-nil (files_of n lists),
    )

    index_file-step :
        (i : ℕ) (more : List ℕ) (project : Project) (hook_path : FilePath)
        (lists : List (List ProjectFile))
        → get_elem? projects i ≡ some project
        → strip_prefix file.path project.relative_path ≡ some hook_path
        → index_file projects file_idx file (i ∷ more) lists ≡ (
            if is_orphan project
            then some (pushed i project hook_path lists)
            else index_file projects file_idx file more (pushed i project hook_path lists))
    unfolding index_file
    index_file-step i more project hook_path lists e h = ground arith

    owned_by-step :
        (n i : ℕ) (more : List ℕ) (project : Project) (hook_path : FilePath)
        → get_elem? projects i ≡ some project
        → strip_prefix file.path project.relative_path ≡ some hook_path
        → owned_by n file_idx file (i ∷ more)
          ≡ (if n == i then accepted file_idx file project (some hook_path) else [])
            ++ (if is_orphan project then [] else owned_by n file_idx file more)
    unfolding owned_by
    owned_by-step n i more project hook_path e h = ground arith

    index_file-Indexed :
        (owners : List ℕ) (lists : List (List ProjectFile))
        → All (Holds projects file.path) owners
        → length lists ≡ length projects
        → Indexed lists
            (index_file projects file_idx file owners lists)
            (λ n. owned_by n file_idx file owners)
    unfolding index_file owned_by
    index_file-Indexed [] lists h len =
        (lists, refl, refl, λ n. sym (append-nil (files_of n lists)))
    index_file-Indexed (i ∷ more) lists ((project, hook_path, e, s), h) len =
        let in_range : i < length lists = omega (arith, get_elem?_lt projects i project e) in
        let p = pushed i project hook_path lists in
        let len_p = length-pushed i project hook_path lists in
        elim (Bool-cases (is_orphan project)) [
          | inl last ↦ (
            p,
            index_file-step i more project hook_path lists e s ∙ rw last refl,
            len_p,
            λ n.
                files_of-pushed n i project hook_path lists in_range
                ∙ ap (λ l. files_of n lists ++ l)
                    (sym (owned_by-step n i more project hook_path e s ∙ rw last (append-nil _))),
          )
          | inr go_on ↦
              let (lists', ran, len', added) = index_file-Indexed more p h (len_p ∙ len) in
              (
                lists',
                index_file-step i more project hook_path lists e s ∙ rw go_on ran,
                len' ∙ len_p,
                λ n.
                    added n
                    ∙ ap (λ l. l ++ owned_by n file_idx file more)
                        (files_of-pushed n i project hook_path lists in_range)
                    ∙ append_assoc (files_of n lists) _ (owned_by n file_idx file more)
                    ∙ ap (λ l. files_of n lists ++ l)
                        (sym (owned_by-step n i more project hook_path e s ∙ rw go_on refl)),
              )
        ]

  abbrev tree_of : ProjectPathNode
  tree_of = insert_all 0 (map path_of projects) default

  index_files-step :
      (file : FileEntry) (rest : List FileEntry) (file_idx : ℕ)
      (lists mid : List (List ProjectFile))
      → index_file projects file_idx file (reverse (matching_projects tree_of file.path)) lists
        ≡ some mid
      → index_files projects tree_of file_idx (file ∷ rest) lists
        ≡ index_files projects tree_of (file_idx + 1) rest mid
  unfolding index_files
  index_files-step file rest file_idx lists mid h = ground arith

  index_files-Indexed :
      (files : List FileEntry) (file_idx : ℕ) (lists : List (List ProjectFile))
      → length lists ≡ length projects
      → Indexed lists
          (index_files projects tree_of file_idx files lists)
          (λ n. owned_files n file_idx files)
  unfolding index_files owned_files
  index_files-Indexed [] file_idx lists len =
      (lists, refl, refl, λ n. sym (append-nil (files_of n lists)))
  index_files-Indexed (file ∷ rest) file_idx lists len =
      let ups = at_prefixes (project_at projects) file.path in
      let held : All (Holds projects file.path) (reverse ups) =
        All-reverse (Holds projects file.path) ups (
          All-map (AtPrefix-Holds projects file.path) ups
            (at_prefixes-AtPrefix (project_at projects) file.path)) in
      let (mid, ran, len_mid, added) =
        index_file-Indexed file_idx file (reverse ups) lists held len in
      let (lists', ran', len', added') =
        index_files-Indexed rest (file_idx + 1) mid (len_mid ∙ len) in
      (
        lists',
        index_files-step file rest file_idx lists mid (
              ap (λ l. index_file projects file_idx file (reverse l) lists)
                (tree_matches (map path_of projects) file.path)
              ∙ ran)
            ∙ ran',
        len' ∙ len_mid,
        λ n.
            added' n
            ∙ ap (λ l. l ++ owned_files n (file_idx + 1) rest) (added n)
            ∙ append_assoc (files_of n lists) _ (owned_files n (file_idx + 1) rest),
      )

  files_of-empty : (ps : List Project) (n : ℕ) → files_of n (map (λ p. []) ps) ≡ []
  files_of-empty [] n = refl
  files_of-empty (p ∷ ps) zero = refl
  files_of-empty (p ∷ ps) (suc n) = files_of-empty ps n

  length-empty : (ps : List Project) → length {A = List ProjectFile} (map (λ p. []) ps) ≡ length ps
  length-empty [] = refl
  length-empty (p ∷ ps) = ap suc (length-empty ps)

  -- The index of the files of a run is built without a panic. It has a list of files for each
  -- project, which holds, in the order of the run, the files that the project owns and that
  -- its patterns accept; the owners of a file are the projects at the prefixes of its path,
  -- from the deepest one up to the first orphan project.
  pub run_file_index-owned_files :
      (files : List FileEntry)
      → (lists : List (List ProjectFile)) × (run_file_index projects files ≡ some lists)
        × (length lists ≡ length projects)
        × ((n : ℕ) → files_of n lists ≡ owned_files n 0 files)
  unfolding run_file_index
  run_file_index-owned_files files =
      let (lists, ran, len, added) =
        index_files-Indexed files 0 (map (λ p. []) projects) (length-empty projects) in
      (
        lists,
        ran,
        len ∙ length-empty projects,
        λ n. added n ∙ ap (λ l. l ++ owned_files n 0 files) (files_of-empty projects n),
      )
