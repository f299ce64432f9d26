-- ===== src/Filter/Visit.antt =====
-- crates/prek/src/cli/run/filter.rs: `ProjectFiles::visit_for_project`. The visitor is a function on
-- a state of its own, which also says whether to break. A set of consumed files is a list.
pub mod Consume
use prek.Prelude.{
  ℕ, zero, suc, ◌+◌, List, [], ◌∷◌, Bool, true, false, not, ◌&&◌, ◌||◌, Option, none, some,
  if◌then◌else◌, any,
}
use prek.Filter.{
  FilePath, eq_path, strip_prefix, is_some, Project, ProjectFile, is_orphan, filter_of,
  FilenameFilter_matches,
}

abbrev pub contains : List FilePath → FilePath → Bool
contains set path = any (λ p. eq_path p path) set

abbrev pub contains_some : Option (List FilePath) → FilePath → Bool
contains_some none path = false
contains_some (some set) path = contains set path

-- The set with the file, and whether the file is new in it.
pub insert_file : Option (List FilePath) → FilePath → Option (List FilePath) × Bool
insert_file none filename = (none, true)
insert_file (some set) filename =
    if contains set filename then (some set, false) else (some (filename ∷ set), true)

module _ {S : Type 0} (visit : S → ProjectFile → S × Bool) (project : Project)
    (consumed_files : Option (List FilePath)) where
  pub record Visited : Type 0 where
    pub state : S
    pub newly_consumed_files : Option (List FilePath)
    pub visiting : Bool
    pub broke : Bool

  -- The visit of a file that the project owns, and whether its visitor breaks the loop.
  pub visit_owned : ℕ → FilePath → Bool → Visited → Visited
  visit_owned file_idx relative must_finish_consuming v =
      if FilenameFilter_matches (filter_of project) relative
      then (let (state, is_break) =
            visit v.state (record { file_idx = file_idx; hook_path = relative; deleted = false }) in
          if is_break
          then if must_finish_consuming
            then record v { state = state; visiting = false }
            else record v { state = state; broke = true }
          else record v { state = state })
      else v

  -- One round of the loop.
  pub visit_file : Bool → ℕ → FilePath → Visited → Visited
  unfolding visit_owned insert_file
  visit_file must_finish_consuming file_idx filename v =
      elim (strip_prefix filename project.relative_path) [
        | none ↦ v
        | some relative ↦
            if contains_some consumed_files filename
            then v
            else let (newly, fresh) =
                if is_orphan project
                then insert_file v.newly_consumed_files filename
                else (v.newly_consumed_files, true) in
              let w = record v { newly_consumed_files = newly } in
              if not fresh
              then w
              else if not v.visiting
              then w
              else visit_owned file_idx relative must_finish_consuming w
      ]

  pub visit_files : Bool → ℕ → List FilePath → Visited → Visited
  visit_files must_finish_consuming file_idx [] v = v
  visit_files must_finish_consuming file_idx (filename ∷ rest) v =
      let w = visit_file must_finish_consuming file_idx filename v in
      let more = visit_files must_finish_consuming (file_idx + 1) rest w in
      if w.broke then w else more

  pub visit_for_project : List FilePath → Option (List FilePath) → S → Visited
  visit_for_project filenames newly_consumed_files state =
      visit_files (is_orphan project && is_some newly_consumed_files) 0 filenames (record {
        state = state;
        newly_consumed_files = newly_consumed_files;
        visiting = true;
        broke = false;
      })
