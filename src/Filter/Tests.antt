-- ===== src/Filter/Tests.antt =====
-- crates/prek/src/cli/run/filter.rs: paths, projects and the files that they own, at concrete
-- values.
use prek.Prelude.{
  ℕ, ◌+◌, ◌≡◌, refl, List, [], ◌∷◌, Bool, true, false, none, some, ◌||◌, ◌&&◌, any, codes, eq_bytes,
}
use prek.Filter.{
  FilePath, glob, Project, ProjectFile, eq_path, FileTagFilter, FileTagFilter_matches,
}
use prek.Filter.Tree.{default, matching_projects}
use mathlib.Core.Logic.{◌↔◌}
use prek.Identify.{empty_set}
use prek.Identify.Tags.{tag_text}
use prek.Identify.Interpreter.{constant_set}
use prek.Identify.Sets.{empty_set-IsTagSet}
use prek.Identify.Ordinary.{constant_set-Represents}
use prek.Filter.Types.{identify, HasAll, HasAny, HasNone, FileTagFilter_matches_iff}
use prek.Filter.Tree.Lookup.{insert_all, index_from, at_prefixes, tree_matches}
use prek.Filter.Visit.{contains, visit_for_project}
use prek.Filter.Visit.Consume.{owned, visit_for_project-consumes}

abbrev src : FilePath
src = codes "src" ∷ []

abbrev main_rs : FilePath
main_rs = codes "src" ∷ codes "main.rs" ∷ []

abbrev readme : FilePath
readme = codes "README" ∷ []

-- An orphan project that keeps none of its files.
abbrev orphan_src : Project
orphan_src = record {
  relative_path = src;
  files = none;
  exclude = some (glob (λ _. true));
  orphan = some true;
}

abbrev count_files : ℕ → ProjectFile → ℕ × Bool
count_files n file = (n + 1, false)

root_and_src : at_prefixes (λ q. index_from 0 ([] ∷ src ∷ []) q none) main_rs ≡ 0 ∷ 1 ∷ []
unfolding index_from eq_path eq_bytes
root_and_src = refl

tree_matches_example :
    matching_projects (insert_all 0 ([] ∷ src ∷ []) default) main_rs
    ≡ at_prefixes (λ q. index_from 0 ([] ∷ src ∷ []) q none) main_rs
tree_matches_example = tree_matches ([] ∷ src ∷ []) main_rs

visit_for_project-consumes_example :
    (set' : List FilePath) × ((visit_for_project count_files orphan_src none
        (main_rs ∷ readme ∷ [])
        (some [])
        0).newly_consumed_files
      ≡ some set')
    × ((f : FilePath)
        → contains set' f ≡ (
            contains [] f
            || any
                (λ g. eq_path g f && owned count_files orphan_src none refl g)
                (main_rs ∷ readme ∷ [])))
visit_for_project-consumes_example =
    visit_for_project-consumes count_files orphan_src none refl (main_rs ∷ readme ∷ []) [] 0

abbrev text_only : FileTagFilter identify
text_only = record { all = some (constant_set (tag_text ∷ [])); any = none; exclude = none }

FileTagFilter_matches_iff_example :
    (FileTagFilter_matches identify text_only empty_set ≡ true)
    ↔ (HasAll text_only.all empty_set × HasAny none empty_set × HasNone none empty_set)
FileTagFilter_matches_iff_example =
    FileTagFilter_matches_iff text_only empty_set
      (constant_set-Represents (tag_text ∷ []) refl).valid tt tt empty_set-IsTagSet
