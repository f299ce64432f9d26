-- ===== src/Filter/Visit/Consume.antt =====
-- crates/prek/src/cli/run/filter.rs, `ProjectFiles::visit_for_project`: the files that an orphan
-- project consumes.
use prek.Prelude.{
  ℕ, ◌+◌, ◌≡◌, refl, sym, ap, subst, List, [], ◌∷◌, Bool, true, false, not, ◌&&◌, ◌||◌, Option,
  none, some, if◌then◌else◌, any, arith, Bool-cases, Option-cases, inl, inr,
}
use prek.Filter.{FilePath, eq_path, strip_prefix, starts_with, Project, ProjectFile, is_orphan}
use prek.Filter.Tree.Lookup.{eq_path_iff}
use prek.Filter.Visit.{
  contains, contains_some, insert_file, Visited, visit_owned, visit_file, visit_files,
  visit_for_project,
}

contains-eq :
    (set : List FilePath) (p q : FilePath) → eq_path p q ≡ true → contains set p ≡ contains set q
contains-eq set p q h = ap (contains set) ((eq_path_iff p q).0 h)

-- The set after an insertion has the file, and else what it had.
contains-insert_file :
    (set : List FilePath) (filename f : FilePath)
    → contains_some (insert_file (some set) filename).0 f ≡ (contains set f || eq_path filename f)
unfolding insert_file
contains-insert_file set filename f = elim (Bool-cases (eq_path filename f)) [
  | inl same ↦ ground (arith, contains-eq set filename f same)
  | inr other ↦ ground arith
]

module _ {S : Type 0} (visit : S → ProjectFile → S × Bool) (project : Project)
    (consumed : Option (List FilePath)) (orphan : is_orphan project ≡ true) where
  -- The file stands in the project's directory and no project below has consumed it.
  abbrev pub owned : FilePath → Bool
  owned filename =
      starts_with filename project.relative_path && not (contains_some consumed filename)

  abbrev Visit : Type 0
  Visit = Visited visit project consumed

  -- A round under way that does not break.
  abbrev Runs : List FilePath → Visit → Type 0
  Runs set v = (v.newly_consumed_files ≡ some set) × (v.broke ≡ false)

  owned-keeps :
      (idx : ℕ) (relative : FilePath) (v : Visit)
      → ((visit_owned visit project consumed idx relative true v).newly_consumed_files
          ≡ v.newly_consumed_files)
        × ((visit_owned visit project consumed idx relative true v).broke ≡ v.broke)
  unfolding visit_owned
  owned-keeps idx relative v = ground arith

  grown : List FilePath → FilePath → List FilePath
  grown set filename =
      if owned filename then (if contains set filename then set else filename ∷ set) else set

  round-rest :
      (idx : ℕ) (filename relative : FilePath) (v : Visit) (set : List FilePath)
      → strip_prefix filename project.relative_path ≡ some relative
      → v.newly_consumed_files ≡ some set
      → v.broke ≡ false
      → Runs (grown set filename) (visit_file visit project consumed true idx filename v)
  unfolding visit_file grown
  round-rest idx filename relative v set h new going = ground (
    arith,
    owned-keeps idx relative (record v { newly_consumed_files = some (filename ∷ set) }),
    owned-keeps idx relative
        (record v { newly_consumed_files = (insert_file v.newly_consumed_files filename).0 }),
    orphan,
  )

  round-other :
      (idx : ℕ) (filename : FilePath) (v : Visit) (set : List FilePath)
      → strip_prefix filename project.relative_path ≡ none
      → v.newly_consumed_files ≡ some set
      → v.broke ≡ false
      → Runs (grown set filename) (visit_file visit project consumed true idx filename v)
  unfolding visit_file grown
  round-other idx filename v set h new going = ground arith

  round :
      (idx : ℕ) (filename : FilePath) (v : Visit) (set : List FilePath)
      → v.newly_consumed_files ≡ some set
      → v.broke ≡ false
      → Runs (grown set filename) (visit_file visit project consumed true idx filename v)
  round idx filename v set new going =
      elim (Option-cases (strip_prefix filename project.relative_path)) [
        | inl h ↦ round-other idx filename v set h new going
        | inr (relative, h) ↦ round-rest idx filename relative v set h new going
      ]

  contains-grown :
      (set : List FilePath) (filename f : FilePath)
      → contains (grown set filename) f ≡ (contains set f || (eq_path filename f && owned filename))
  unfolding grown
  contains-grown set filename f = elim (Bool-cases (eq_path filename f)) [
    | inl same ↦ ground (arith, contains-eq set filename f same)
    | inr other ↦ ground arith
  ]

  -- What the loop consumes.
  all_grown : List FilePath → List FilePath → List FilePath
  all_grown set [] = set
  all_grown set (filename ∷ rest) = all_grown (grown set filename) rest

  files-step :
      (idx : ℕ) (filename : FilePath) (rest : List FilePath) (v : Visit)
      → (visit_file visit project consumed true idx filename v).broke ≡ false
      → visit_files visit project consumed true idx (filename ∷ rest) v
        ≡ visit_files visit project consumed true
            (idx + 1)
            rest
            (visit_file visit project consumed true idx filename v)
  unfolding visit_files
  files-step idx filename rest v h = ground arith

  rounds :
      (idx : ℕ) (filenames : List FilePath) (v : Visit) (set : List FilePath)
      → Runs set v
      → Runs (all_grown set filenames) (visit_files visit project consumed true idx filenames v)
  unfolding visit_files all_grown
  rounds idx [] v set r = r
  rounds idx (filename ∷ rest) v set (new, going) =
      let w = visit_file visit project consumed true idx filename v in
      let (new', going') = round idx filename v set new going in
      subst (Runs (all_grown (grown set filename) rest))
        (sym (files-step idx filename rest v going'))
        (rounds (idx + 1) rest w (grown set filename) (new', going'))

  contains-all_grown :
      (filenames set : List FilePath) (f : FilePath)
      → contains (all_grown set filenames) f
        ≡ (contains set f || any (λ g. eq_path g f && owned g) filenames)
  unfolding all_grown
  contains-all_grown [] set f = ground arith
  contains-all_grown (filename ∷ rest) set f =
      ground (arith, contains-all_grown rest (grown set filename) f, contains-grown set filename f)

  -- An orphan project that keeps a set of the files that it consumes ends with that set and
  -- the files in its directory that no project below it has consumed, also those that its own
  -- patterns reject, and also if the visitor breaks off.
  pub visit_for_project-consumes :
      (filenames set : List FilePath) (state : S)
      → (set' : List FilePath) × ((visit_for_project visit project consumed filenames
            (some set)
            state).newly_consumed_files
          ≡ some set')
        × ((f : FilePath)
            → contains set' f ≡ (contains set f || any (λ g. eq_path g f && owned g) filenames))
  unfolding visit_for_project
  visit_for_project-consumes filenames set state = (
    all_grown set filenames,
    rw orphan (rounds 0 filenames _ set (refl, refl)).0,
    contains-all_grown filenames set,
  )
