-- ===== src/Filter.antt =====
-- crates/prek/src/cli/run/filter.rs: which files a hook of a project is given. A relative path is
-- the list of its components, which is how `starts_with`, `strip_prefix` and `components` read it.
-- Regular expressions and globs are arguments: a pattern holds the test that the libraries make.
-- A set of tags is a type with the three tests that the filters call.
pub mod Tree
pub mod Index
pub mod Visit
pub mod Types
mod Tests
use prek.Prelude.{
  ℕ, Bytes, List, [], ◌∷◌, Bool, true, false, not, ◌&&◌, Option, none, some, if◌then◌else◌,
  eq_bytes,
}

abbrev pub FilePath : Type 0
FilePath = List Bytes

unfoldable pub eq_path : FilePath → FilePath → Bool
eq_path [] [] = true
eq_path (a ∷ p) (b ∷ q) = eq_bytes a b && eq_path p q
eq_path _ _ = false

-- `Path::strip_prefix`
unfoldable pub strip_prefix : FilePath → FilePath → Option FilePath
strip_prefix path [] = some path
strip_prefix [] (b ∷ base) = none
strip_prefix (a ∷ path) (b ∷ base) =
    let rest = strip_prefix path base in if eq_bytes a b then rest else none

abbrev pub is_some {ℓ} : {A : Type ℓ} → Option A → Bool
is_some none = false
is_some (some _) = true

-- `Path::starts_with`
abbrev pub starts_with : FilePath → FilePath → Bool
starts_with path base = is_some (strip_prefix path base)

-- config/pattern.rs; a regular expression that fails to run does not match.
pub data FilePattern : Type 0 where
  never : FilePattern
  regex : (FilePath → Option Bool) → FilePattern
  glob : (FilePath → Bool) → FilePattern

abbrev pub unwrap_or : Option Bool → Bool → Bool
unwrap_or none d = d
unwrap_or (some b) d = b

pub is_match : FilePattern → FilePath → Bool
is_match never path = false
is_match (regex run) path = unwrap_or (run path) false
is_match (glob run) path = run path

pub record FilenameFilter : Type 0 where
  pub include : Option FilePattern
  pub exclude : Option FilePattern

abbrev excludes : Option FilePattern → FilePath → Bool
excludes none filename = true
excludes (some pattern) filename = if is_match pattern filename then false else true

pub FilenameFilter_matches : FilenameFilter → FilePath → Bool
unfolding is_match
FilenameFilter_matches f filename = elim f.include [
  | none ↦ excludes f.exclude filename
  | some pattern ↦ if not (is_match pattern filename) then false else excludes f.exclude filename
]

-- What the filters read of prek_identify's `TagSet`.
pub record Tags : Type 1 where
  pub TagSet : Type 0
  pub is_subset : TagSet → TagSet → Bool
  pub is_disjoint : TagSet → TagSet → Bool
  pub is_empty : TagSet → Bool

module _ (tags : Tags) where
  open tags use {TagSet, is_subset, is_disjoint, is_empty}

  pub record FileTagFilter : Type 0 where
    pub all : Option TagSet
    pub any : Option TagSet
    pub exclude : Option TagSet

  abbrev pub is_some_and : Option TagSet → (TagSet → Bool) → Bool
  is_some_and none p = false
  is_some_and (some s) p = p s

  unfoldable pub FileTagFilter_matches : FileTagFilter → TagSet → Bool
  FileTagFilter_matches f file_types =
      if is_some_and f.all (λ s. not (is_subset s file_types))
      then false
      else if is_some_and f.any (λ s. not (is_empty s) && is_disjoint s file_types)
      then false
      else if is_some_and f.exclude (λ s. not (is_disjoint s file_types))
      then false
      else true

-- A project, as far as its files are concerned.
pub record Project : Type 0 where
  pub relative_path : FilePath
  pub files : Option FilePattern
  pub exclude : Option FilePattern
  pub orphan : Option Bool

abbrev pub is_orphan : Project → Bool
is_orphan p = unwrap_or p.orphan false

abbrev pub filter_of : Project → FilenameFilter
filter_of p = record { include = p.files; exclude = p.exclude }

-- git.rs
pub data FileMode : Type 0 where
  symlink submodule regular executable : FileMode

pub record FileEntry : Type 0 where
  pub path : FilePath
  pub deleted_mode : Option FileMode

pub record ProjectFile : Type 0 where
  pub file_idx : ℕ
  pub hook_path : FilePath
  pub deleted : Bool
