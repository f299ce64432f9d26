-- ===== src/Selectors/Parse/RoundTrip/Split.antt =====
-- The standard library's `split`, `split_once` and `components` on texts that are put together.
use prek.Prelude.{
  ℕ, ◌≡◌, refl, ap, ◌∙◌, Bool, true, false, not, ◌&&◌, ◌||◌, none, some, List, [], ◌∷◌, ◌++◌, map,
  append_assoc, arith, Bytes, codes, all, eq_bytes, eq_bytes_iff,
}
use prek.Filter.{FilePath}
use prek.Paths.{Component, normal}
use prek.Paths.Text.{
  split, split_once, contains, absolute, parts_of, component_of, slash, starts_with_slash,
}
use prek.Selectors.{is_empty}
use prek.Selectors.Parse.{colon, join_path}

-- A name of a file that is no ".", no ".." and has no colon.
abbrev pub is_name : Bytes → Bool
is_name name =
    not (is_empty name)
    && (not (contains slash name)
        && (not (contains colon name)
            && (not (eq_bytes name (codes ".")) && not (eq_bytes name (codes "..")))))

pub contains-append : (c : ℕ) (a b : Bytes) → contains c (a ++ b) ≡ (contains c a || contains c b)
contains-append c [] b = refl
contains-append c (d ∷ a) b = ground (arith, contains-append c a b)

pub split_once-found :
    (sep : ℕ) (a b : Bytes) → contains sep a ≡ false → split_once sep (a ++ sep ∷ b) ≡ some (a, b)
unfolding split_once
split_once-found sep [] b h = ground arith
split_once-found sep (c ∷ a) b h = ground (arith, split_once-found sep a b)

pub split_once-none : (sep : ℕ) (a : Bytes) → contains sep a ≡ false → split_once sep a ≡ none
unfolding split_once
split_once-none sep [] h = refl
split_once-none sep (c ∷ a) h = ground (arith, split_once-none sep a)

split-found :
    (sep : ℕ) (a b : Bytes) → contains sep a ≡ false → split sep (a ++ sep ∷ b) ≡ a ∷ split sep b
unfolding split
split-found sep [] b h = ground arith
split-found sep (c ∷ a) b h = ground (arith, split-found sep a b)

split-none : (sep : ℕ) (a : Bytes) → contains sep a ≡ false → split sep a ≡ a ∷ []
unfolding split
split-none sep [] h = refl
split-none sep (c ∷ a) h = ground (arith, split-none sep a)

component_of-name : (name : Bytes) → is_name name ≡ true → component_of name ≡ normal name ∷ []
unfolding component_of
component_of-name [] h = absurd (ground arith)
component_of-name (c ∷ name) h = ground (arith, eq_bytes_iff (c ∷ name) [])

parts_of-name :
    (name : Bytes) (parts : List Bytes)
    → is_name name ≡ true
    → parts_of (name ∷ parts) ≡ normal name ∷ parts_of parts
unfolding parts_of
parts_of-name name parts h = ground (arith, component_of-name name)

parts_of-empty : parts_of ([] ∷ []) ≡ []
unfolding parts_of component_of
parts_of-empty = ground (arith, eq_bytes_iff [] [])

pub parts_of-join_path :
    (path : FilePath)
    → all is_name path ≡ true
    → parts_of (split slash (join_path path)) ≡ map normal path
unfolding parts_of split
parts_of-join_path [] h = parts_of-empty
parts_of-join_path (name ∷ []) h = ground (arith, split-none slash name, parts_of-name name [])
parts_of-join_path (name ∷ (next ∷ path)) h =
    let rest = join_path (next ∷ path) in
    ground (
      arith,
      split-found slash name rest,
      parts_of-name name (split slash rest),
      parts_of-join_path (next ∷ path),
    )

pub parts_of-join_path-slash :
    (name : Bytes) (path : FilePath)
    → all is_name (name ∷ path) ≡ true
    → parts_of (split slash (join_path (name ∷ path) ++ slash ∷ [])) ≡ map normal (name ∷ path)
unfolding parts_of split
parts_of-join_path-slash name [] h =
    ap parts_of (split-found slash name [] (ground arith))
    ∙ parts_of-name name ([] ∷ []) (ground arith)
    ∙ ap (λ l. normal name ∷ l) parts_of-empty
parts_of-join_path-slash name (next ∷ path) h =
    let rest = join_path (next ∷ path) ++ slash ∷ [] in
    ground (
      arith,
      append_assoc name (slash ∷ join_path (next ∷ path)) (slash ∷ []),
      split-found slash name rest,
      parts_of-name name (split slash rest),
      parts_of-join_path-slash next path,
    )

pub join_path-contains-colon :
    (path : FilePath) → all is_name path ≡ true → contains colon (join_path path) ≡ false
join_path-contains-colon [] h = refl
join_path-contains-colon (name ∷ []) h = ground arith
join_path-contains-colon (name ∷ (next ∷ path)) h = ground (
  arith,
  contains-append colon name (slash ∷ join_path (next ∷ path)),
  join_path-contains-colon (next ∷ path),
)

-- A relative path, which is not empty.
pub absolute-relative :
    (cwd : List Component) (text : Bytes)
    → is_empty text ≡ false
    → starts_with_slash text ≡ false
    → absolute cwd text ≡ some (cwd ++ parts_of (split slash text))
unfolding absolute
absolute-relative cwd [] e h = absurd (ground arith)
absolute-relative cwd (c ∷ text) e h = ground arith

pub join_path-first :
    (name : Bytes) (path : FilePath) (text : Bytes)
    → is_name name ≡ true
    → (is_empty (join_path (name ∷ path) ++ text) ≡ false)
      × (starts_with_slash (join_path (name ∷ path) ++ text) ≡ false)
join_path-first [] path text h = absurd (ground arith)
join_path-first (c ∷ name) [] text h = ground arith
join_path-first (c ∷ name) (next ∷ path) text h = ground arith
