-- ===== src/Paths/Text.antt =====
-- The standard library's `str::split`, `str::split_once`, `Path::components` and `std::path::absolute` on Unix.
use prek.Prelude.{
  ℕ, Bool, false, Option, none, some, List, [], ◌∷◌, ◌++◌, ◌==◌, if◌then◌else◌, Bytes, codes, any,
  eq_bytes,
}
use prek.Paths.{Component, root_dir, parent_dir, normal}

abbrev pub slash : ℕ
slash = b'/'

abbrev pub extend : ℕ → List Bytes → List Bytes
extend c [] = (c ∷ []) ∷ []
extend c (part ∷ parts) = (c ∷ part) ∷ parts

-- `text.split(sep)`
unfoldable pub split : ℕ → Bytes → List Bytes
split sep [] = [] ∷ []
split sep (c ∷ text) = let parts = split sep text in if c == sep then [] ∷ parts else extend c parts

abbrev front : ℕ → Option (Bytes × Bytes) → Option (Bytes × Bytes)
front c none = none
front c (some (a, b)) = some (c ∷ a, b)

-- `text.split_once(sep)`
unfoldable pub split_once : ℕ → Bytes → Option (Bytes × Bytes)
split_once sep [] = none
split_once sep (c ∷ text) =
    let found = front c (split_once sep text) in if c == sep then some ([], text) else found

-- `text.contains(c)`
abbrev pub contains : ℕ → Bytes → Bool
contains c text = any (λ d. d == c) text

-- A part between slashes; "." and the empty part are no component.
unfoldable pub component_of : Bytes → List Component
component_of part =
    if eq_bytes part []
    then []
    else if eq_bytes part (codes ".")
    then []
    else if eq_bytes part (codes "..")
    then parent_dir ∷ []
    else normal part ∷ []

unfoldable pub parts_of : List Bytes → List Component
unfolding component_of
parts_of [] = []
parts_of (part ∷ parts) = component_of part ++ parts_of parts

abbrev pub starts_with_slash : Bytes → Bool
starts_with_slash [] = false
starts_with_slash (c ∷ text) = c == slash

-- `std::path::absolute` in the working directory `cwd`; an empty path is an error. A component ".",
-- which the text may begin with, is taken off.
unfoldable pub absolute : List Component → Bytes → Option (List Component)
unfolding parts_of split
absolute cwd [] = none
absolute cwd (c ∷ text) =
    if c == slash
    then some (root_dir ∷ parts_of (split slash text))
    else some (cwd ++ parts_of (split slash (c ∷ text)))
