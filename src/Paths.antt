-- ===== src/Paths.antt =====
-- crates/prek/src/fs.rs, `clean_path`, and what it and the selectors use of the standard library's paths on Unix: a
-- text is its code points, and a path is its components.
pub mod Clean
mod Tests
pub mod Text
use prek.Prelude.{
  ℕ, zero, suc, ◌+◌, ◌-◌, ◌*◌, ◌/◌, ◌%◌, ◌^◌, ◌≤◌, ◌<◌, min, max, ◌≡◌, refl, sym, fun_ext, ap, ap₂,
  subst, ◌∙◌, ◌≢◌, ◌↔◌, ◌⊎◌, inl, inr, Bool, true, false, not, ◌&&◌, ◌||◌, Option, none, some, List,
  [], ◌∷◌, ◌++◌, map, append_assoc, append-nil, arith, ltb, leb, ◌==◌, if◌then◌else◌, ltb→lt,
  ltb→le, lt→ltb, leb→le, ==_iff, Bool-cases, Option-cases, Bytes, codes, length, get_elem?, take,
  drop, any, all, length-append, take-append-drop, length-take, length-drop, take-split,
  take-length, take-append, take-append_add, drop-append_add, take-take, drop-take, drop-length,
  drop-drop, eq_bytes, eq_bytes_iff, All, All-append, All-append_inv, All-drop,
}
use mathlib.Core.List.{reverse}
use prek.Filter.{FilePath}

pub data Component : Type 0 where
  root_dir cur_dir parent_dir : Component
  normal : Bytes → Component

-- The last of the components that are kept, in a list with the last one first.
abbrev pub pop_parent : List Component → List Component
pop_parent [] = parent_dir ∷ []
pop_parent (root_dir ∷ out) = root_dir ∷ out
pop_parent (normal name ∷ out) = out
pop_parent (cur_dir ∷ out) = parent_dir ∷ cur_dir ∷ out
pop_parent (parent_dir ∷ out) = parent_dir ∷ parent_dir ∷ out

-- One round of the loop; `out` has its last component first.
unfoldable pub push_component : List Component → Component → List Component
push_component out cur_dir = out
push_component out parent_dir = pop_parent out
push_component out root_dir = root_dir ∷ out
push_component out (normal name) = normal name ∷ out

unfoldable pub clean_loop : List Component → List Component → List Component
unfolding push_component
clean_loop out [] = out
clean_loop out (c ∷ path) = clean_loop (push_component out c) path

abbrev or_dot : List Component → List Component
or_dot [] = cur_dir ∷ []
or_dot (c ∷ out) = c ∷ out

unfoldable pub clean_path : List Component → List Component
unfolding clean_loop
clean_path path = or_dot (reverse (clean_loop [] path))

unfoldable pub eq_component : Component → Component → Bool
eq_component root_dir root_dir = true
eq_component cur_dir cur_dir = true
eq_component parent_dir parent_dir = true
eq_component (normal a) (normal b) = eq_bytes a b
eq_component _ _ = false

-- `Path::strip_prefix`
unfoldable pub strip_base : List Component → List Component → Option (List Component)
unfolding eq_component
strip_base path [] = some path
strip_base [] (b ∷ base) = none
strip_base (a ∷ path) (b ∷ base) =
    let rest = strip_base path base in if eq_component a b then rest else none

-- The text of a component.
abbrev pub as_os_str : Component → Bytes
as_os_str root_dir = codes "/"
as_os_str cur_dir = codes "."
as_os_str parent_dir = codes ".."
as_os_str (normal name) = name

abbrev pub names : List Component → FilePath
names path = map as_os_str path
