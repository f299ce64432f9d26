-- ===== src/Selectors/Parse.antt =====
-- crates/prek/src/cli/run/selector.rs: how the texts of selectors are read and shown. The working directory and the
-- environment are arguments.
pub mod Inside
pub mod RoundTrip
mod Tests
use prek.Prelude.{
  ℕ, zero, suc, ◌+◌, ◌-◌, ◌*◌, ◌/◌, ◌%◌, ◌^◌, ◌≤◌, ◌<◌, min, max, ◌≡◌, refl, sym, fun_ext, ap, ap₂,
  subst, ◌∙◌, ◌≢◌, ◌↔◌, ◌⊎◌, inl, inr, Bool, true, false, not, ◌&&◌, ◌||◌, Option, none, some, List,
  [], ◌∷◌, ◌++◌, map, append_assoc, append-nil, arith, ltb, leb, ◌==◌, if◌then◌else◌, ltb→lt,
  ltb→le, lt→ltb, leb→le, ==_iff, Bool-cases, Option-cases, Bytes, codes, length, get_elem?, take,
  drop, any, all, length-append, take-append-drop, length-take, length-drop, take-split,
  take-length, take-append, take-append_add, drop-append_add, take-take, drop-take, drop-length,
  drop-drop, eq_bytes, eq_bytes_iff, All, All-append, All-append_inv, All-drop,
}
use mathlib.Core.Option.{map as map_option}
use mathlib.Core.List.{reverse}
use prek.Filter.{FilePath}
use prek.Paths.{Component, clean_path, strip_base, names}
use prek.Paths.Text.{split, split_once, contains, absolute, slash}
use prek.Selectors.{
  SelectorSource, cli_arg, cli_flag, env_var, SelectorExpr, by_hook_id, project_prefix,
  project_hook, Selector, Selectors, is_empty,
}
use prek.Selectors.Groups.{is_whitespace, has_text}

pub data PathCause : Type 0 where
  not_absolute outside_the_workspace : PathCause

-- The reason that a selector is refused for.
pub data Cause : Type 0 where
  hook_id_part_is_empty cannot_be_empty : Cause
  invalid_path : Bytes → PathCause → Cause

pub record ParseError : Type 0 where
  pub selector : Bytes
  pub cause : Cause

abbrev pub colon : ℕ
colon = b':'

-- `RealFileSystem::absolute` in the working directory `cwd`.
pub real_absolute : List Component → Bytes → Option (List Component)
unfolding absolute clean_path
real_absolute cwd path = map_option clean_path (absolute cwd path)

abbrev stripped : Bytes → Option (List Component) → Cause ⊎ FilePath
stripped path none = inl (invalid_path path outside_the_workspace)
stripped path (some rel_path) = inr (names rel_path)

abbrev made_relative : List Component → Bytes → Option (List Component) → Cause ⊎ FilePath
made_relative workspace_root path none = inl (invalid_path path not_absolute)
made_relative workspace_root path (some absolute_path) =
    stripped path (strip_base (clean_path absolute_path) workspace_root)

pub normalize_path : (Bytes → Option (List Component)) → Bytes → List Component → Cause ⊎ FilePath
unfolding clean_path strip_base
normalize_path absolute_in path workspace_root =
    made_relative workspace_root path (absolute_in path)

abbrev or_invalid :
    Bytes → SelectorSource → (FilePath → SelectorExpr) → Cause ⊎ FilePath → ParseError ⊎ Selector
or_invalid input source to_expr (inl cause) = inl (record { selector = input; cause = cause })
or_invalid input source to_expr (inr path) =
    inr (record { source = source; original = input; expr = to_expr path })

-- The two parts of a selector with a colon.
pub parse_parts :
    (Bytes → Option (List Component))
    → Bytes
    → List Component
    → SelectorSource
    → Bytes
    → Bytes
    → ParseError ⊎ Selector
unfolding normalize_path
parse_parts absolute_in input workspace_root source project_path hook_id =
    if is_empty hook_id
    then inl (record { selector = input; cause = hook_id_part_is_empty })
    else if is_empty project_path
    then inr (record { source = source; original = input; expr = by_hook_id hook_id })
    else or_invalid input source (λ path. project_hook path hook_id)
        (normalize_path absolute_in project_path workspace_root)

-- A selector without a colon.
pub parse_whole :
    (Bytes → Option (List Component))
    → Bytes
    → List Component
    → SelectorSource
    → ParseError ⊎ Selector
unfolding normalize_path
parse_whole absolute_in input workspace_root source =
    if eq_bytes input (codes ".") || contains slash input
    then or_invalid input source project_prefix (normalize_path absolute_in input workspace_root)
    else if is_empty input
    then inl (record { selector = input; cause = cannot_be_empty })
    else inr (record { source = source; original = input; expr = by_hook_id input })

pub parse_single_selector :
    (Bytes → Option (List Component))
    → Bytes
    → List Component
    → SelectorSource
    → ParseError ⊎ Selector
unfolding split_once parse_parts parse_whole
parse_single_selector absolute_in input workspace_root source = elim (split_once colon input) [
  | some (project_path, hook_id) ↦
      parse_parts absolute_in input workspace_root source project_path hook_id
  | none ↦ parse_whole absolute_in input workspace_root source
]

-- A path as text, its names between slashes.
abbrev pub join_path : FilePath → Bytes
join_path [] = []
join_path (name ∷ []) = name
join_path (name ∷ (next ∷ path)) = name ++ slash ∷ join_path (next ∷ path)

-- `Display`
abbrev pub display : SelectorExpr → Bytes
display (by_hook_id hook_id) = hook_id
display (project_prefix []) = codes "./"
display (project_prefix (name ∷ path)) = join_path (name ∷ path) ++ slash ∷ []
display (project_hook [] hook_id) = codes ".:" ++ hook_id
display (project_hook (name ∷ path) hook_id) = join_path (name ∷ path) ++ colon ∷ hook_id

abbrev pub with_source : SelectorSource → Bytes → Bytes
with_source cli_arg text = text
with_source (cli_flag flag) text = flag ++ b'=' ∷ text
with_source (env_var name) text = name ++ b'=' ∷ text

abbrev pub as_flag : Selector → Bytes
as_flag selector = with_source selector.source selector.original

abbrev pub as_normalized_flag : Selector → Bytes
as_normalized_flag selector = with_source selector.source (display selector.expr)

abbrev pub kind_str : SelectorExpr → Bytes
kind_str (by_hook_id hook_id) = codes "hooks"
kind_str (project_hook path hook_id) = codes "hooks"
kind_str (project_prefix path) = codes "projects"

pub trim_start : Bytes → Bytes
unfolding is_whitespace
trim_start [] = []
trim_start (c ∷ text) = let rest = trim_start text in if is_whitespace c then rest else c ∷ text

-- `str::trim`
pub trim : Bytes → Bytes
unfolding trim_start
trim text = reverse (trim_start (reverse (trim_start text)))

abbrev non_empty : List Bytes → List Bytes
non_empty [] = []
non_empty (text ∷ texts) = if is_empty text then non_empty texts else text ∷ non_empty texts

pub parse_comma_separated : Bytes → List Bytes
unfolding split trim
parse_comma_separated input = non_empty (map trim (split b',' input))

abbrev push_parsed : Selector → ParseError ⊎ List Selector → ParseError ⊎ List Selector
push_parsed selector (inl e) = inl e
push_parsed selector (inr selectors) = inr (selector ∷ selectors)

-- `.map(parse_single_selector).collect()`, which stops at the first error.
pub parse_all :
    (Bytes → Option (List Component))
    → List Component
    → SelectorSource
    → List Bytes
    → ParseError ⊎ List Selector
unfolding parse_single_selector
parse_all absolute_in workspace_root source [] = inr []
parse_all absolute_in workspace_root source (text ∷ texts) =
    elim (parse_single_selector absolute_in text workspace_root source) [
      | inl e ↦ inl e
      | inr selector ↦ push_parsed selector (parse_all absolute_in workspace_root source texts)
    ]

-- `prek_skip` and `skip` are the values of the two variables, where they are set.
abbrev skip_texts : List Bytes → Option Bytes → Option Bytes → List Bytes × SelectorSource
skip_texts (text ∷ texts) prek_skip skip = (text ∷ texts, cli_flag (codes "--skip"))
skip_texts [] (some s) skip = (parse_comma_separated s, env_var (codes "PREK_SKIP"))
skip_texts [] none (some s) = (parse_comma_separated s, env_var (codes "SKIP"))
skip_texts [] none none = ([], cli_arg)

-- `Itertools::unique`: the texts, each once, where it stands first.
unfoldable unique : List Bytes → List Bytes → List Bytes
unique seen [] = []
unique seen (text ∷ texts) = elim (has_text seen text) [
  | true ↦ unique seen texts
  | false ↦ text ∷ unique (text ∷ seen) texts
]

pub load_skips :
    List Bytes
    → Option Bytes
    → Option Bytes
    → List Component
    → (Bytes → Option (List Component))
    → ParseError ⊎ List Selector
unfolding parse_comma_separated unique parse_all
load_skips cli_skips prek_skip skip workspace_root absolute_in =
    let (skips, source) = skip_texts cli_skips prek_skip skip in
    parse_all absolute_in workspace_root source (unique [] skips)

abbrev loaded : List Selector → ParseError ⊎ List Selector → ParseError ⊎ Selectors
loaded includes (inl e) = inl e
loaded includes (inr skips) = inr (record { includes = includes; skips = skips })

pub load :
    List Component
    → Option Bytes
    → Option Bytes
    → List Bytes
    → List Bytes
    → List Component
    → ParseError ⊎ Selectors
unfolding load_skips real_absolute
load cwd prek_skip skip includes skips workspace_root =
    elim (parse_all (real_absolute cwd) workspace_root cli_arg (unique [] includes)) [
      | inl e ↦ inl e
      | inr parsed ↦
          loaded parsed (load_skips skips prek_skip skip workspace_root (real_absolute cwd))
    ]

abbrev from_parsed : ParseError ⊎ Selector → ParseError ⊎ Selectors
from_parsed (inl e) = inl e
from_parsed (inr selector) = inr (record { includes = selector ∷ []; skips = [] })

pub from_include : List Component → Bytes → List Component → ParseError ⊎ Selectors
unfolding parse_single_selector real_absolute
from_include cwd text workspace_root =
    from_parsed (parse_single_selector (real_absolute cwd) text workspace_root cli_arg)
