-- ===== src/Selectors/Parse/RoundTrip.antt =====
-- crates/prek/src/cli/run/selector.rs, `Display` of a selector and `parse_single_selector`: the parse of what is shown.
mod Split
use prek.Prelude.{
  ℕ, zero, suc, ◌+◌, ◌-◌, ◌*◌, ◌/◌, ◌%◌, ◌^◌, ◌≤◌, ◌<◌, min, max, ◌≡◌, refl, sym, fun_ext, ap, ap₂,
  subst, ◌∙◌, ◌≢◌, ◌↔◌, ◌⊎◌, inl, inr, Bool, true, false, not, ◌&&◌, ◌||◌, Option, none, some, List,
  [], ◌∷◌, ◌++◌, map, append_assoc, append-nil, arith, ltb, leb, ◌==◌, if◌then◌else◌, ltb→lt,
  ltb→le, lt→ltb, leb→le, ==_iff, Bool-cases, Option-cases, Bytes, codes, length, get_elem?, take,
  drop, any, all, length-append, take-append-drop, length-take, length-drop, take-split,
  take-length, take-append, take-append_add, drop-append_add, take-take, drop-take, drop-length,
  drop-drop, eq_bytes, eq_bytes_iff, All, All-append, All-append_inv, All-drop,
}
use mathlib.Core.List.{map-append}
use prek.Filter.{FilePath}
use prek.Paths.{Component, root_dir, normal, clean_path}
use prek.Paths.Text.{split, split_once, contains, absolute, parts_of, slash}
use prek.Paths.Clean.{IsRelative, clean_path-normal}
use prek.Selectors.{
  SelectorSource, SelectorExpr, by_hook_id, project_prefix, project_hook, Selector, is_empty,
}
use prek.Selectors.Parse.{
  colon, ParseError, real_absolute, normalize_path, parse_parts, parse_whole, parse_single_selector,
  join_path, display,
}
use prek.Selectors.Parse.Inside.{normalize_path_iff}
use Split.{
  is_name, contains-append, split_once-found, split_once-none, parts_of-join_path,
  parts_of-join_path-slash, join_path-contains-colon, join_path-first, absolute-relative,
}

-- A selector that is shown without loss: names of files without a colon, and a hook that is not
-- taken for a path.
abbrev pub IsShown : SelectorExpr → Type 0
IsShown (by_hook_id hook_id) =
    (is_empty hook_id ≡ false)
    × (contains colon hook_id ≡ false)
    × (contains slash hook_id ≡ false)
    × (eq_bytes hook_id (codes ".") ≡ false)
IsShown (project_prefix path) = all is_name path ≡ true
IsShown (project_hook path hook_id) = (all is_name path ≡ true) × (is_empty hook_id ≡ false)

map-normal-IsRelative : (ws : FilePath) → All IsRelative (map normal ws)
map-normal-IsRelative [] = tt
map-normal-IsRelative (w ∷ ws) = (tt, map-normal-IsRelative ws)

real_absolute-text :
    (ws p : FilePath) (text : Bytes)
    → absolute (root_dir ∷ map normal ws) text ≡ some (root_dir ∷ map normal ws ++ map normal p)
    → real_absolute (root_dir ∷ map normal ws) text ≡ some (root_dir ∷ map normal (ws ++ p))
unfolding real_absolute
real_absolute-text ws p text h =
    ground (arith, h, map-append normal ws p, clean_path-normal (ws ++ p))

normalize_path-text :
    (ws p : FilePath) (text : Bytes)
    → absolute (root_dir ∷ map normal ws) text ≡ some (root_dir ∷ map normal ws ++ map normal p)
    → normalize_path (real_absolute (root_dir ∷ map normal ws)) text (root_dir ∷ map normal ws)
      ≡ inr p
normalize_path-text ws p text h =
    (normalize_path_iff (map normal ws) (map-normal-IsRelative ws) ws text p).1
      (real_absolute-text ws p text h)

-- The two parts around the colon.
parse_single_selector-parts :
    (absolute_in : Bytes → Option (List Component)) (root : List Component)
    (source : SelectorSource) (a b : Bytes)
    → contains colon a ≡ false
    → parse_single_selector absolute_in (a ++ colon ∷ b) root source
      ≡ parse_parts absolute_in (a ++ colon ∷ b) root source a b
unfolding parse_single_selector
parse_single_selector-parts absolute_in root source a b h =
    ground (arith, split_once-found colon a b)

parse_single_selector-whole :
    (absolute_in : Bytes → Option (List Component)) (root : List Component)
    (source : SelectorSource) (text : Bytes)
    → contains colon text ≡ false
    → parse_single_selector absolute_in text root source ≡ parse_whole absolute_in text root source
unfolding parse_single_selector
parse_single_selector-whole absolute_in root source text h =
    ground (arith, split_once-none colon text)

-- What a parse of a shown selector gives.
abbrev Parses : SelectorSource → FilePath → SelectorExpr → Type 0
Parses source ws e =
    parse_single_selector (real_absolute (root_dir ∷ map normal ws)) (display e)
      (root_dir ∷ map normal ws) source
    ≡ inr (record { source = source; original = display e; expr = e })

Parses-by_hook_id :
    (source : SelectorSource) (ws : FilePath) (id : Bytes)
    → IsShown (by_hook_id id)
    → Parses source ws (by_hook_id id)
unfolding parse_whole
Parses-by_hook_id source ws id (full, no_colon, no_slash, no_dot) =
    let root = root_dir ∷ map normal ws in
    parse_single_selector-whole (real_absolute root) root source id no_colon ∙ ground arith

absolute-join_path :
    (ws : FilePath) (name : Bytes) (path : FilePath)
    → all is_name (name ∷ path) ≡ true
    → absolute (root_dir ∷ map normal ws) (join_path (name ∷ path))
      ≡ some (root_dir ∷ map normal ws ++ map normal (name ∷ path))
absolute-join_path ws name path h =
    let text = join_path (name ∷ path) in
    let (full, no_slash) = join_path-first name path [] (ground arith) in
    ground (
      arith,
      append-nil text,
      absolute-relative (root_dir ∷ map normal ws) text,
      parts_of-join_path (name ∷ path),
    )

absolute-join_path-slash :
    (ws : FilePath) (name : Bytes) (path : FilePath)
    → all is_name (name ∷ path) ≡ true
    → absolute (root_dir ∷ map normal ws) (join_path (name ∷ path) ++ slash ∷ [])
      ≡ some (root_dir ∷ map normal ws ++ map normal (name ∷ path))
absolute-join_path-slash ws name path h =
    let text = join_path (name ∷ path) ++ slash ∷ [] in
    let (full, no_slash) = join_path-first name path (slash ∷ []) (ground arith) in
    ground
      (arith, absolute-relative (root_dir ∷ map normal ws) text, parts_of-join_path-slash name path)

parse_whole-path :
    (absolute_in : Bytes → Option (List Component)) (root : List Component)
    (source : SelectorSource) (text : Bytes) (path : FilePath)
    → contains slash text ≡ true
    → normalize_path absolute_in text root ≡ inr path
    → parse_whole absolute_in text root source
      ≡ inr (record { source = source; original = text; expr = project_prefix path })
unfolding parse_whole
parse_whole-path absolute_in root source text path h e = ground arith

parse_parts-path :
    (absolute_in : Bytes → Option (List Component)) (root : List Component)
    (source : SelectorSource) (input text id : Bytes) (path : FilePath)
    → is_empty id ≡ false
    → is_empty text ≡ false
    → normalize_path absolute_in text root ≡ inr path
    → parse_parts absolute_in input root source text id
      ≡ inr (record { source = source; original = input; expr = project_hook path id })
unfolding parse_parts
parse_parts-path absolute_in root source input text id path full some_text e = ground arith

Parses-project_prefix :
    (source : SelectorSource) (ws path : FilePath)
    → all is_name path ≡ true
    → Parses source ws (project_prefix path)
unfolding absolute eq_bytes
Parses-project_prefix source ws [] h =
    let root = root_dir ∷ map normal ws in
    let here = normalize_path-text ws [] (codes "./") refl in
    parse_single_selector-whole (real_absolute root) root source (codes "./") refl
    ∙ parse_whole-path (real_absolute root) root source (codes "./") [] refl here
Parses-project_prefix source ws (name ∷ path) h =
    let root = root_dir ∷ map normal ws in
    let text = join_path (name ∷ path) ++ slash ∷ [] in
    let here =
      normalize_path-text ws (name ∷ path) text (absolute-join_path-slash ws name path h) in
    let no_colon : contains colon text ≡ false = ground (
      arith,
      contains-append colon (join_path (name ∷ path)) (slash ∷ []),
      join_path-contains-colon (name ∷ path) h,
    ) in
    let has_slash : contains slash text ≡ true =
      ground (arith, contains-append slash (join_path (name ∷ path)) (slash ∷ [])) in
    parse_single_selector-whole (real_absolute root) root source text no_colon
    ∙ parse_whole-path (real_absolute root) root source text (name ∷ path) has_slash here

Parses-project_hook :
    (source : SelectorSource) (ws path : FilePath) (id : Bytes)
    → all is_name path ≡ true
    → is_empty id ≡ false
    → Parses source ws (project_hook path id)
unfolding absolute eq_bytes
Parses-project_hook source ws [] id h full =
    let root = root_dir ∷ map normal ws in
    let here = normalize_path-text ws [] (codes ".") refl in
    parse_single_selector-parts (real_absolute root) root source (codes ".") id refl
    ∙ parse_parts-path (real_absolute root) root source (codes ".:" ++ id) (codes ".") id [] full
        refl here
Parses-project_hook source ws (name ∷ path) id h full =
    let root = root_dir ∷ map normal ws in
    let text = join_path (name ∷ path) in
    let here = normalize_path-text ws (name ∷ path) text (absolute-join_path ws name path h) in
    let some_text : is_empty text ≡ false =
      ground (arith, join_path-first name path [], append-nil text) in
    parse_single_selector-parts (real_absolute root) root source text id
      (join_path-contains-colon (name ∷ path) h)
    ∙ parse_parts-path (real_absolute root) root source (text ++ colon ∷ id) text id (name ∷ path)
        full some_text here

-- In the root of the workspace, a selector whose names are names of files without a colon, and
-- whose hook is not empty nor taken for a path, is read back from the text that shows it.
pub display-parse :
    (source : SelectorSource) (ws : FilePath) (e : SelectorExpr)
    → IsShown e
    → parse_single_selector
        (real_absolute (root_dir ∷ map normal ws))
        (display e)
        (root_dir ∷ map normal ws)
        source
      ≡ inr (record { source = source; original = display e; expr = e })
display-parse source ws (by_hook_id id) h = Parses-by_hook_id source ws id h
display-parse source ws (project_prefix path) h = Parses-project_prefix source ws path h
display-parse source ws (project_hook path id) (h, full) =
    Parses-project_hook source ws path id h full
