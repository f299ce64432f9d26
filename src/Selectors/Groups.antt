-- ===== src/Selectors/Groups.antt =====
-- crates/prek/src/cli/run/selector.rs, `GroupFilters`, and crates/prek/src/config/priority.rs, the names of groups.
pub mod Matching
pub mod Accepted
pub mod Names
mod Tests
use prek.Prelude.{
  ℕ, zero, suc, ◌+◌, ◌-◌, ◌*◌, ◌/◌, ◌%◌, ◌^◌, ◌≤◌, ◌<◌, min, max, ◌≡◌, refl, sym, fun_ext, ap, ap₂,
  subst, ◌∙◌, ◌≢◌, ◌↔◌, ◌⊎◌, inl, inr, Bool, true, false, not, ◌&&◌, ◌||◌, Option, none, some, List,
  [], ◌∷◌, ◌++◌, map, append_assoc, append-nil, arith, ltb, leb, ◌==◌, if◌then◌else◌, ltb→lt,
  ltb→le, lt→ltb, leb→le, ==_iff, Bool-cases, Option-cases, Bytes, codes, length, get_elem?, take,
  drop, any, all, length-append, take-append-drop, length-take, length-drop, take-split,
  take-length, take-append, take-append_add, drop-append_add, take-take, drop-take, drop-length,
  drop-drop, eq_bytes, eq_bytes_iff, All, All-append, All-append_inv, All-drop,
}
use prek.Selectors.{Hook, ConfiguredHook, FilterUsage, scan, is_empty}

pub data GroupSelector : Type 0 where
  named : Bytes → GroupSelector
  ungrouped : GroupSelector

abbrev pub ungrouped_group : Bytes
ungrouped_group = codes "@ungrouped"

abbrev in_range : ℕ → ℕ → ℕ → Bool
in_range low high c = leb low c && leb c high

-- `char::is_whitespace`, on a code point: the Unicode property White_Space.
unfoldable pub is_whitespace : ℕ → Bool
is_whitespace c =
    in_range 9 13 c
    || (c == 32
        || (c == 0x85
            || (c == 0xa0
                || (c == 0x1680
                    || (in_range 0x2000 0x200a c
                        || (c == 0x2028
                            || (c == 0x2029 || (c == 0x202f || (c == 0x205f || c == 0x3000)))))))))

-- The three reasons that a name is refused for.
pub data Reason : Type 0 where
  cannot_be_empty cannot_contain_whitespace uses_the_reserved_prefix : Reason

pub validate_name : Bytes → Option Reason
unfolding is_whitespace
validate_name name =
    if is_empty name
    then some cannot_be_empty
    else if any is_whitespace name
    then some cannot_contain_whitespace
    else none

abbrev starts_with_at : Bytes → Bool
starts_with_at [] = false
starts_with_at (c ∷ name) = c == b'@'

pub validate_group_name : Bytes → Option Reason
unfolding validate_name
validate_group_name name = elim (validate_name name) [
  | some reason ↦ some reason
  | none ↦ if starts_with_at name then some uses_the_reserved_prefix else none
]

abbrev pub or_named : Bytes → Option Reason → Reason ⊎ GroupSelector
or_named group none = inr (named group)
or_named group (some reason) = inl reason

pub parse_group : Bytes → Reason ⊎ GroupSelector
unfolding validate_group_name
parse_group group =
    if eq_bytes group ungrouped_group
    then inr ungrouped
    else or_named group (validate_group_name group)

-- `Display`
abbrev pub display_group : GroupSelector → Bytes
display_group (named group) = group
display_group ungrouped = ungrouped_group

abbrev pub has_text : List Bytes → Bytes → Bool
has_text seen text = any (λ t. eq_bytes t text) seen

abbrev pub push_selector {ℓ} :
    {E : Type ℓ} → GroupSelector → E ⊎ List GroupSelector → E ⊎ List GroupSelector
push_selector selector (inl e) = inl e
push_selector selector (inr selectors) = inr (selector ∷ selectors)

-- The closure `parse_groups`; an error has the flag with the group, and the reason.
pub parse_groups : Bytes → List Bytes → List Bytes → (Bytes × Reason) ⊎ List GroupSelector
unfolding parse_group
parse_groups flag seen [] = inr []
parse_groups flag seen (group ∷ groups) = elim (parse_group group) [
  | inl reason ↦ inl (flag ++ (b'=' ∷ group), reason)
  | inr selector ↦ elim (has_text seen group) [
    | true ↦ parse_groups flag seen groups
    | false ↦ push_selector selector (parse_groups flag (group ∷ seen) groups)
  ]
]

pub record GroupFilters : Type 0 where
  pub include_any : List GroupSelector
  pub require_all : List GroupSelector
  pub exclude_any : List GroupSelector

pub parse : List Bytes → List Bytes → List Bytes → (Bytes × Reason) ⊎ GroupFilters
unfolding parse_groups
parse include_any require_all exclude_any = elim (parse_groups (codes "--group") [] include_any) [
  | inl e ↦ inl e
  | inr includes ↦ elim (parse_groups (codes "--require-group") [] require_all) [
    | inl e ↦ inl e
    | inr requirements ↦ elim (parse_groups (codes "--no-group") [] exclude_any) [
      | inl e ↦ inl e
      | inr excludes ↦
          inr
            (record { include_any = includes; require_all = requirements; exclude_any = excludes })
    ]
  ]
]

abbrev pub has_filters : GroupFilters → Bool
has_filters f =
    not (is_empty f.include_any) || (not (is_empty f.require_all) || not (is_empty f.exclude_any))

pub matches_groups : GroupFilters → FilterUsage → (GroupSelector → Bool) → FilterUsage × Bool
unfolding scan
matches_groups f usage contains_group =
    let (excludes, excluded) =
      scan contains_group contains_group 0 f.exclude_any usage.excludes false in
    let (includes, included) =
      scan contains_group contains_group 0 f.include_any usage.includes (is_empty f.include_any) in
    let (requirements, missing) =
      scan contains_group (λ g. not (contains_group g)) 0 f.require_all usage.requirements false in
    (
      record { includes = includes; requirements = requirements; excludes = excludes },
      included && (not missing && not excluded),
    )

abbrev pub hook_contains : Hook → GroupSelector → Bool
hook_contains hook (named group) = has_text hook.groups group
hook_contains hook ungrouped = is_empty hook.groups

pub matches_hook_groups : GroupFilters → FilterUsage → Hook → FilterUsage × Bool
unfolding matches_groups
matches_hook_groups f usage hook = matches_groups f usage (hook_contains hook)

abbrev groups_contain : Option (List Bytes) → GroupSelector → Bool
groups_contain none (named group) = false
groups_contain none ungrouped = true
groups_contain (some groups) (named group) = has_text groups group
groups_contain (some groups) ungrouped = is_empty groups

pub matches_configured_groups : GroupFilters → FilterUsage → ConfiguredHook → FilterUsage × Bool
unfolding matches_groups
matches_configured_groups f usage hook = matches_groups f usage (groups_contain hook.groups)
