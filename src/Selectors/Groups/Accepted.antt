-- ===== src/Selectors/Groups/Accepted.antt =====
-- crates/prek/src/config/priority.rs, the names of groups, and crates/prek/src/cli/run/selector.rs,
-- `GroupSelector::parse`: which names are accepted, as what, and why the others are refused.
use prek.Prelude.{
  ℕ, ◌≤◌, ◌≡◌, refl, ap, ◌≢◌, ◌↔◌, ◌⊎◌, inl, inr, Bool, true, false, Option, none, some, [], ◌∷◌,
  arith, ◌==◌, if◌then◌else◌, Bool-cases, Bytes, codes, any, eq_bytes, eq_bytes_iff,
}
use prek.Selectors.Groups.{
  GroupSelector, named, ungrouped, ungrouped_group, is_whitespace, Reason, cannot_be_empty,
  cannot_contain_whitespace, uses_the_reserved_prefix, validate_group_name, or_named, parse_group,
}

-- The code points with the property White_Space.
abbrev pub IsWhite : ℕ → Type 0
IsWhite c =
    ((9 ≤ c) × (c ≤ 13))
    ⊎ ((c ≡ 32)
        ⊎ ((c ≡ 133)
            ⊎ ((c ≡ 160)
                ⊎ ((c ≡ 5760)
                    ⊎ (((8192 ≤ c) × (c ≤ 8202))
                        ⊎ ((c ≡ 8232)
                            ⊎ ((c ≡ 8233) ⊎ ((c ≡ 8239) ⊎ ((c ≡ 8287) ⊎ (c ≡ 12288))))))))))

abbrev pub HasWhite : Bytes → Type 0
HasWhite [] = ⊥
HasWhite (c ∷ name) = IsWhite c ⊎ HasWhite name

-- A group that stands for itself: it is not empty, and it has no white space and no "@" in front.
abbrev pub IsName : Bytes → Type 0
IsName [] = ⊥
IsName (c ∷ name) = (c ≢ b'@') × ¬ HasWhite (c ∷ name)

abbrev pub IsSelector : Bytes → GroupSelector → Type 0
IsSelector group (named name) = IsName group × (name ≡ group)
IsSelector group ungrouped = group ≡ codes "@ungrouped"

-- A group that may be given.
abbrev pub IsGroup : Bytes → Type 0
IsGroup group = (group ≡ codes "@ungrouped") ⊎ IsName group

-- A group that may not be given, for this reason.
abbrev pub IsRefused : Bytes → Reason → Type 0
IsRefused group cannot_be_empty = group ≡ []
IsRefused group cannot_contain_whitespace = HasWhite group
IsRefused group uses_the_reserved_prefix =
    (name : Bytes) × (group ≡ b'@' ∷ name) × (group ≢ codes "@ungrouped") × ¬ HasWhite group

is_whitespace_iff : (c : ℕ) → (is_whitespace c ≡ true) ↔ IsWhite c
unfolding is_whitespace
is_whitespace_iff c = ground arith

HasWhite-iff : (name : Bytes) → (any is_whitespace name ≡ true) ↔ HasWhite name
HasWhite-iff [] = ground arith
HasWhite-iff (c ∷ name) = ground (arith, is_whitespace_iff c, HasWhite-iff name)

pub IsSelector-IsGroup : (group : Bytes) (s : GroupSelector) → IsSelector group s → IsGroup group
IsSelector-IsGroup group (named name) (is, same) = inr is
IsSelector-IsGroup group ungrouped same = inl same

-- A reason or a selector for one group.
abbrev pub ParsesOne : Bytes → Reason ⊎ GroupSelector → Type 0
ParsesOne group (inl reason) = IsRefused group reason
ParsesOne group (inr selector) = IsSelector group selector

-- The verdict on a name that is not empty: with white space or without, with "@" in front or not.
abbrev verdict : Bool → Bool → Option Reason
verdict true at = some cannot_contain_whitespace
verdict false at = if at then some uses_the_reserved_prefix else none

verdict_tests :
    (white at : Bool)
    → elim (if white then some cannot_contain_whitespace else none) [
      | some reason ↦ some reason
      | none ↦ if at then some uses_the_reserved_prefix else none
    ]
      ≡ verdict white at
verdict_tests true at = refl
verdict_tests false at = refl

validate_cons :
    (c : ℕ) (name : Bytes)
    → validate_group_name (c ∷ name) ≡ verdict (any is_whitespace (c ∷ name)) (c == b'@')
unfolding validate_group_name
validate_cons c name = verdict_tests (any is_whitespace (c ∷ name)) (c == b'@')

verdict_cons :
    (c : ℕ) (name : Bytes) (white at : Bool)
    → c ∷ name ≢ codes "@ungrouped"
    → any is_whitespace (c ∷ name) ≡ white
    → (c == b'@') ≡ at
    → ParsesOne (c ∷ name) (or_named (c ∷ name) (verdict white at))
verdict_cons c name true at other w a = (HasWhite-iff (c ∷ name)).0 w
verdict_cons c name false true other w a = (
  name,
  ap (λ x. x ∷ name) (ground arith),
  other,
  λ white. absurd (ground (arith, (HasWhite-iff (c ∷ name)).1 white, w)),
)
verdict_cons c name false false other w a = (
  (λ e. ground arith, λ white. absurd (ground (arith, (HasWhite-iff (c ∷ name)).1 white, w))),
  refl,
)

validated :
    (group : Bytes)
    → group ≢ codes "@ungrouped"
    → ParsesOne group (or_named group (validate_group_name group))
validated [] other = unfold validate_group_name in refl
validated (c ∷ name) other = rw (validate_cons c name) (verdict_cons c name _ _ other refl refl)

pub parse_group-ParsesOne : (group : Bytes) → ParsesOne group (parse_group group)
unfolding parse_group
parse_group-ParsesOne group = elim (Bool-cases (eq_bytes group ungrouped_group)) [
  | inl same ↦ rw same ((eq_bytes_iff group ungrouped_group).0 same)
  | inr other ↦
      rw other (validated group (λ e. ground (arith, (eq_bytes_iff group ungrouped_group).1 e)))
]
