-- ===== src/Selectors/Groups/Names.antt =====
-- crates/prek/src/cli/run/selector.rs, `GroupFilters::parse`: the names of a flag, in order.
use prek.Prelude.{
  ◌≡◌, refl, ap, subst, ◌↔◌, ◌⊎◌, inl, inr, true, List, [], ◌∷◌, ◌++◌, arith, Bool-cases, Bytes,
  eq_bytes_iff, All,
}
use prek.Selectors.Groups.{
  GroupSelector, Reason, parse_group, has_text, push_selector, parse_groups,
}
use prek.Selectors.Groups.Accepted.{
  IsSelector, IsGroup, IsRefused, IsSelector-IsGroup, ParsesOne, parse_group-ParsesOne,
}

abbrev pub IsIn : Bytes → List Bytes → Type 0
IsIn text [] = ⊥
IsIn text (t ∷ texts) = (t ≡ text) ⊎ IsIn text texts

-- The texts that are not among the seen ones, each where it stands first.
abbrev pub AreFirsts : List Bytes → List Bytes → List Bytes → Type 0
AreFirsts seen [] kept = kept ≡ []
AreFirsts seen (text ∷ texts) kept =
    (IsIn text seen × AreFirsts seen texts kept)
    ⊎ (¬ IsIn text seen
        × ((rest : List Bytes) × (kept ≡ text ∷ rest) × AreFirsts (text ∷ seen) texts rest))

abbrev pub AreSelectors : List Bytes → List GroupSelector → Type 0
AreSelectors [] [] = Unit
AreSelectors [] (s ∷ selectors) = ⊥
AreSelectors (group ∷ groups) [] = ⊥
AreSelectors (group ∷ groups) (s ∷ selectors) = IsSelector group s × AreSelectors groups selectors

-- What a parse of groups promises.
abbrev pub ParsesTo :
    Bytes → List Bytes → List Bytes → (Bytes × Reason) ⊎ List GroupSelector → Type 0
ParsesTo flag seen groups (inl (text, reason)) =
    (before : List Bytes) × (group : Bytes) × (after : List Bytes) × (groups
      ≡ before ++ (group ∷ after))
    × All IsGroup before
    × IsRefused group reason
    × (text ≡ flag ++ (b'=' ∷ group))
ParsesTo flag seen groups (inr selectors) =
    (kept : List Bytes) × All IsGroup groups
    × AreFirsts seen groups kept
    × AreSelectors kept selectors

has_text_iff : (seen : List Bytes) (text : Bytes) → (has_text seen text ≡ true) ↔ IsIn text seen
has_text_iff [] text = ground arith
has_text_iff (t ∷ seen) text = ground (arith, eq_bytes_iff t text, has_text_iff seen text)

⊎-cases : {A B : Type 0} (s : A ⊎ B) → ((a : A) × (s ≡ inl a)) ⊎ ((b : B) × (s ≡ inr b))
⊎-cases (inl a) = inl (a, refl)
⊎-cases (inr b) = inr (b, refl)

refused_here :
    (flag : Bytes) (seen : List Bytes) (group : Bytes) (groups : List Bytes) (reason : Reason)
    → parse_group group ≡ inl reason
    → IsRefused group reason
    → ParsesTo flag seen (group ∷ groups) (parse_groups flag seen (group ∷ groups))
unfolding parse_groups
refused_here flag seen group groups reason e bad =
    rw (parse_groups, e) ([], group, groups, refl, tt, bad, refl)

module _ (flag : Bytes) (seen : List Bytes) (group : Bytes) (groups : List Bytes)
    (selector : GroupSelector) (e : parse_group group ≡ inr selector)
    (is : IsSelector group selector) where
  parsed_again :
      (out : (Bytes × Reason) ⊎ List GroupSelector)
      → IsIn group seen
      → ParsesTo flag seen groups out
      → ParsesTo flag seen (group ∷ groups) out
  parsed_again (inl (text, reason)) old (before, bad, after, split, good, why, same) = (
    group ∷ before,
    bad,
    after,
    ap (λ l. group ∷ l) split,
    (IsSelector-IsGroup group selector is, good),
    why,
    same,
  )
  parsed_again (inr selectors) old (kept, good, firsts, are) =
      (kept, (IsSelector-IsGroup group selector is, good), inl (old, firsts), are)

  parsed_first :
      (out : (Bytes × Reason) ⊎ List GroupSelector)
      → ¬ IsIn group seen
      → ParsesTo flag (group ∷ seen) groups out
      → ParsesTo flag seen (group ∷ groups) (push_selector selector out)
  parsed_first (inl (text, reason)) fresh (before, bad, after, split, good, why, same) = (
    group ∷ before,
    bad,
    after,
    ap (λ l. group ∷ l) split,
    (IsSelector-IsGroup group selector is, good),
    why,
    same,
  )
  parsed_first (inr selectors) fresh (kept, good, firsts, are) = (
    group ∷ kept,
    (IsSelector-IsGroup group selector is, good),
    inr (fresh, (kept, refl, firsts)),
    (is, are),
  )

  parsed_here :
      ParsesTo flag seen groups (parse_groups flag seen groups)
      → ParsesTo flag (group ∷ seen) groups (parse_groups flag (group ∷ seen) groups)
      → ParsesTo flag seen (group ∷ groups) (parse_groups flag seen (group ∷ groups))
  unfolding parse_groups
  parsed_here again first = elim (Bool-cases (has_text seen group)) [
    | inl old ↦
        rw (parse_groups, e, old)
          (parsed_again (parse_groups flag seen groups) ((has_text_iff seen group).0 old) again)
    | inr fresh ↦
        rw (parse_groups, e, fresh)
          (parsed_first (parse_groups flag (group ∷ seen) groups)
            (λ old. absurd (ground (arith, (has_text_iff seen group).1 old, fresh))) first)
  ]

-- If the names of groups parse, each is "@ungrouped" or is not empty and has no white space
-- and no "@" in front, and the selectors are one for each name that was not seen before, where
-- it stands first: for "@ungrouped" the one for hooks without a group, and for any other the
-- one with that name. If they do not, the names before the refused one may be given; the error
-- is about that name with its flag; and its reason fits: the name is empty, or it has white
-- space, or it has none, begins with "@" and is not "@ungrouped".
pub parse_groups-ParsesTo :
    (flag : Bytes) (seen groups : List Bytes)
    → ParsesTo flag seen groups (parse_groups flag seen groups)
parse_groups-ParsesTo flag seen [] = unfold parse_groups in ([], tt, refl, tt)
parse_groups-ParsesTo flag seen (group ∷ groups) = elim (⊎-cases (parse_group group)) [
  | inl (reason, e) ↦
      refused_here flag seen group groups reason e
        (subst (ParsesOne group) e (parse_group-ParsesOne group))
  | inr (selector, e) ↦
      parsed_here flag seen group groups selector e
        (subst (ParsesOne group) e (parse_group-ParsesOne group))
        (parse_groups-ParsesTo flag seen groups) (parse_groups-ParsesTo flag (group ∷ seen) groups)
]
