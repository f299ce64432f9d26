-- ===== src/Filter/Types.antt =====
-- The filter of files by tags, over the sets of crates/prek-identify/src/lib.rs.
use prek.Prelude.{
  ℕ, zero, suc, ◌<◌, ◌≡◌, refl, ap, ◌∙◌, ◌↔◌, ◌⊎◌, inl, inr, Bool, true, false, not, ◌&&◌, Option,
  none, some, arith, ltb, ◌==◌, if◌then◌else◌, ltb→lt, ltb→le, ==_iff, Bool-cases,
}
use prek.Filter.{Tags, is_some_and, FileTagFilter, FileTagFilter_matches}
use prek.Identify.{TagSet, is_subset, is_disjoint, is_empty, member}
use prek.Identify.Tags.{all_tags_len}
use prek.Identify.Sets.{IsTagSet, is_subset_iff, is_disjoint_iff, is_empty_iff}

abbrev pub identify : Tags
identify = record {
  TagSet = TagSet;
  is_subset = is_subset;
  is_disjoint = is_disjoint;
  is_empty = is_empty;
}

abbrev pub IsValid : Option TagSet → Type 0
IsValid none = Unit
IsValid (some s) = IsTagSet s

-- Every tag of `types` is one of the file's.
abbrev pub HasAll : Option TagSet → TagSet → Type 0
HasAll none t = Unit
HasAll (some s) t = (i : ℕ) → member s i && not (member t i) ≡ false

-- A tag of `types_or` is one of the file's, unless there are none.
abbrev pub HasAny : Option TagSet → TagSet → Type 0
HasAny none t = Unit
HasAny (some s) t = ((i : ℕ) → member s i ≡ false) ⊎ ((i : ℕ) × (member s i && member t i ≡ true))

-- No tag of `exclude_types` is one of the file's.
abbrev pub HasNone : Option TagSet → TagSet → Type 0
HasNone none t = Unit
HasNone (some s) t = (i : ℕ) → member s i && member t i ≡ false

find_below : (p : ℕ → Bool) (n : ℕ) → ((i : ℕ) × (p i ≡ true)) ⊎ ((i : ℕ) → i < n → p i ≡ false)
find_below p zero = inr (λ i lt. absurd (omega arith))
find_below p (suc n) = elim (Bool-cases (p n)) [
  | inl here ↦ inl (n, here)
  | inr not_here ↦ elim (find_below p n) [
    | inl found ↦ inl found
    | inr missing ↦ inr (λ i lt. elim (Bool-cases (i == n)) [
      | inl same ↦ ap p ((==_iff i n).0 same) ∙ not_here
      | inr other ↦ missing i (ground arith)
    ])
  ]
]

shared_tag :
    (s t : TagSet)
    → IsTagSet s
    → IsTagSet t
    → is_disjoint s t ≡ false
    → (i : ℕ) × (member s i && member t i ≡ true)
shared_tag s t hs ht e = elim (find_below (λ i. member s i && member t i) all_tags_len) [
  | inl found ↦ found
  | inr missing ↦
      let disjoint = (is_disjoint_iff s t hs ht).1 (λ i. elim (Bool-cases (ltb i all_tags_len)) [
        | inl below ↦ missing i (ltb→lt i all_tags_len below)
        | inr above ↦ ap (λ b. b && member t i) (hs.ids i (ltb→le i all_tags_len above))
      ]) in
      absurd (ground (arith, disjoint, e))
]

all_iff :
    (o : Option TagSet) (t : TagSet)
    → IsValid o
    → IsTagSet t
    → (is_some_and identify o (λ s. not (is_subset s t)) ≡ false) ↔ HasAll o t
all_iff none t h ht = (λ _. tt, λ _. refl)
all_iff (some s) t h ht =
    (λ e. (is_subset_iff s t h ht).0 (ground arith), λ f. ap not ((is_subset_iff s t h ht).1 f))

any_iff :
    (o : Option TagSet) (t : TagSet)
    → IsValid o
    → IsTagSet t
    → (is_some_and identify o (λ s. not (is_empty s) && is_disjoint s t) ≡ false) ↔ HasAny o t
any_iff none t h ht = (λ _. tt, λ _. refl)
any_iff (some s) t h ht = (
  λ e. elim (Bool-cases (is_empty s)) [
    | inl empty ↦ inl ((is_empty_iff s h).0 empty)
    | inr full ↦ inr (shared_tag s t h ht (ground arith))
  ],
  λ f. elim f [
    | inl empty ↦ ap (λ b. not b && is_disjoint s t) ((is_empty_iff s h).1 empty)
    | inr (i, both) ↦ elim (Bool-cases (is_disjoint s t)) [
      | inl disjoint ↦ absurd (ground (arith, both, (is_disjoint_iff s t h ht).0 disjoint i))
      | inr shared ↦ ground (arith, shared)
    ]
  ],
)

none_iff :
    (o : Option TagSet) (t : TagSet)
    → IsValid o
    → IsTagSet t
    → (is_some_and identify o (λ s. not (is_disjoint s t)) ≡ false) ↔ HasNone o t
none_iff none t h ht = (λ _. tt, λ _. refl)
none_iff (some s) t h ht =
    (λ e. (is_disjoint_iff s t h ht).0 (ground arith), λ f. ap not ((is_disjoint_iff s t h ht).1 f))

guards :
    (a b c : Bool)
    → ((if a then false else if b then false else if c then false else true) ≡ true)
      ↔ ((a ≡ false) × (b ≡ false) × (c ≡ false))
guards a b c = ground arith

matches_tests :
    (f : FileTagFilter identify) (t : TagSet)
    → (FileTagFilter_matches identify f t ≡ true) ↔ (
        (is_some_and identify f.all (λ s. not (is_subset s t)) ≡ false)
        × (is_some_and identify f.any (λ s. not (is_empty s) && is_disjoint s t) ≡ false)
        × (is_some_and identify f.exclude (λ s. not (is_disjoint s t)) ≡ false))
unfolding FileTagFilter_matches
matches_tests f t = guards _ _ _

-- Over well-formed sets of tags, a file passes the filter by types exactly if it has every tag
-- of types, a tag of types_or unless that set is empty, and no tag of exclude_types.
pub FileTagFilter_matches_iff :
    (f : FileTagFilter identify) (t : TagSet)
    → IsValid f.all
    → IsValid f.any
    → IsValid f.exclude
    → IsTagSet t
    → (FileTagFilter_matches identify f t ≡ true)
      ↔ (HasAll f.all t × HasAny f.any t × HasNone f.exclude t)
FileTagFilter_matches_iff f t ha hb hc ht =
    let tests = matches_tests f t in
    (
      λ e.
          let (a, b, c) = tests.0 e in
          (
            (all_iff f.all t ha ht).0 a,
            (any_iff f.any t hb ht).0 b,
            (none_iff f.exclude t hc ht).0 c,
          ),
      λ (a, b, c). tests.1 (
        (all_iff f.all t ha ht).1 a,
        (any_iff f.any t hb ht).1 b,
        (none_iff f.exclude t hc ht).1 c,
      ),
    )
