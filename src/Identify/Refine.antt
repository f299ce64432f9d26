-- ===== src/Identify/Refine.antt =====
-- The words implement sets of ids.
use prek.Prelude.{
  ℕ, ◌≤◌, ◌<◌, ◌≡◌, sym, ap, ap₂, ◌∙◌, ◌↔◌, inl, inr, Bool, true, false, not, ◌&&◌, ◌||◌, none,
  some, arith, ltb, ◌==◌, ltb→lt, ltb→le, Bool-cases,
}
use prek.Identify.Tags.{all_tags_len}
use prek.Identify.Sets.{
  IsTagSet, member_set_bit, set_bit-IsTagSet, member_union, union-IsTagSet, is_disjoint_iff,
  is_subset_iff, is_empty_iff,
}
use prek.Identify.{TagSet, set_bit, insert, is_disjoint, is_subset, is_empty, bitor_assign, member}

-- A set of tags stands for the set of ids that a test describes.
pub record Represents (s : TagSet) (p : ℕ → Bool) : Type 0 where
  pub valid : IsTagSet s
  pub same : (i : ℕ) → member s i ≡ p i

-- What `insert` owes: the panic on a number that is no id, else the set with the id in it.
abbrev pub Inserted : TagSet → (ℕ → Bool) → ℕ → Type 0
Inserted s p id = elim (insert s id) [
  | none ↦ all_tags_len ≤ id
  | some more ↦ (id < all_tags_len) × Represents more (λ i. p i || i == id)
]

pub set_bit-Represents :
    (s : TagSet) (p : ℕ → Bool) (id : ℕ)
    → id < all_tags_len
    → Represents s p
    → Represents (record { bits = set_bit id s.bits }) (λ i. p i || i == id)
set_bit-Represents s p id lt h = record {
  valid = set_bit-IsTagSet s id lt h.valid;
  same = λ i.
      member_set_bit s.bits id i h.valid.counted (omega arith) ∙ ap (λ b. b || i == id) (h.same i);
}

insert-Inserted : (s : TagSet) (p : ℕ → Bool) (id : ℕ) → Represents s p → Inserted s p id
unfolding insert
insert-Inserted s p id h = elim (Bool-cases (ltb id all_tags_len)) [
  | inl lt ↦
      rw (Inserted, lt)
        (ltb→lt id all_tags_len lt, set_bit-Represents s p id (ltb→lt id all_tags_len lt) h)
  | inr ge ↦ rw (Inserted, ge) (ltb→le id all_tags_len ge)
]

pub union-Represents :
    (a b : TagSet) (p q : ℕ → Bool)
    → Represents a p
    → Represents b q
    → Represents (bitor_assign a b) (λ i. p i || q i)
union-Represents a b p q ha hb = record {
  valid = union-IsTagSet a b ha.valid hb.valid;
  same = λ i. member_union a b i ha.valid hb.valid ∙ ap₂ ◌||◌ (ha.same i) (hb.same i);
}

replaced :
    (f g : ℕ → Bool) (b : Bool)
    → ((i : ℕ) → f i ≡ g i)
    → (b ≡ true) ↔ ((i : ℕ) → f i ≡ false)
    → (b ≡ true) ↔ ((i : ℕ) → g i ≡ false)
replaced f g b same iff = (λ e i. sym (same i) ∙ iff.0 e i, λ h. iff.1 (λ i. same i ∙ h i))

-- If two arrays of words stand for two sets of ids, then the operations on the words are those
-- on the sets: insert panics exactly on a number that is no id and else adds the id, |= is the
-- union, is_disjoint, is_subset and is_empty answer what they ask of the sets; every result
-- has six words below 2 ^ 64 and no digit that is no id.
pub operations-Represents :
    (a b : TagSet) (p q : ℕ → Bool) (id : ℕ)
    → Represents a p
    → Represents b q
    → Inserted a p id
      × Represents (bitor_assign a b) (λ i. p i || q i)
      × ((is_disjoint a b ≡ true) ↔ ((i : ℕ) → p i && q i ≡ false))
      × ((is_subset a b ≡ true) ↔ ((i : ℕ) → p i && not (q i) ≡ false))
      × ((is_empty a ≡ true) ↔ ((i : ℕ) → p i ≡ false))
operations-Represents a b p q id ha hb = (
  insert-Inserted a p id ha,
  union-Represents a b p q ha hb,
  replaced _ _ _ (λ i. ap₂ ◌&&◌ (ha.same i) (hb.same i)) (is_disjoint_iff a b ha.valid hb.valid),
  replaced _ _ _ (λ i. ap₂ (λ x y. x && not y) (ha.same i) (hb.same i))
      (is_subset_iff a b ha.valid hb.valid),
  replaced _ _ _ ha.same (is_empty_iff a ha.valid),
)
