-- ===== src/Identify/Sets.antt =====
-- The sets of tags as sets of ids.
use Prim.Native.Nat.{bit_and}
use prek.Prelude.{
  ℕ, ◌+◌, ◌*◌, ◌/◌, ◌%◌, ◌^◌, ◌≤◌, ◌<◌, ◌≡◌, refl, sym, ap, ap₂, ◌∙◌, ◌↔◌, inl, inr, Bool, true,
  false, not, ◌&&◌, ◌||◌, List, arith, ◌==◌, ==_iff, Bool-cases, length, All,
}
use prek.Identify.Bits.{
  has_bit, has_bit-bit_and, has_bit-bit_or, has_bit-complement, shifted-has_bit, shifted_lt,
  zero-has_bit, no_bit-zero, bit_and_le, complement,
}
use prek.Identify.Tags.{all_tags_len}
use prek.Identify.Words.{
  IsWord, word-or_at, length-or_at, or_at-words, word-or_words, length-or_words, or_words-words,
  word_lt, disjoint_words_iff, subset_words_iff, empty_words_iff, member_at_digit,
}
use prek.Identify.{
  TagSet, word, set_bit, is_disjoint, is_subset, is_empty, bitor_assign, empty_set, member,
  member_at,
}

-- The array of a set: its words, and no digit that is no id.
pub record IsTagSet (s : TagSet) : Type 0 where
  pub counted : length s.bits ≡ 6
  pub words : All IsWord s.bits
  pub ids : (i : ℕ) → all_tags_len ≤ i → member s i ≡ false

same_digit : (i id : ℕ) → i / 64 == id / 64 ≡ true → (i % 64 == id % 64) ≡ (i == id)
same_digit i id e = ground (arith, (==_iff (i / 64) (id / 64)).0 e)

other_word : (i id : ℕ) → i / 64 == id / 64 ≡ false → (i == id) ≡ false
other_word i id e = ground arith

||-false : (b : Bool) → b || false ≡ b
||-false true = refl
||-false false = refl

pub member_set_bit :
    (bits : List ℕ) (id i : ℕ)
    → length bits ≡ 6
    → id < 384
    → member_at (set_bit id bits) i ≡ member_at bits i || i == id
unfolding member_at set_bit
member_set_bit bits id i c h =
    rw (word-or_at (id / 64) (2 ^ (id % 64)) bits (i / 64) (omega arith))
      (elim (Bool-cases (i / 64 == id / 64)) [
        | inl same ↦
            rw
              (
                same,
                has_bit-bit_or (i % 64) (word bits (i / 64)) (2 ^ (id % 64)),
                shifted-has_bit (id % 64) (i % 64),
              )
              (ap (λ t. has_bit (word bits (i / 64)) (i % 64) || t) (same_digit i id same))
        | inr other ↦
            rw (other, other_word i id other)
              (sym (||-false (has_bit (word bits (i / 64)) (i % 64))))
      ])

pub member_union :
    (a b : TagSet) (i : ℕ)
    → IsTagSet a
    → IsTagSet b
    → member (bitor_assign a b) i ≡ member a i || member b i
unfolding member_at
member_union a b i ha hb =
    rw (word-or_words a.bits b.bits (i / 64) (ha.counted ∙ sym hb.counted))
      (has_bit-bit_or (i % 64) (word a.bits (i / 64)) (word b.bits (i / 64)))

zero_digit : (w i : ℕ) → w ≡ 0 → has_bit w i ≡ false
zero_digit w i e = ap (λ t. has_bit t i) e ∙ zero-has_bit i

pub is_disjoint_iff :
    (a b : TagSet)
    → IsTagSet a
    → IsTagSet b
    → (is_disjoint a b ≡ true) ↔ ((i : ℕ) → member a i && member b i ≡ false)
is_disjoint_iff a b ha hb =
    let loop = disjoint_words_iff a.bits b.bits (ha.counted ∙ sym hb.counted) in
    (
      λ e i.
          unfold member_at in
          sym (has_bit-bit_and (i % 64) (word a.bits (i / 64)) (word b.bits (i / 64)))
          ∙ zero_digit _ (i % 64) (loop.0 e (i / 64)),
      λ f. loop.1 (λ j.
          let lt = word_lt a.bits j ha.words in
          let le = bit_and_le 64 (word a.bits j) (word b.bits j) lt in
          no_bit-zero 64 (bit_and (word a.bits j) (word b.bits j)) (omega arith) (λ r h.
            has_bit-bit_and r (word a.bits j) (word b.bits j)
            ∙ ap₂ ◌&&◌ (sym (member_at_digit a.bits j r h)) (sym (member_at_digit b.bits j r h))
            ∙ f (j * 64 + r))),
    )

pub is_subset_iff :
    (a b : TagSet)
    → IsTagSet a
    → IsTagSet b
    → (is_subset a b ≡ true) ↔ ((i : ℕ) → member a i && not (member b i) ≡ false)
is_subset_iff a b ha hb =
    let loop = subset_words_iff a.bits b.bits (ha.counted ∙ sym hb.counted) in
    (
      λ e i.
          unfold member_at in
          ap (λ t. has_bit (word a.bits (i / 64)) (i % 64) && t)
            (sym (
              has_bit-complement 64 (i % 64) (word b.bits (i / 64))
                (word_lt b.bits (i / 64) hb.words) (omega arith)))
          ∙ sym (
              has_bit-bit_and (i % 64) (word a.bits (i / 64))
                (complement 64 (word b.bits (i / 64))))
          ∙ zero_digit _ (i % 64) (loop.0 e (i / 64)),
      λ f. loop.1 (λ j.
          let lt = word_lt a.bits j ha.words in
          let le = bit_and_le 64 (word a.bits j) (complement 64 (word b.bits j)) lt in
          no_bit-zero 64 (bit_and (word a.bits j) (complement 64 (word b.bits j))) (omega arith)
            (λ r h.
              has_bit-bit_and r (word a.bits j) (complement 64 (word b.bits j))
              ∙ ap₂ ◌&&◌ (sym (member_at_digit a.bits j r h)) (
                  has_bit-complement 64 r (word b.bits j) (word_lt b.bits j hb.words) h
                  ∙ ap not (sym (member_at_digit b.bits j r h)))
              ∙ f (j * 64 + r))),
    )

pub is_empty_iff : (a : TagSet) → IsTagSet a → (is_empty a ≡ true) ↔ ((i : ℕ) → member a i ≡ false)
is_empty_iff a ha =
    let loop = empty_words_iff a.bits in
    (
      λ e i. unfold member_at in zero_digit _ (i % 64) (loop.0 e (i / 64)),
      λ f. loop.1 (λ j.
          no_bit-zero 64 (word a.bits j) (word_lt a.bits j ha.words)
            (λ r h. sym (member_at_digit a.bits j r h) ∙ f (j * 64 + r))),
    )

zero_words : (j : ℕ) → word empty_set.bits j ≡ 0
zero_words j = (empty_words_iff empty_set.bits).0 refl j

pub empty_set_members : (i : ℕ) → member empty_set i ≡ false
unfolding member_at has_bit
empty_set_members i = zero_digit (word empty_set.bits (i / 64)) (i % 64) (zero_words (i / 64))

pub empty_set-IsTagSet : IsTagSet empty_set
empty_set-IsTagSet = record {
  counted = refl;
  words =
      (omega arith, (omega arith, (omega arith, (omega arith, (omega arith, (omega arith, tt))))));
  ids = λ i _. empty_set_members i;
}

pub set_bit-IsTagSet :
    (s : TagSet) (id : ℕ)
    → id < all_tags_len
    → IsTagSet s
    → IsTagSet (record { bits = set_bit id s.bits })
set_bit-IsTagSet s id lt h = record {
  counted = unfold set_bit in (length-or_at (id / 64) (2 ^ (id % 64)) s.bits ∙ h.counted);
  words =
      unfold set_bit in
      or_at-words (id / 64) (2 ^ (id % 64)) s.bits (shifted_lt 64 (id % 64) (omega arith)) h.words;
  ids = λ i le. member_set_bit s.bits id i h.counted (omega arith) ∙ ground (arith, h.ids i le);
}

pub union-IsTagSet : (a b : TagSet) → IsTagSet a → IsTagSet b → IsTagSet (bitor_assign a b)
union-IsTagSet a b ha hb = record {
  counted = length-or_words a.bits b.bits ∙ ha.counted;
  words = or_words-words a.bits b.bits ha.words hb.words;
  ids = λ i le. member_union a b i ha hb ∙ ground (arith, ha.ids i le, hb.ids i le);
}
