-- ===== src/Identify/RoundTrip.antt =====
-- A set of tags, listed and read again.
use prek.Prelude.{
  ℕ, zero, suc, ◌+◌, ◌*◌, ◌<◌, ◌≡◌, refl, sym, ap, ap₂, ◌∙◌, inl, inr, Bool, true, false, ◌&&◌,
  ◌||◌, Option, none, some, List, [], ◌∷◌, map, arith, ltb, leb, ◌==◌, if◌then◌else◌, ==_iff,
  Bool-cases, Bytes, length, any, All,
}
use prek.Identify.Bits.{has_bit, has_bit-injective}
use prek.Identify.Tags.{all_tags_len}
use prek.Identify.Words.{IsWord, member_at_digit}
use prek.Identify.Sets.{IsTagSet, empty_set_members, empty_set-IsTagSet}
use prek.Identify.Ids.{tag_id-name_at}
use prek.Identify.Range.{ids_from, ids_from_bounded}
use prek.Identify.Iter.{ids, collect-iter}
use prek.Identify.Reading.{
  &&-false, is_known_found, first_unknown, has_name, has_name_cons, ReadAs, visit_seq_from,
  first_unknown_known, first_unknown_nil,
}
use prek.Identify.{TagSet, word, empty_set, member, name_at, visit_seq, Read, read, collect, iter}

words_same :
    (us vs : List ℕ)
    → length us ≡ length vs
    → All IsWord us
    → All IsWord vs
    → ((j r : ℕ) → r < 64 → has_bit (word us j) r ≡ has_bit (word vs j) r)
    → us ≡ vs
words_same [] [] h p q f = refl
words_same [] (v ∷ vs) h p q f = absurd (omega arith)
words_same (u ∷ us) [] h p q f = absurd (omega arith)
words_same (u ∷ us) (v ∷ vs) h (pu, p) (qv, q) f =
    ap₂ ◌∷◌ (has_bit-injective 64 u v pu qv (f 0))
      (words_same us vs (omega arith) p q (λ j. f (suc j)))

-- Sets of the same ids are equal.
tag_set_same :
    (s t : TagSet) → IsTagSet s → IsTagSet t → ((i : ℕ) → member s i ≡ member t i) → s ≡ t
tag_set_same s t hs ht f =
    ap (λ bits. record { bits = bits })
      (words_same s.bits t.bits (hs.counted ∙ sym ht.counted) hs.words ht.words (λ j r lt.
        sym (member_at_digit s.bits j r lt) ∙ f (j * 64 + r) ∙ member_at_digit t.bits j r lt))

names_known : (ks : List ℕ) → All (λ k. k < all_tags_len) ks → first_unknown (map name_at ks) ≡ none
names_known [] h = first_unknown_nil
names_known (k ∷ ks) (lt, h) =
    first_unknown_known (name_at k) (map name_at ks)
      (is_known_found (name_at k) k (tag_id-name_at k lt))
    ∙ names_known ks h

has_name-names :
    (ks : List ℕ) (i : ℕ)
    → All (λ k. k < all_tags_len) ks
    → has_name (map name_at ks) i ≡ any (λ k. i == k) ks
has_name-names [] i h = unfold has_name in &&-false (ltb i all_tags_len)
has_name-names (k ∷ ks) i (lt, h) =
    has_name_cons (name_at k) (map name_at ks) k i refl lt
    ∙ ap (λ b. i == k || b) (has_name-names ks i h)

any_guarded :
    (b : Bool) (x : ℕ) (xs : List ℕ) (i : ℕ)
    → any (λ k. i == k) (if b then x ∷ xs else xs) ≡ (b && (i == x)) || any (λ k. i == k) xs
any_guarded true x xs i = refl
any_guarded false x xs i = refl

any-ids_from :
    (p : ℕ → Bool) (start n i : ℕ)
    → any (λ k. i == k) (ids_from p start n) ≡ (leb start i && ltb i (start + n)) && p i
unfolding ids_from
any-ids_from p start zero i = ground arith
any-ids_from p start (suc n) i =
    any_guarded (p start) start (ids_from p (suc start) n) i
    ∙ ap (λ b. (p start && (i == start)) || b) (any-ids_from p (suc start) n i)
    ∙ elim (Bool-cases (i == start)) [
      | inl here ↦ let same = ap p ((==_iff i start).0 here) in ground arith
      | inr later ↦ ground arith
    ]

ids_members : (s : TagSet) (i : ℕ) → IsTagSet s → has_name (map name_at (ids s)) i ≡ member s i
ids_members s i h =
    has_name-names (ids s) i (ids_from_bounded (member s) 0 all_tags_len all_tags_len (omega arith))
    ∙ any-ids_from (member s) 0 all_tags_len i
    ∙ ground (arith, h.ids i)

read_back :
    (s : TagSet) (r : Read) (o : Option Bytes)
    → IsTagSet s
    → o ≡ none
    → ReadAs (λ _. false) (map name_at (ids s)) o r
    → r ≡ read s
read_back s r (some tag) h e q = absurd (ground (arith, e))
read_back s r none h e (t, same, rep) =
    same ∙ ap read (tag_set_same t s rep.valid h (λ i. rep.same i ∙ ids_members s i h))

-- The names that the iterator over a set of tags yields are read back as the same set.
pub visit_seq-collect :
    (s : TagSet)
    → IsTagSet s
    → (tags : List Bytes) × (collect (suc all_tags_len) (iter s) ≡ some tags)
      × (visit_seq empty_set tags ≡ read s)
visit_seq-collect s h = (
  map name_at (ids s),
  collect-iter s h,
  read_back s _ (first_unknown (map name_at (ids s))) h
      (names_known (ids s) (ids_from_bounded (member s) 0 all_tags_len all_tags_len (omega arith)))
      (visit_seq_from empty_set (λ _. false) (map name_at (ids s))
        (record { valid = empty_set-IsTagSet; same = empty_set_members })),
)
