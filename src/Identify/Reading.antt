-- ===== src/Identify/Reading.antt =====
-- Reading a set of tags from names.
use prek.Prelude.{
  ℕ, zero, suc, ◌<◌, ◌≡◌, refl, sym, ap, subst, ◌∙◌, inl, inr, Bool, true, false, ◌&&◌, ◌||◌,
  Option, none, some, List, [], ◌∷◌, arith, ltb, ◌==◌, if◌then◌else◌, ltb→lt, lt→ltb, ==_iff,
  Bool-cases, Option-cases, Bytes, length, get_elem?, any, eq_bytes, eq_bytes_iff,
}
use prek.Identify.Tags.{all_tags, all_tags_len}
use prek.Identify.Sets.{empty_set_members, empty_set-IsTagSet}
use prek.Identify.Ids.{all_tags-length, tag_id_sound, tag_id-name_at}
use prek.Identify.Iter.{all_tags-name_at}
use prek.Identify.Refine.{Represents, set_bit-Represents}
use prek.Identify.{
  TagSet, set_bit, insert, empty_set, name_at, tag_id, visit_seq, Read, read, unrecognized,
}

-- Whether the table has a tag.
pub is_known : Bytes → Bool
is_known tag = any (eq_bytes tag) all_tags

pub first_unknown : List Bytes → Option Bytes
first_unknown [] = none
first_unknown (tag ∷ seq) = let rest = first_unknown seq in if is_known tag then rest else some tag

-- Whether a sequence has the name of an id.
unfoldable pub has_name : List Bytes → ℕ → Bool
has_name seq id = ltb id all_tags_len && any (eq_bytes (name_at id)) seq

eq_bytes_same : (tag : Bytes) → eq_bytes tag tag ≡ true
eq_bytes_same tag = (eq_bytes_iff tag tag).1 refl

any_at :
    (tag : Bytes) (names : List Bytes)
    → any (eq_bytes tag) names ≡ true
    → (i : ℕ) × (i < length names) × (get_elem? names i ≡ some tag)
any_at tag [] e = ground arith
any_at tag (name ∷ names) e = elim (Bool-cases (eq_bytes tag name)) [
  | inl here ↦ (0, omega arith, ap some (sym ((eq_bytes_iff tag name).0 here)))
  | inr not_here ↦ let (i, lt, at) = any_at tag names (ground arith) in (suc i, omega arith, at)
]

some_injective : (a b : Bytes) → some a ≡ some b → a ≡ b
some_injective a b e = ground (arith, e)

any_of_elem :
    (tag : Bytes) (names : List Bytes) (i : ℕ)
    → get_elem? names i ≡ some tag
    → any (eq_bytes tag) names ≡ true
any_of_elem tag [] i e = ground arith
any_of_elem tag (name ∷ names) zero e =
    let same : eq_bytes tag name ≡ true =
      (eq_bytes_iff tag name).1 (sym (some_injective name tag e)) in
    rw same refl
any_of_elem tag (name ∷ names) (suc i) e = ground (arith, any_of_elem tag names i e)

-- A tag has an id exactly if the table has it.
pub is_known_found : (tag : Bytes) (id : ℕ) → tag_id tag ≡ some id → is_known tag ≡ true
unfolding is_known
is_known_found tag id e =
    let (same, lt) = tag_id_sound tag e in
    any_of_elem tag all_tags id (all_tags-name_at id lt ∙ ap some (sym same))

is_known_missing : (tag : Bytes) → tag_id tag ≡ none → is_known tag ≡ false
unfolding is_known
is_known_missing tag e = elim (Bool-cases (any (eq_bytes tag) all_tags)) [
  | inr unknown ↦ unknown
  | inl known ↦
      let (i, lt, here) = any_at tag all_tags known in
      let bound = subst (λ n. i < n) all_tags-length lt in
      let name = some_injective (name_at i) tag (sym (all_tags-name_at i bound) ∙ here) in
      let found = subst (λ t. tag_id t ≡ some i) name (tag_id-name_at i bound) in
      absurd (ground (arith, e, found))
]

some_id_injective : (a b : ℕ) → some a ≡ some b → a ≡ b
some_id_injective a b e = ground (arith, e)

name_at_same :
    (i id : ℕ)
    → i < all_tags_len
    → id < all_tags_len
    → eq_bytes (name_at i) (name_at id) ≡ (i == id)
name_at_same i id hi hid = elim (Bool-cases (eq_bytes (name_at i) (name_at id))) [
  | inl same ↦
      let e = (eq_bytes_iff (name_at i) (name_at id)).0 same in
      let ids =
        some_id_injective i id (sym (tag_id-name_at i hi) ∙ ap tag_id e ∙ tag_id-name_at id hid) in
      same ∙ sym ((==_iff i id).1 ids)
  | inr differ ↦ elim (Bool-cases (i == id)) [
    | inl here ↦
        let e = ap name_at ((==_iff i id).0 here) in
        absurd (ground (arith, differ, (eq_bytes_iff (name_at i) (name_at id)).1 e))
    | inr other ↦ differ ∙ sym other
  ]
]

-- A sequence with one name more.
pub has_name_cons :
    (tag : Bytes) (seq : List Bytes) (id i : ℕ)
    → tag ≡ name_at id
    → id < all_tags_len
    → has_name (tag ∷ seq) i ≡ (i == id) || has_name seq i
unfolding has_name
has_name_cons tag seq id i e lt = elim (Bool-cases (ltb i all_tags_len)) [
  | inl below ↦
      let same : eq_bytes (name_at i) tag ≡ (i == id) =
        ap (eq_bytes (name_at i)) e ∙ name_at_same i id (ltb→lt i all_tags_len below) lt in
      rw (below, same) refl
  | inr above ↦ let differ : (i == id) ≡ false = ground arith in rw (above, differ) refl
]

pub ||_assoc : (a b c : Bool) → (a || b) || c ≡ a || (b || c)
||_assoc true b c = refl
||_assoc false b c = refl

pub &&-false : (b : Bool) → b && false ≡ false
&&-false true = refl
&&-false false = refl

pub ||-false_right : (b : Bool) → b || false ≡ b
||-false_right true = refl
||-false_right false = refl

-- What a reading owes: the first tag that the table does not have as the error, or else the set
-- with the ids of all of them.
abbrev pub ReadAs : (ℕ → Bool) → List Bytes → Option Bytes → Read → Type 0
ReadAs p seq none r = (t : TagSet) × (r ≡ read t) × Represents t (λ i. p i || has_name seq i)
ReadAs p seq (some tag) r = r ≡ unrecognized tag

pub insert_read :
    (s : TagSet) (id : ℕ)
    → id < all_tags_len
    → insert s id ≡ some (record { bits = set_bit id s.bits })
unfolding insert
insert_read s id lt = rw (lt→ltb id all_tags_len lt) refl

ReadAs_cons :
    (p : ℕ → Bool) (tag : Bytes) (seq : List Bytes) (id : ℕ) (o : Option Bytes) (r : Read)
    → tag ≡ name_at id
    → id < all_tags_len
    → ReadAs (λ i. p i || i == id) seq o r
    → ReadAs p (tag ∷ seq) o r
ReadAs_cons p tag seq id none r e lt (t, same, h) = (
  t,
  same,
  record {
    valid = h.valid;
    same = λ i.
        h.same i
        ∙ ||_assoc (p i) (i == id) (has_name seq i)
        ∙ ap (λ b. p i || b) (sym (has_name_cons tag seq id i e lt));
  },
)
ReadAs_cons p tag seq id (some other) r e lt same = same

pub no_name : (p : ℕ → Bool) (i : ℕ) → p i || has_name [] i ≡ p i
unfolding has_name
no_name p i = ap (λ b. p i || b) (&&-false (ltb i all_tags_len)) ∙ ||-false_right (p i)

pub first_unknown_known :
    (tag : Bytes) (seq : List Bytes)
    → is_known tag ≡ true
    → first_unknown (tag ∷ seq) ≡ first_unknown seq
unfolding first_unknown
first_unknown_known tag seq e = rw e refl

first_unknown_here :
    (tag : Bytes) (seq : List Bytes) → is_known tag ≡ false → first_unknown (tag ∷ seq) ≡ some tag
unfolding first_unknown
first_unknown_here tag seq e = rw e refl

visit_seq_known :
    (s : TagSet) (tag : Bytes) (seq : List Bytes) {id : ℕ} {more : TagSet}
    → tag_id tag ≡ some id
    → insert s id ≡ some more
    → visit_seq s (tag ∷ seq) ≡ visit_seq more seq
unfolding visit_seq
visit_seq_known s tag seq e f = rw (visit_seq, e, f) refl

visit_seq_unknown :
    (s : TagSet) (tag : Bytes) (seq : List Bytes)
    → tag_id tag ≡ none
    → visit_seq s (tag ∷ seq) ≡ unrecognized tag
unfolding visit_seq
visit_seq_unknown s tag seq e = rw (visit_seq, e) refl

visit_seq_nil : (s : TagSet) → visit_seq s [] ≡ read s
unfolding visit_seq
visit_seq_nil s = refl

pub first_unknown_nil : first_unknown [] ≡ none
unfolding first_unknown
first_unknown_nil = refl

reads :
    (p : ℕ → Bool) (seq : List Bytes) {o o' : Option Bytes} {r r' : Read}
    → o ≡ o'
    → r ≡ r'
    → ReadAs p seq o' r'
    → ReadAs p seq o r
reads p seq {o} {o'} {r} {r'} e f h =
    subst (λ o. ReadAs p seq o r) (sym e) (subst (λ r. ReadAs p seq o' r) (sym f) h)

pub visit_seq_from :
    (s : TagSet) (p : ℕ → Bool) (seq : List Bytes)
    → Represents s p
    → ReadAs p seq (first_unknown seq) (visit_seq s seq)
visit_seq_from s p [] h =
    reads p [] first_unknown_nil (visit_seq_nil s)
      (s, refl, record { valid = h.valid; same = λ i. h.same i ∙ sym (no_name p i) })
visit_seq_from s p (tag ∷ seq) h = elim (Option-cases (tag_id tag)) [
  | inl unknown ↦
      reads p (tag ∷ seq) (first_unknown_here tag seq (is_known_missing tag unknown))
        (visit_seq_unknown s tag seq unknown) refl
  | inr (id, known) ↦
      let (same, lt) = tag_id_sound tag known in
      reads p (tag ∷ seq) (first_unknown_known tag seq (is_known_found tag id known))
        (visit_seq_known s tag seq known (insert_read s id lt))
        (ReadAs_cons p tag seq id (first_unknown seq)
          (visit_seq (record { bits = set_bit id s.bits }) seq) same lt
          (visit_seq_from (record { bits = set_bit id s.bits }) (λ i. p i || i == id) seq
            (set_bit-Represents s p id lt h)))
]

-- A sequence of names is read as the set of their ids if the table has them all, and else the
-- error is the first name that the table does not have; no reading panics.
pub visit_seq-first_unknown :
    (seq : List Bytes) → ReadAs (λ _. false) seq (first_unknown seq) (visit_seq empty_set seq)
visit_seq-first_unknown seq =
    visit_seq_from empty_set (λ _. false) seq
      (record { valid = empty_set-IsTagSet; same = empty_set_members })
