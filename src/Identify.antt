-- ===== src/Identify.antt =====
-- crates/prek-identify/src/lib.rs: sets of the tags of a file, as words of 64 digits.
pub mod Bits
pub mod Tags
pub mod Words
pub mod Tables
pub mod Text
pub mod Interpreter
pub mod Shebang
pub mod Files
pub mod Sets
pub mod Ids
pub mod Range
pub mod Pending
pub mod Iter
pub mod Refine
pub mod Reading
pub mod RoundTrip
pub mod Ordinary
pub mod Steps
pub mod Kinds
mod Tests
use Prim.Native.Nat.{bit_and, bit_or}
use prek.Prelude.{
  ℕ, zero, suc, ◌+◌, ◌-◌, ◌*◌, ◌/◌, ◌%◌, ◌^◌, ◌≤◌, ◌<◌, min, max, ◌≡◌, refl, sym, fun_ext, ap, ap₂,
  subst, ◌∙◌, ◌≢◌, ◌↔◌, ◌⊎◌, inl, inr, Bool, true, false, not, ◌&&◌, ◌||◌, Option, none, some, List,
  [], ◌∷◌, ◌++◌, map, append_assoc, append-nil, arith, ltb, leb, ◌==◌, if◌then◌else◌, ltb→lt,
  ltb→le, lt→ltb, leb→le, ==_iff, Bool-cases, Option-cases, Bytes, codes, length, get_elem?, take,
  drop, any, all, length-append, take-append-drop, length-take, length-drop, take-split,
  take-length, take-append, take-append_add, drop-append_add, take-take, drop-take, drop-length,
  drop-drop, eq_bytes, eq_bytes_iff, All, All-append, All-append_inv, All-drop, ◌>>=◌,
}
use prek.Hooks.ContentsSorter.{le_bytes}
use prek.Identify.Bits.{has_bit, complement, trailing_zeros}
use prek.Identify.Tags.{all_tags, all_tags_len}

-- `ALL_TAGS.len().div_ceil(64)`
abbrev pub tag_words : ℕ
tag_words = (all_tags_len + 63) / 64

pub record TagSet : Type 0 where
  pub bits : List ℕ

-- `TagSet::default()`
abbrev pub empty_set : TagSet
empty_set = record { bits = 0 ∷ 0 ∷ 0 ∷ 0 ∷ 0 ∷ 0 ∷ [] }

-- `ALL_TAGS[id]`
abbrev pub name_at : ℕ → Bytes
name_at id = elim (get_elem? all_tags id) [ none ↦ [] | some name ↦ name ]

-- `ALL_TAGS.binary_search(&tag).ok()`: the ids from `low` up to `high` are left, and their number
-- halves with each round, so that ten rounds are enough.
unfoldable pub search_tag : ℕ → Bytes → ℕ → ℕ → Option ℕ
search_tag zero tag low high = none
search_tag (suc n) tag low high =
    let mid = low + (high - low) / 2 in
    let name = name_at mid in
    let is_below = not (le_bytes tag name) in
    let rest =
      search_tag n tag (if is_below then suc mid else low) (if is_below then high else mid) in
    if leb high low then none else if eq_bytes name tag then some mid else rest

unfoldable pub tag_id : Bytes → Option ℕ
tag_id tag = search_tag 10 tag 0 all_tags_len

-- `bits[idx]`, within the array
abbrev pub word : List ℕ → ℕ → ℕ
word [] k = 0
word (w ∷ ws) zero = w
word (w ∷ ws) (suc k) = word ws k

-- `bits[idx] |= value`
unfoldable pub or_at : ℕ → ℕ → List ℕ → List ℕ
or_at k value [] = []
or_at zero value (w ∷ ws) = bit_or w value ∷ ws
or_at (suc k) value (w ∷ ws) = w ∷ or_at k value ws

unfoldable pub set_bit : ℕ → List ℕ → List ℕ
set_bit id bits = or_at (id / 64) (2 ^ (id % 64)) bits

-- `TagSet::insert`; none is the panic of its assertion.
unfoldable pub insert : TagSet → ℕ → Option TagSet
insert s id = if ltb id all_tags_len then some (record { bits = set_bit id s.bits }) else none

-- `TagSet::new`: a loop over the ids.
unfoldable pub insert_all : TagSet → List ℕ → Option TagSet
insert_all s [] = some s
insert_all s (id ∷ ids) = do more ← insert s id; insert_all more ids

abbrev pub new : List ℕ → Option TagSet
new ids = insert_all empty_set ids

-- `TagSet::from_tags` in a release build: an unknown tag is passed over.
unfoldable pub from_tags : TagSet → List Bytes → TagSet
from_tags s [] = s
from_tags s (tag ∷ tags) =
    from_tags (elim (tag_id tag) [ none ↦ s | some id ↦ record { bits = set_bit id s.bits } ]) tags

-- `visit_seq` of the deserializer: the first tag that is not recognized is the error.
pub data Read : Type 0 where
  read : TagSet → Read
  unrecognized : Bytes → Read
  panicked : Read

unfoldable pub visit_seq : TagSet → List Bytes → Read
visit_seq tags [] = read tags
visit_seq tags (tag ∷ seq) = elim (tag_id tag) [
  | none ↦ unrecognized tag
  | some id ↦ elim (insert tags id) [ none ↦ panicked | some more ↦ visit_seq more seq ]
]

unfoldable pub disjoint_words : List ℕ → List ℕ → Bool
disjoint_words (a ∷ self) (b ∷ other) =
    let rest = disjoint_words self other in if not (bit_and a b == 0) then false else rest
disjoint_words _ _ = true

abbrev pub is_disjoint : TagSet → TagSet → Bool
is_disjoint self other = disjoint_words self.bits other.bits

unfoldable pub subset_words : List ℕ → List ℕ → Bool
subset_words (a ∷ self) (b ∷ other) =
    let rest = subset_words self other in
    if not (bit_and a (complement 64 b) == 0) then false else rest
subset_words _ _ = true

abbrev pub is_subset : TagSet → TagSet → Bool
is_subset self other = subset_words self.bits other.bits

abbrev pub is_empty : TagSet → Bool
is_empty self = all (λ w. w == 0) self.bits

unfoldable pub or_words : List ℕ → List ℕ → List ℕ
or_words (a ∷ self) (b ∷ rhs) = bit_or a b ∷ or_words self rhs
or_words self _ = self

-- `self |= rhs`
abbrev pub bitor_assign : TagSet → TagSet → TagSet
bitor_assign self rhs = record { bits = or_words self.bits rhs.bits }

-- Whether an id is in a set.
unfoldable pub member_at : List ℕ → ℕ → Bool
member_at bits i = has_bit (word bits (i / 64)) (i % 64)

abbrev pub member : TagSet → ℕ → Bool
member s i = member_at s.bits i

pub record TagSetIter : Type 0 where
  pub bits : List ℕ
  pub word_idx : ℕ
  pub cur_word : ℕ

abbrev pub iter : TagSet → TagSetIter
iter s = record { bits = s.bits; word_idx = 0; cur_word = 0 }

-- `TagSetIter::next` on fuel, one round for each word that is loaded; none if the fuel is used up.
unfoldable pub next : ℕ → TagSetIter → Option (Option Bytes × TagSetIter)
next zero it = none
next (suc n) it =
    let idx = (it.word_idx - 1) * 64 + trailing_zeros 64 it.cur_word in
    let rest =
      next n (record it { word_idx = suc it.word_idx; cur_word = word it.bits it.word_idx }) in
    if not (it.cur_word == 0)
    then some
        (get_elem? all_tags idx, record it { cur_word = bit_and it.cur_word (it.cur_word - 1) })
    else if leb tag_words it.word_idx
    then some (none, it)
    else rest

-- What a loop over the iterator gets: the tags up to the first `None`.
unfoldable pub collect : ℕ → TagSetIter → Option (List Bytes)
collect zero it = none
collect (suc n) it = do
  (item, rest) ← next (suc tag_words) it
  elim item [ none ↦ some [] | some tag ↦ do tags ← collect n rest; some (tag ∷ tags) ]
