-- ===== src/Identify/Iter.antt =====
-- The iterator over a set yields the names of its ids.
use prek.Prelude.{
  ℕ, zero, suc, ◌+◌, ◌-◌, ◌≤◌, ◌<◌, ◌≡◌, refl, sym, ap, subst, ◌∙◌, ◌≢◌, inl, inr, Option, none,
  some, List, [], ◌∷◌, map, arith, leb, ◌==◌, ==_iff, Bool-cases, Bytes, length, get_elem?, All,
}
use prek.Identify.Bits.{bit_and_le}
use prek.Identify.Tags.{all_tags, all_tags_len}
use prek.Identify.Words.{word_lt}
use prek.Identify.Sets.{IsTagSet}
use prek.Identify.Ids.{all_tags-length}
use prek.Identify.{TagSet, TagSetIter, member, next, collect, iter, tag_words, name_at}
use prek.Identify.Range.{
  ids_from, ids_from_same, ids_from_none, ids_from_prefix, ids_from_first, ids_from-length,
  ids_from_bounded,
}
use prek.Identify.Pending.{
  IsIter, pending, first_id, load, clear, pending-load, pending_end, pending-first, pending_before,
  pending-clear,
}

remaining : TagSetIter → List ℕ
remaining it = ids_from (pending it) 0 384

first_name : List ℕ → Option Bytes
first_name [] = none
first_name (k ∷ ks) = get_elem? all_tags k

others : List ℕ → List ℕ
others [] = []
others (k ∷ ks) = ks

clear-IsIter : (it : TagSetIter) → IsIter it → it.cur_word ≢ 0 → IsIter (clear it)
unfolding clear
clear-IsIter it h p = record {
  counted = h.counted;
  words = h.words;
  current =
      let le = bit_and_le 64 it.cur_word (it.cur_word - 1) h.current in
      let lt = h.current in omega arith;
  started = λ _. h.started p;
  within = h.within;
}

load-IsIter : (it : TagSetIter) → IsIter it → it.word_idx < 6 → IsIter (load it)
unfolding load
load-IsIter it h lt = record {
  counted = h.counted;
  words = h.words;
  current = word_lt it.bits it.word_idx h.words;
  started = λ _. omega arith;
  within = lt;
}

remaining-first :
    (it : TagSetIter)
    → IsIter it
    → it.cur_word ≢ 0
    → remaining it ≡ first_id it ∷ remaining (clear it)
unfolding remaining
remaining-first it h p =
    let (set, lt) = pending-first it h p in
    ids_from_first (pending it) (first_id it) 0 384 set (λ i less. pending_before it i h p less)
      (omega arith) (omega arith)
    ∙ ap (λ ks. first_id it ∷ ks) (ids_from_same _ _ 0 384 (λ i. sym (pending-clear it i h p)))

remaining-load : (it : TagSetIter) → it.cur_word ≡ 0 → remaining it ≡ remaining (load it)
unfolding remaining
remaining-load it e = ids_from_same _ _ 0 384 (λ i. pending-load it i e)

remaining_end :
    (it : TagSetIter) → IsIter it → it.cur_word ≡ 0 → 6 ≤ it.word_idx → remaining it ≡ []
unfolding remaining
remaining_end it h e full = ids_from_none (pending it) 0 384 (λ i _. pending_end it i h e full)

-- One call of `next`.
next_lem :
    (n : ℕ) (it : TagSetIter)
    → IsIter it
    → 6 < n + it.word_idx
    → (after : TagSetIter) × IsIter after
      × (next n it ≡ some (first_name (remaining it), after))
      × (remaining after ≡ others (remaining it))
unfolding next first_name others load clear first_id
next_lem zero it h f = let w = h.within in absurd (omega arith)
next_lem (suc n) it h f = elim (Bool-cases (it.cur_word == 0)) [
  | inr set ↦
      let p : it.cur_word ≢ 0 = λ z. ground arith in
      let e = remaining-first it h p in
      (clear it, clear-IsIter it h p, rw (set, e) refl, sym (ap others e))
  | inl done ↦
      let e = (==_iff it.cur_word 0).0 done in
      elim (Bool-cases (leb tag_words it.word_idx)) [
        | inl full ↦
            let z = remaining_end it h e (ground arith) in
            (it, h, rw (done, full, z) refl, z ∙ sym (ap others z))
        | inr more ↦
            let (after, valid, step, left) =
              next_lem n (load it) (load-IsIter it h (ground arith)) (unfold load in omega arith) in
            let l = remaining-load it e in
            (
              after,
              valid,
              rw (done, more) (step ∙ ap (λ ks. some (first_name ks, after)) (sym l)),
              left ∙ ap others (sym l),
            )
      ]
]

get_elem_some :
    {A : Type 0} (xs : List A) (i : ℕ) → i < length xs → (x : A) × (get_elem? xs i ≡ some x)
get_elem_some [] i h = absurd (omega arith)
get_elem_some (x ∷ xs) zero h = (x, refl)
get_elem_some (x ∷ xs) (suc i) h = get_elem_some xs i (omega arith)

pub all_tags-name_at : (id : ℕ) → id < all_tags_len → get_elem? all_tags id ≡ some (name_at id)
all_tags-name_at id h =
    let (name, e) = get_elem_some all_tags id (subst (λ n. id < n) (sym all_tags-length) h) in
    e ∙ sym (ap (λ o. some (elim o [ none ↦ [] | some found ↦ found ])) e)

collect_nil :
    (n : ℕ) (it : TagSetIter) {after : TagSetIter}
    → next 7 it ≡ some (none, after)
    → collect (suc n) it ≡ some []
unfolding collect
collect_nil n it e = rw e refl

collect_cons :
    (n : ℕ) (it : TagSetIter) (after : TagSetIter) {tag : Bytes} {tags : List Bytes}
    → next 7 it ≡ some (some tag, after)
    → collect n after ≡ some tags
    → collect (suc n) it ≡ some (tag ∷ tags)
unfolding collect
collect_cons n it after e f = rw (e, f) refl

collect_lem :
    (n : ℕ) (it : TagSetIter) (ks : List ℕ)
    → IsIter it
    → remaining it ≡ ks
    → All (λ k. k < all_tags_len) ks
    → length ks < n
    → collect n it ≡ some (map name_at ks)
unfolding first_name others
collect_lem zero it ks h e p f = absurd (omega arith)
collect_lem (suc n) it [] h e p f =
    let (after, valid, step, left) = next_lem 7 it h (omega arith) in
    collect_nil n it (step ∙ ap (λ ks. some (first_name ks, after)) e)
collect_lem (suc n) it (k ∷ ks) h e (lt, p) f =
    let (after, valid, step, left) = next_lem 7 it h (omega arith) in
    collect_cons n it after
      (step
        ∙ ap (λ ks. some (first_name ks, after)) e
        ∙ ap (λ name. some (name, after)) (all_tags-name_at k lt))
      (collect_lem n after ks valid (left ∙ ap others e) p (omega arith))

iter-IsIter : (s : TagSet) → IsTagSet s → IsIter (iter s)
iter-IsIter s h = record {
  counted = h.counted;
  words = h.words;
  current = omega arith;
  started = λ p. absurd (p refl);
  within = omega arith;
}

remaining-iter : (s : TagSet) → IsTagSet s → remaining (iter s) ≡ ids_from (member s) 0 all_tags_len
unfolding remaining pending
remaining-iter s h =
    ids_from_same _ _ 0 384 (λ i. ground arith)
    ∙ ids_from_prefix (member s) all_tags_len 0 60 (λ i le. h.ids i (omega arith))

-- The ids of a set, in order.
abbrev pub ids : TagSet → List ℕ
ids s = ids_from (member s) 0 all_tags_len

-- A loop over the iterator of a set of tags ends, after at most one call of next for each tag
-- of the table and one more, and it has then yielded the name of every id of the set, in the
-- order of the ids, and no other.
pub collect-iter :
    (s : TagSet) → IsTagSet s → collect (suc all_tags_len) (iter s) ≡ some (map name_at (ids s))
collect-iter s h =
    collect_lem (suc all_tags_len) (iter s) (ids s) (iter-IsIter s h) (remaining-iter s h)
      (ids_from_bounded (member s) 0 all_tags_len all_tags_len (omega arith))
      (let le = ids_from-length (member s) 0 all_tags_len in omega arith)
