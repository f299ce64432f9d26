-- ===== src/Identify/Pending.antt =====
-- The ids that an iterator over a set has still to yield, and how a round changes them.
use Prim.Native.Nat.{bit_and}
use prek.Prelude.{
  ℕ, zero, suc, ◌+◌, ◌-◌, ◌*◌, ◌/◌, ◌%◌, ◌^◌, ◌≤◌, ◌<◌, ◌≡◌, refl, sym, ap, ◌∙◌, ◌≢◌, inl, inr,
  Bool, true, false, not, ◌&&◌, List, [], ◌∷◌, arith, leb, ◌==◌, if◌then◌else◌, ==_iff, Bool-cases,
  length, All,
}
use prek.Identify.Bits.{
  has_bit, trailing_zeros, trailing_zeros_lem, trailing_zeros_below, &&-true, clear_lowest,
  zero-has_bit,
}
use prek.Identify.Words.{IsWord}
use prek.Identify.{TagSetIter, word, member_at}
use prek.Identify.Range.{without}

-- The ids that an iterator has still to yield.
unfoldable pub pending : TagSetIter → ℕ → Bool
pending it i =
    if suc (i / 64) == it.word_idx
    then has_bit it.cur_word (i % 64)
    else leb it.word_idx (i / 64) && member_at it.bits i

pub record IsIter (it : TagSetIter) : Type 0 where
  pub counted : length it.bits ≡ 6
  pub words : All IsWord it.bits
  pub current : it.cur_word < 2 ^ 64
  pub started : it.cur_word ≢ 0 → 1 ≤ it.word_idx
  pub within : it.word_idx ≤ 6

-- The first id that is left when a word is loaded.
unfoldable pub first_id : TagSetIter → ℕ
first_id it = (it.word_idx - 1) * 64 + trailing_zeros 64 it.cur_word

unfoldable pub load : TagSetIter → TagSetIter
load it = record it { word_idx = suc it.word_idx; cur_word = word it.bits it.word_idx }

unfoldable pub clear : TagSetIter → TagSetIter
clear it = record it { cur_word = bit_and it.cur_word (it.cur_word - 1) }

pub pending-load : (it : TagSetIter) (i : ℕ) → it.cur_word ≡ 0 → pending it i ≡ pending (load it) i
unfolding pending load member_at
pending-load it i e =
    let none_left = ap (λ w. has_bit w (i % 64)) e ∙ zero-has_bit (i % 64) in
    elim (Bool-cases (i / 64 == it.word_idx)) [
      | inl loaded ↦
          let same =
            ap (λ k. has_bit (word it.bits k) (i % 64)) ((==_iff (i / 64) it.word_idx).0 loaded) in
          ground arith
      | inr other ↦ ground arith
    ]

word_behind : (ws : List ℕ) (k : ℕ) → length ws ≤ k → word ws k ≡ 0
word_behind [] k h = refl
word_behind (w ∷ ws) zero h = absurd (omega arith)
word_behind (w ∷ ws) (suc k) h = word_behind ws k (omega arith)

pub pending_end :
    (it : TagSetIter) (i : ℕ) → IsIter it → it.cur_word ≡ 0 → 6 ≤ it.word_idx → pending it i ≡ false
unfolding pending member_at
pending_end it i h e full =
    let none_left = ap (λ w. has_bit w (i % 64)) e ∙ zero-has_bit (i % 64) in
    elim (Bool-cases (leb 6 (i / 64))) [
      | inl behind ↦
          let z =
            ap (λ w. has_bit w (i % 64)) (word_behind it.bits (i / 64) (ground arith))
            ∙ zero-has_bit (i % 64) in
          ground arith
      | inr within ↦ ground arith
    ]

pub pending-first :
    (it : TagSetIter)
    → IsIter it
    → it.cur_word ≢ 0
    → (pending it (first_id it) ≡ true) × (first_id it < 384)
unfolding pending first_id
pending-first it h p =
    let (set, lt) = trailing_zeros_lem 64 it.cur_word p h.current in
    let one = h.started p in
    let tz = trailing_zeros 64 it.cur_word in
    let q : ((it.word_idx - 1) * 64 + tz) / 64 ≡ it.word_idx - 1 = omega arith in
    let m : ((it.word_idx - 1) * 64 + tz) % 64 ≡ tz = omega arith in
    let here : (suc (it.word_idx - 1) == it.word_idx) ≡ true = ground arith in
    (rw (q, m, here) set, omega arith)

pub pending_before :
    (it : TagSetIter) (i : ℕ) → IsIter it → it.cur_word ≢ 0 → i < first_id it → pending it i ≡ false
unfolding pending first_id
pending_before it i h p lt =
    let (_, tz_lt) = trailing_zeros_lem 64 it.cur_word p h.current in
    let one = h.started p in
    elim (Bool-cases (suc (i / 64) == it.word_idx)) [
      | inl current ↦ rw current (trailing_zeros_below 64 it.cur_word (i % 64) (ground arith))
      | inr other ↦ ground arith
    ]

pub pending-clear :
    (it : TagSetIter) (i : ℕ)
    → IsIter it
    → it.cur_word ≢ 0
    → pending (clear it) i ≡ without (pending it) (first_id it) i
unfolding pending first_id clear
pending-clear it i h p =
    let (_, lt) = trailing_zeros_lem 64 it.cur_word p h.current in
    let one = h.started p in
    let tz = trailing_zeros 64 it.cur_word in
    elim (Bool-cases (suc (i / 64) == it.word_idx)) [
      | inl current ↦
          let same : (i % 64 == tz) ≡ (i == (it.word_idx - 1) * 64 + tz) = ground arith in
          rw current (
            clear_lowest 64 it.cur_word (i % 64) p h.current
            ∙ ap (λ t. has_bit it.cur_word (i % 64) && not t) same)
      | inr other ↦
          let differ : (i == (it.word_idx - 1) * 64 + tz) ≡ false = ground arith in
          rw (other, differ) (sym (&&-true _))
    ]
