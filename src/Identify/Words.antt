-- ===== src/Identify/Words.antt =====
-- The sets of tags us sets of ids.
use Prim.Native.Nat.{bit_and, bit_or}
use prek.Prelude.{
  ℕ, zero, suc, ◌+◌, ◌*◌, ◌/◌, ◌%◌, ◌^◌, ◌<◌, ◌≡◌, refl, ap, ◌↔◌, true, List, [], ◌∷◌, arith, ◌==◌,
  if◌then◌else◌, length, all, All,
}
use prek.Identify.Bits.{has_bit, bit_or_lt, zero-bit_and, complement}
use prek.Identify.{member_at, word, or_at, disjoint_words, subset_words, or_words}

abbrev pub IsWord : ℕ → Type 0
IsWord w = w < 2 ^ 64

pub word-or_at :
    (k value : ℕ) (ws : List ℕ) (j : ℕ)
    → k < length ws
    → word (or_at k value ws) j ≡ (if j == k then bit_or (word ws j) value else word ws j)
unfolding or_at
word-or_at k value [] j h = absurd (omega arith)
word-or_at zero value (w ∷ ws) zero h = refl
word-or_at zero value (w ∷ ws) (suc j) h = ground arith
word-or_at (suc k) value (w ∷ ws) zero h = ground arith
word-or_at (suc k) value (w ∷ ws) (suc j) h = ground (arith, word-or_at k value ws j)

pub length-or_at : (k value : ℕ) (ws : List ℕ) → length (or_at k value ws) ≡ length ws
unfolding or_at
length-or_at k value [] = refl
length-or_at zero value (w ∷ ws) = refl
length-or_at (suc k) value (w ∷ ws) = ap suc (length-or_at k value ws)

pub or_at-words :
    (k value : ℕ) (ws : List ℕ) → value < 2 ^ 64 → All IsWord ws → All IsWord (or_at k value ws)
unfolding or_at
or_at-words k value [] h p = tt
or_at-words zero value (w ∷ ws) h (p, ps) = (bit_or_lt 64 w value p h, ps)
or_at-words (suc k) value (w ∷ ws) h (p, ps) = (p, or_at-words k value ws h ps)

pub word-or_words :
    (us vs : List ℕ) (j : ℕ)
    → length us ≡ length vs
    → word (or_words us vs) j ≡ bit_or (word us j) (word vs j)
unfolding or_words
word-or_words [] [] j h = refl
word-or_words [] (b ∷ vs) j h = absurd (omega arith)
word-or_words (a ∷ us) [] j h = absurd (omega arith)
word-or_words (a ∷ us) (b ∷ vs) zero h = refl
word-or_words (a ∷ us) (b ∷ vs) (suc j) h = word-or_words us vs j (omega arith)

pub length-or_words : (us vs : List ℕ) → length (or_words us vs) ≡ length us
unfolding or_words
length-or_words [] vs = refl
length-or_words (a ∷ us) [] = refl
length-or_words (a ∷ us) (b ∷ vs) = ap suc (length-or_words us vs)

pub or_words-words : (us vs : List ℕ) → All IsWord us → All IsWord vs → All IsWord (or_words us vs)
unfolding or_words
or_words-words [] vs p q = tt
or_words-words (a ∷ us) [] p q = p
or_words-words (a ∷ us) (b ∷ vs) (p, ps) (q, qs) =
    (bit_or_lt 64 a b p q, or_words-words us vs ps qs)

pub word_lt : (ws : List ℕ) (j : ℕ) → All IsWord ws → word ws j < 2 ^ 64
word_lt [] j p = omega arith
word_lt (w ∷ ws) zero (p, ps) = p
word_lt (w ∷ ws) (suc j) (p, ps) = word_lt ws j ps

-- The loops over the words.
pub disjoint_words_iff :
    (us vs : List ℕ)
    → length us ≡ length vs
    → (disjoint_words us vs ≡ true) ↔ ((j : ℕ) → bit_and (word us j) (word vs j) ≡ 0)
unfolding disjoint_words
disjoint_words_iff [] [] h = (λ _ j. refl, λ _. refl)
disjoint_words_iff [] (b ∷ vs) h = absurd (omega arith)
disjoint_words_iff (a ∷ us) [] h = absurd (omega arith)
disjoint_words_iff (a ∷ us) (b ∷ vs) h =
    let rest = disjoint_words_iff us vs (omega arith) in
    (
      λ e j. elim j as (λ k. bit_and (word (a ∷ us) k) (word (b ∷ vs) k) ≡ 0) [
        | zero ↦ ground arith
        | suc j ↦ rest.0 (ground arith) j
      ],
      λ f. ground (arith, f 0, rest.1 (λ j. f (suc j))),
    )

pub subset_words_iff :
    (us vs : List ℕ)
    → length us ≡ length vs
    → (subset_words us vs ≡ true) ↔ ((j : ℕ) → bit_and (word us j) (complement 64 (word vs j)) ≡ 0)
unfolding subset_words
subset_words_iff [] [] h = (λ _ j. zero-bit_and (complement 64 0), λ _. refl)
subset_words_iff [] (b ∷ vs) h = absurd (omega arith)
subset_words_iff (a ∷ us) [] h = absurd (omega arith)
subset_words_iff (a ∷ us) (b ∷ vs) h =
    let rest = subset_words_iff us vs (omega arith) in
    (
      λ e j. elim j as (λ k. bit_and (word (a ∷ us) k) (complement 64 (word (b ∷ vs) k)) ≡ 0) [
        | zero ↦ ground arith
        | suc j ↦ rest.0 (ground arith) j
      ],
      λ f. ground (arith, f 0, rest.1 (λ j. f (suc j))),
    )

pub empty_words_iff : (ws : List ℕ) → (all (λ w. w == 0) ws ≡ true) ↔ ((j : ℕ) → word ws j ≡ 0)
empty_words_iff [] = (λ _ j. refl, λ _. refl)
empty_words_iff (w ∷ ws) =
    let rest = empty_words_iff ws in
    (
      λ e j. elim j as (λ k. word (w ∷ ws) k ≡ 0) [
        | zero ↦ ground arith
        | suc j ↦ rest.0 (ground arith) j
      ],
      λ f. ground (arith, f 0, rest.1 (λ j. f (suc j))),
    )

-- The id of digit `r` of word `j`.
pub member_at_digit :
    (bits : List ℕ) (j r : ℕ) → r < 64 → member_at bits (j * 64 + r) ≡ has_bit (word bits j) r
unfolding member_at
member_at_digit bits j r h =
    let q : (j * 64 + r) / 64 ≡ j = omega arith in
    let m : (j * 64 + r) % 64 ≡ r = omega arith in rw (q, m)
