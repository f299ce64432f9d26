-- ===== src/Identify/Bits.antt =====
-- Machine words as natural numbers: `&`, `|` and `!` of u64, digit by digit, and `trailing_zeros`.
use Prim.Native.Nat.{bit_and, bit_or, digits, bit_and-bitwise, bit_or-bitwise}
use prek.Prelude.{
  ℕ, zero, suc, ◌+◌, ◌-◌, ◌*◌, ◌/◌, ◌%◌, ◌^◌, ◌≤◌, ◌<◌, min, max, ◌≡◌, refl, sym, ap, subst, ◌∙◌,
  ◌≢◌, inl, inr, Bool, true, false, not, ◌&&◌, ◌||◌, arith, ◌==◌, if◌then◌else◌, ==_iff, Bool-cases,
}

-- The digit of a word at a position.
unfoldable pub has_bit : ℕ → ℕ → Bool
has_bit w zero = w % 2 == 1
has_bit w (suc i) = has_bit (w / 2) i

-- `!w` for a word of `n` digits.
abbrev pub complement : ℕ → ℕ → ℕ
complement n w = 2 ^ n - 1 - w

-- `w.trailing_zeros()` for a word of `n` digits.
unfoldable pub trailing_zeros : ℕ → ℕ → ℕ
trailing_zeros zero w = 0
trailing_zeros (suc n) w = let rest = trailing_zeros n (w / 2) in if w % 2 == 1 then 0 else suc rest

-- An operation on digits, and what it makes of the second word once the first has run out.
module _ (rest : ℕ → ℕ) (op : ℕ → ℕ → ℕ) where
  -- Fuel beyond the first word is not used.
  spare_fuel :
      (spare fuel w v : ℕ) → w ≤ fuel → digits rest op (fuel + spare) w v ≡ digits rest op fuel w v
  spare_fuel zero zero zero v enough = refl
  spare_fuel (suc k) zero zero v enough = let e : 0 + suc k ≡ suc k = omega arith in rw e refl
  spare_fuel spare zero (suc w) v enough = absurd (omega arith)
  spare_fuel spare (suc fuel) zero v enough =
      let e : suc fuel + spare ≡ suc (fuel + spare) = omega arith in rw e refl
  spare_fuel spare (suc fuel) (suc w) v enough =
      let e : suc fuel + spare ≡ suc (fuel + spare) = omega arith in
      let shorter = spare_fuel spare fuel (suc w / 2) (v / 2) (omega arith) in
      rw e (ap (λ high. high * 2 + op (suc w % 2) (v % 2)) shorter)

  -- The lowest digit and the digits above it.
  lowest_digit :
      (w v : ℕ)
      → rest v ≡ rest (v / 2) * 2 + op 0 (v % 2)
      → digits rest op w w v ≡ digits rest op (w / 2) (w / 2) (v / 2) * 2 + op (w % 2) (v % 2)
  lowest_digit zero v runs_out = runs_out
  lowest_digit (suc w) v runs_out =
      let half = suc w / 2 in
      let fuel : half + (w - half) ≡ w = omega arith in
      let above = spare_fuel (w - half) half half (v / 2) (omega arith) in
      ap (λ high. high * 2 + op (suc w % 2) (v % 2))
        (sym (ap (λ n. digits rest op n half (v / 2)) fuel) ∙ above)

pub zero-bit_and : (v : ℕ) → bit_and 0 v ≡ 0
zero-bit_and v = bit_and-bitwise 0 v

bit_and_low : (w v : ℕ) → bit_and w v ≡ bit_and (w / 2) (v / 2) * 2 + min (w % 2) (v % 2)
bit_and_low w v = omega (
  arith,
  bit_and-bitwise w v,
  bit_and-bitwise (w / 2) (v / 2),
  lowest_digit (λ _. 0) min w v (omega arith),
)

zero-bit_or : (v : ℕ) → bit_or 0 v ≡ v
zero-bit_or v = bit_or-bitwise 0 v

bit_or_low : (w v : ℕ) → bit_or w v ≡ bit_or (w / 2) (v / 2) * 2 + max (w % 2) (v % 2)
bit_or_low w v = omega (
  arith,
  bit_or-bitwise w v,
  bit_or-bitwise (w / 2) (v / 2),
  lowest_digit (λ v. v) max w v (omega arith),
)

pub has_bit-bit_and : (i a b : ℕ) → has_bit (bit_and a b) i ≡ has_bit a i && has_bit b i
unfolding has_bit
has_bit-bit_and zero a b = ground (arith, bit_and_low a b)
has_bit-bit_and (suc i) a b =
    let e : bit_and a b / 2 ≡ bit_and (a / 2) (b / 2) = omega (arith, bit_and_low a b) in
    rw e (has_bit-bit_and i (a / 2) (b / 2))

pub has_bit-bit_or : (i a b : ℕ) → has_bit (bit_or a b) i ≡ has_bit a i || has_bit b i
unfolding has_bit
has_bit-bit_or zero a b = ground (arith, bit_or_low a b)
has_bit-bit_or (suc i) a b =
    let e : bit_or a b / 2 ≡ bit_or (a / 2) (b / 2) = omega (arith, bit_or_low a b) in
    rw e (has_bit-bit_or i (a / 2) (b / 2))

pow_pos : (n : ℕ) → 1 ≤ 2 ^ n
pow_pos zero = omega arith
pow_pos (suc n) = omega (arith, pow_pos n)

pub has_bit-complement :
    (n i w : ℕ) → w < 2 ^ n → i < n → has_bit (complement n w) i ≡ not (has_bit w i)
unfolding has_bit
has_bit-complement zero i w h lt = absurd (omega arith)
has_bit-complement (suc n) zero w h lt = ground (arith, pow_pos n)
has_bit-complement (suc n) (suc i) w h lt =
    let e : complement (suc n) w / 2 ≡ complement n (w / 2) = omega (arith, pow_pos n) in
    rw e (has_bit-complement n i (w / 2) (omega arith) (omega arith))

pub bit_or_lt : (n a b : ℕ) → a < 2 ^ n → b < 2 ^ n → bit_or a b < 2 ^ n
bit_or_lt zero zero zero p q = omega (arith, zero-bit_or 0)
bit_or_lt zero (suc a) b p q = absurd (omega arith)
bit_or_lt zero zero (suc b) p q = absurd (omega arith)
bit_or_lt (suc n) a b p q =
    omega (arith, bit_or_low a b, bit_or_lt n (a / 2) (b / 2) (omega arith) (omega arith))

pub bit_and_le : (n a b : ℕ) → a < 2 ^ n → bit_and a b ≤ a
bit_and_le zero zero b p = omega (arith, zero-bit_and b)
bit_and_le zero (suc a) b p = absurd (omega arith)
bit_and_le (suc n) a b p =
    omega (arith, bit_and_low a b, bit_and_le n (a / 2) (b / 2) (omega arith))

pub zero-has_bit : (i : ℕ) → has_bit 0 i ≡ false
unfolding has_bit
zero-has_bit zero = refl
zero-has_bit (suc i) = zero-has_bit i

-- A word of `n` digits has none behind them.
pub has_bit_above : (n w i : ℕ) → w < 2 ^ n → n ≤ i → has_bit w i ≡ false
unfolding has_bit
has_bit_above zero zero i h le = zero-has_bit i
has_bit_above zero (suc w) i h le = absurd (omega arith)
has_bit_above (suc n) w zero h le = absurd (omega arith)
has_bit_above (suc n) w (suc i) h le = has_bit_above n (w / 2) i (omega arith) (omega arith)

-- `1 << k` has one digit.
pub shifted-has_bit : (k i : ℕ) → has_bit (2 ^ k) i ≡ (i == k)
unfolding has_bit
shifted-has_bit zero zero = refl
shifted-has_bit zero (suc i) = ground (arith, zero-has_bit i)
shifted-has_bit (suc k) zero = ground arith
shifted-has_bit (suc k) (suc i) =
    let e : 2 ^ suc k / 2 ≡ 2 ^ k = omega arith in rw e (ground (arith, shifted-has_bit k i))

pub shifted_lt : (n k : ℕ) → k < n → 2 ^ k < 2 ^ n
shifted_lt zero k h = absurd (omega arith)
shifted_lt (suc n) zero h = omega (arith, pow_pos n)
shifted_lt (suc n) (suc k) h = omega (arith, shifted_lt n k (omega arith))

-- The lowest digit that is set.
pub trailing_zeros_lem :
    (n w : ℕ)
    → w ≢ 0
    → w < 2 ^ n
    → (has_bit w (trailing_zeros n w) ≡ true) × (trailing_zeros n w < n)
unfolding has_bit trailing_zeros
trailing_zeros_lem zero w p h = absurd (p (omega arith))
trailing_zeros_lem (suc n) w p h = elim (Bool-cases (w % 2 == 1)) [
  | inl odd ↦ rw odd (odd, omega arith)
  | inr even ↦
      let half : (w / 2) ≢ 0 = λ z. p (ground arith) in
      let (set, lt) = trailing_zeros_lem n (w / 2) half (omega arith) in rw even (set, omega arith)
]

pub trailing_zeros_below : (n w i : ℕ) → i < trailing_zeros n w → has_bit w i ≡ false
unfolding has_bit trailing_zeros
trailing_zeros_below zero w i h = absurd (omega arith)
trailing_zeros_below (suc n) w zero h = ground arith
trailing_zeros_below (suc n) w (suc i) h = ground (arith, trailing_zeros_below n (w / 2) i)

and_same : (n a : ℕ) → a ≤ n → bit_and a a ≡ a
and_same n zero h = zero-bit_and 0
and_same zero (suc a) h = absurd (omega arith)
and_same (suc n) (suc a) h =
    omega (arith, bit_and_low (suc a) (suc a), and_same n (suc a / 2) (omega arith))

cleared_odd : (w : ℕ) → w % 2 == 1 ≡ true → bit_and w (w - 1) / 2 ≡ w / 2
cleared_odd w odd =
    let r = (==_iff (w % 2) 1).0 odd in
    let e : (w - 1) / 2 ≡ w / 2 = omega arith in
    let s = bit_and_low w (w - 1) in
    omega (
      arith,
      subst (λ t. bit_and w (w - 1) ≡ bit_and (w / 2) t * 2 + min (w % 2) ((w - 1) % 2)) e s,
      and_same (w / 2) (w / 2) (omega arith),
    )

cleared_even :
    (w : ℕ) → w ≢ 0 → w % 2 == 1 ≡ false → bit_and w (w - 1) / 2 ≡ bit_and (w / 2) (w / 2 - 1)
cleared_even w p even =
    let e : (w - 1) / 2 ≡ w / 2 - 1 = ground arith in
    let s = bit_and_low w (w - 1) in
    let t =
      subst (λ t. bit_and w (w - 1) ≡ bit_and (w / 2) t * 2 + min (w % 2) ((w - 1) % 2)) e s in
    ground (arith, t)

pub &&-true : (b : Bool) → b && true ≡ b
&&-true true = refl
&&-true false = refl

suc_zero : (a : ℕ) → (suc a == 0) ≡ false
suc_zero a = ground arith

suc_== : (a b : ℕ) → (a == b) ≡ (suc a == suc b)
suc_== a b = ground arith

-- `w & (w - 1)` clears the lowest digit that is set.
pub clear_lowest :
    (n w i : ℕ)
    → w ≢ 0
    → w < 2 ^ n
    → has_bit (bit_and w (w - 1)) i ≡ has_bit w i && not (i == trailing_zeros n w)
unfolding has_bit trailing_zeros
clear_lowest zero w i p h = absurd (p (omega arith))
clear_lowest (suc n) w zero p h = ground (arith, bit_and_low w (w - 1))
clear_lowest (suc n) w (suc i) p h = elim (Bool-cases (w % 2 == 1)) [
  | inl odd ↦
      let e : bit_and w (w - 1) / 2 ≡ w / 2 = cleared_odd w odd in
      rw (e, odd, suc_zero i) (sym (&&-true (has_bit (w / 2) i)))
  | inr even ↦
      let half : (w / 2) ≢ 0 = λ z. p (ground arith) in
      let e : bit_and w (w - 1) / 2 ≡ bit_and (w / 2) (w / 2 - 1) = cleared_even w p even in
      rw (e, even)
        (clear_lowest n (w / 2) i half (omega arith)
          ∙ ap (λ t. has_bit (w / 2) i && not t) (suc_== i (trailing_zeros n (w / 2))))
]

-- A word without a digit is zero.
pub no_bit-zero : (n w : ℕ) → w < 2 ^ n → ((i : ℕ) → i < n → has_bit w i ≡ false) → w ≡ 0
unfolding has_bit
no_bit-zero zero w h f = omega arith
no_bit-zero (suc n) w h f = ground (
  arith,
  f 0 (omega arith),
  no_bit-zero n (w / 2) (omega arith) (λ i lt. f (suc i) (omega arith)),
)

-- Words of the same digits are equal.
pub has_bit-injective :
    (n w v : ℕ) → w < 2 ^ n → v < 2 ^ n → ((i : ℕ) → i < n → has_bit w i ≡ has_bit v i) → w ≡ v
unfolding has_bit
has_bit-injective zero w v h k f = omega arith
has_bit-injective (suc n) w v h k f = ground (
  arith,
  f 0 (omega arith),
  has_bit-injective n (w / 2) (v / 2) (omega arith) (omega arith) (λ i lt. f (suc i) (omega arith)),
)
