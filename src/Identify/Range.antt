-- ===== src/Identify/Range.antt =====
-- The ids in a range that a test holds of.
use prek.Prelude.{
  ℕ, zero, suc, ◌+◌, ◌≤◌, ◌<◌, ◌≡◌, refl, fun_ext, ap, inl, inr, Bool, true, false, not, ◌&&◌, List,
  [], ◌∷◌, arith, ◌==◌, if◌then◌else◌, ==_iff, Bool-cases, length, All,
}

-- The ids from `start` on, `n` of them, that a test holds of.
unfoldable pub ids_from : (ℕ → Bool) → ℕ → ℕ → List ℕ
ids_from p start zero = []
ids_from p start (suc n) =
    let rest = ids_from p (suc start) n in if p start then start ∷ rest else rest

pub ids_from_same :
    (p q : ℕ → Bool) (start n : ℕ) → ((i : ℕ) → p i ≡ q i) → ids_from p start n ≡ ids_from q start n
ids_from_same p q start n f = ap (λ r. ids_from r start n) (fun_ext f)

pub ids_from_none :
    (p : ℕ → Bool) (start n : ℕ) → ((i : ℕ) → start ≤ i → p i ≡ false) → ids_from p start n ≡ []
unfolding ids_from
ids_from_none p start zero f = refl
ids_from_none p start (suc n) f =
    rw (f start (omega arith)) (ids_from_none p (suc start) n (λ i h. f i (omega arith)))

-- Ids at which the test fails need no visit.
pub ids_from_prefix :
    (p : ℕ → Bool) (m start n : ℕ)
    → ((i : ℕ) → start + m ≤ i → p i ≡ false)
    → ids_from p start (m + n) ≡ ids_from p start m
unfolding ids_from
ids_from_prefix p zero start n f =
    let e : 0 + n ≡ n = omega arith in rw e (ids_from_none p start n (λ i h. f i (omega arith)))
ids_from_prefix p (suc m) start n f =
    let e : suc m + n ≡ suc (m + n) = omega arith in
    rw e (
      ap (λ rest. if p start then start ∷ rest else rest)
        (ids_from_prefix p m (suc start) n (λ i h. f i (omega arith))))

abbrev pub without : (ℕ → Bool) → ℕ → ℕ → Bool
without p k i = p i && not (i == k)

pub ids_from_above :
    (p : ℕ → Bool) (k start n : ℕ) → k < start → ids_from p start n ≡ ids_from (without p k) start n
unfolding ids_from
ids_from_above p k start zero h = refl
ids_from_above p k start (suc n) h = ground (arith, ids_from_above p k (suc start) n)

pub ids_from_first :
    (p : ℕ → Bool) (k start n : ℕ)
    → p k ≡ true
    → ((i : ℕ) → i < k → p i ≡ false)
    → start ≤ k
    → k < start + n
    → ids_from p start n ≡ k ∷ ids_from (without p k) start n
unfolding ids_from
ids_from_first p k start zero e f h lt = absurd (omega arith)
ids_from_first p k start (suc n) e f h lt = elim (Bool-cases (start == k)) [
  | inl here ↦
      let same = (==_iff start k).0 here in ground (arith, ids_from_above p k (suc start) n)
  | inr later ↦ ground (
    arith,
    f start (ground arith),
    ids_from_first p k (suc start) n e f (ground arith) (omega arith),
  )
]

pub ids_from-length : (p : ℕ → Bool) (start n : ℕ) → length (ids_from p start n) ≤ n
unfolding ids_from
ids_from-length p start zero = omega arith
ids_from-length p start (suc n) = ground (arith, ids_from-length p (suc start) n)

All-guarded :
    (P : ℕ → Type 0) (b : Bool) (x : ℕ) (xs : List ℕ)
    → P x
    → All P xs
    → All P (if b then x ∷ xs else xs)
All-guarded P true x xs p ps = (p, ps)
All-guarded P false x xs p ps = ps

pub ids_from_bounded :
    (p : ℕ → Bool) (start n m : ℕ) → start + n ≤ m → All (λ k. k < m) (ids_from p start n)
unfolding ids_from
ids_from_bounded p start zero m h = tt
ids_from_bounded p start (suc n) m h =
    All-guarded (λ k. k < m) (p start) start (ids_from p (suc start) n) (omega arith)
      (ids_from_bounded p (suc start) n m (omega arith))
