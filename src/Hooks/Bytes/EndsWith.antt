-- ===== src/Hooks/Bytes/EndsWith.antt =====
-- `ends_with`, `trim_end` and the last byte, on a slice whose last bytes are known.
use prek.Prelude.{
  ℕ, ◌+◌, ◌-◌, ◌≡◌, refl, sym, ap, ◌∙◌, Bytes, [], ◌∷◌, ◌++◌, Bool, false, ◌&&◌, length, drop, ◌==◌,
  eq_bytes, arith, length-append, drop-append_add, subst, append_assoc,
}
use prek.Hooks.Bytes.{ends_with, is_empty, trim_end}

drop-front : (xs ys : Bytes) → drop (length (xs ++ ys) - length ys) (xs ++ ys) ≡ ys
drop-front xs ys =
    let e : length xs + 0 ≡ length (xs ++ ys) - length ys = omega (arith, length-append xs ys) in
    subst (λ k. drop k (xs ++ ys) ≡ ys) e (drop-append_add xs ys 0)

pub ends_with-one : (xs : Bytes) (x a : ℕ) → ends_with (xs ++ x ∷ []) (a ∷ []) ≡ (x == a)
unfolding eq_bytes
ends_with-one xs x a = ap (λ l. eq_bytes l (a ∷ [])) (drop-front xs (x ∷ [])) ∙ ground arith

pub ends_with-two :
    (xs : Bytes) (x y a b : ℕ) → ends_with (xs ++ x ∷ y ∷ []) (a ∷ b ∷ []) ≡ (x == a && y == b)
unfolding eq_bytes
ends_with-two xs x y a b =
    ap (λ l. eq_bytes l (a ∷ b ∷ [])) (drop-front xs (x ∷ y ∷ [])) ∙ ground arith

is_empty-snoc : (xs : Bytes) (x : ℕ) → is_empty (xs ++ x ∷ []) ≡ false
is_empty-snoc [] x = refl
is_empty-snoc (y ∷ xs) x = refl

-- Nothing is trimmed behind a byte that stays.
pub trim_end-keeps :
    (p : ℕ → Bool) (xs : Bytes) (x : ℕ) → p x ≡ false → trim_end p (xs ++ x ∷ []) ≡ xs ++ x ∷ []
unfolding trim_end
trim_end-keeps p [] x h = rw h
trim_end-keeps p (y ∷ xs) x h = ground (arith, trim_end-keeps p xs x h, is_empty-snoc xs x)

-- A slice is empty, or has a last byte.
pub data Snoc : Bytes → Type 0 where
  empty : {xs : Bytes} → xs ≡ [] → Snoc xs
  snoc : {xs : Bytes} (front : Bytes) (x : ℕ) → xs ≡ front ++ x ∷ [] → Snoc xs

Snoc-cons : (y : ℕ) (xs : Bytes) → Snoc xs → Snoc (y ∷ xs)
Snoc-cons y xs (empty e) = snoc [] y (ap (λ l. y ∷ l) e)
Snoc-cons y xs (snoc front x e) = snoc (y ∷ front) x (ap (λ l. y ∷ l) e)

pub Snoc-view : (xs : Bytes) → Snoc xs
Snoc-view [] = empty refl
Snoc-view (y ∷ xs) = Snoc-cons y xs (Snoc-view xs)

pub ends_with-second : (xs : Bytes) (x y a : ℕ) → ends_with (xs ++ x ∷ y ∷ []) (a ∷ []) ≡ (y == a)
ends_with-second xs x y a =
    ap (λ l. ends_with l (a ∷ [])) (sym (append_assoc xs (x ∷ []) (y ∷ [])))
    ∙ ends_with-one (xs ++ x ∷ []) y a

two_of-Snoc :
    (x a b : ℕ)
    → (x == b) ≡ false
    → (xs : Bytes) → Snoc xs
    → ends_with (xs ++ x ∷ []) (a ∷ b ∷ []) ≡ false
unfolding eq_bytes
two_of-Snoc x a b h xs (empty e) =
    subst (λ l. ends_with (l ++ x ∷ []) (a ∷ b ∷ []) ≡ false) (sym e) (ground arith)
two_of-Snoc x a b h xs (snoc front w e) =
    subst (λ l. ends_with (l ++ x ∷ []) (a ∷ b ∷ []) ≡ false) (sym e)
      (ap (λ l. ends_with l (a ∷ b ∷ [])) (append_assoc front (w ∷ []) (x ∷ []))
        ∙ ends_with-two front w x a b
        ∙ ground arith)

-- The last byte is not that of the needle.
pub ends_with-two_ne :
    (xs : Bytes) (x a b : ℕ) → (x == b) ≡ false → ends_with (xs ++ x ∷ []) (a ∷ b ∷ []) ≡ false
ends_with-two_ne xs x a b h = two_of-Snoc x a b h xs (Snoc-view xs)
