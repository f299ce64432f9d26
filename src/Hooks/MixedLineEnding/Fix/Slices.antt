-- ===== src/Hooks/MixedLineEnding/Fix/Slices.antt =====
-- Writes and reads at an index of a slice, and the places that a search finds.
use prek.Prelude.{
  ℕ, zero, suc, ◌+◌, ◌-◌, ◌≤◌, ◌<◌, ◌≡◌, refl, sym, ap, ap₂, subst, ◌∙◌, Bool, true, false, not,
  ◌&&◌, some, [], ◌∷◌, ◌++◌, append-nil, arith, ltb, if◌then◌else◌, Bytes, length, get_elem?, take,
  drop, length-append, take-append-drop, length-take, length-drop, take-split, take-append_add,
  drop-append_add, drop-drop,
}
use prek.Hooks.Bytes.{lf, cr, is_empty, position}
use prek.Hooks.MixedLineEnding.Fix.{position2, has_at, set_at, is_byte, ending_len, slice}
use prek.Hooks.MixedLineEnding.Fix.Reference.{skip_lf}

module _ (i v : ℕ) (xs : Bytes) (h : i < length xs) where
  length-front : length (take i xs) ≡ i
  length-front = omega (arith, length-take i xs)

  pub set_at-take : take (i + 1) (set_at i v xs) ≡ take i xs ++ v ∷ []
  set_at-take =
      subst (λ k. take (k + 1) (set_at i v xs) ≡ take i xs ++ v ∷ []) length-front
        (take-append_add (take i xs) (v ∷ drop (suc i) xs) 1)

  pub set_at-drop : (j : ℕ) → drop (i + 1 + j) (set_at i v xs) ≡ drop (i + 1 + j) xs
  set_at-drop j =
      let e : i + suc j ≡ i + 1 + j = omega arith in
      let e' : suc i + j ≡ i + 1 + j = omega arith in
      ap (λ k. drop k (set_at i v xs)) (sym e)
      ∙ subst (λ k. drop (k + suc j) (set_at i v xs) ≡ drop j (drop (suc i) xs)) length-front
          (drop-append_add (take i xs) (v ∷ drop (suc i) xs) (suc j))
      ∙ drop-drop (suc i) j xs
      ∙ ap (λ k. drop k xs) e'

  pub length-set_at : length (set_at i v xs) ≡ length xs
  length-set_at =
      omega (
        arith,
        length-append (take i xs) (v ∷ drop (suc i) xs),
        length-front,
        length-drop (suc i) xs,
      )

pub position_lt : (b : ℕ) (xs : Bytes) (i : ℕ) → position b xs ≡ some i → i < length xs
unfolding position
position_lt b [] i h = absurd (ground arith)
position_lt b (c ∷ rest) zero h = omega arith
position_lt b (c ∷ rest) (suc i) h = ground (arith, position_lt b rest i)

pub skip_lf_le : (xs : Bytes) → skip_lf xs ≤ length xs
skip_lf_le [] = omega arith
skip_lf_le (b ∷ rest) = ground arith

get_elem?-drop : (n : ℕ) (xs : Bytes) → get_elem? xs n ≡ get_elem? (drop n xs) 0
get_elem?-drop zero xs = refl
get_elem?-drop (suc n) [] = refl
get_elem?-drop (suc n) (x ∷ xs) = get_elem?-drop n xs

pub has_at-drop : (n b : ℕ) (xs : Bytes) → has_at xs n b ≡ has_at (drop n xs) 0 b
has_at-drop n b xs = ap (is_byte b) (get_elem?-drop n xs)

pub drop-later : (n k : ℕ) (xs ys : Bytes) → n ≤ k → drop n xs ≡ drop n ys → drop k xs ≡ drop k ys
drop-later n k xs ys h e =
    let m : n + (k - n) ≡ k = omega arith in
    ap (λ l. drop l xs) (sym m)
    ∙ sym (drop-drop n (k - n) xs)
    ∙ ap (drop (k - n)) e
    ∙ drop-drop n (k - n) ys
    ∙ ap (λ l. drop l ys) m

pub slice-split : (a b d : ℕ) (c : Bytes) → a ≤ b → b ≤ d → slice a d c ≡ slice a b c ++ slice b d c
slice-split a b d c h k =
    let e : d - a ≡ (b - a) + (d - b) = omega arith in
    let e' : a + (b - a) ≡ b = omega arith in
    ap (λ n. take n (drop a c)) e
    ∙ take-split (b - a) (d - b) (drop a c)
    ∙ ap (λ l. slice a b c ++ take (d - b) l) (drop-drop a (b - a) c ∙ ap (λ n. drop n c) e')

pub slice-empty : (a : ℕ) (c : Bytes) → slice a a c ≡ []
slice-empty a c = let e : a - a ≡ 0 = omega arith in ap (λ n. take n (drop a c)) e

pub slice-rest : (a b : ℕ) (c : Bytes) → a ≤ b → slice a b c ++ drop b c ≡ drop a c
slice-rest a b c h =
    let e : a + (b - a) ≡ b = omega arith in
    ap (λ n. slice a b c ++ drop n c) (sym e)
    ∙ ap (λ l. slice a b c ++ l) (sym (drop-drop a (b - a) c))
    ∙ take-append-drop (b - a) (drop a c)

pub has_at_lt : (c : Bytes) (i b : ℕ) → has_at c i b ≡ true → i < length c
has_at_lt [] i b h = absurd (ground arith)
has_at_lt (x ∷ c) zero b h = omega arith
has_at_lt (x ∷ c) (suc i) b h = ground (arith, has_at_lt c i b h)

pub ending_len_le : (c : Bytes) (i : ℕ) → i < length c → i + ending_len c i ≤ length c
ending_len_le c i h = ground (arith, has_at_lt c (i + 1) lf)

pub ending_len-drop : (c : Bytes) (i : ℕ) → ending_len c i ≡ ending_len (drop i c) 0
ending_len-drop c i =
    ap₂ (λ t u. if t && u then 2 else 1) (has_at-drop i cr c)
      (has_at-drop (i + 1) lf c
        ∙ ap (λ l. has_at l 0 lf) (sym (drop-drop i 1 c))
        ∙ sym (has_at-drop 1 lf (drop i c)))

pub position2_lt : (a b : ℕ) (xs : Bytes) (i : ℕ) → position2 a b xs ≡ some i → i < length xs
unfolding position2
position2_lt a b [] i h = absurd (ground arith)
position2_lt a b (c ∷ rest) zero h = omega arith
position2_lt a b (c ∷ rest) (suc i) h = ground (arith, position2_lt a b rest i)

pub ltb-is_empty : (n : ℕ) (xs : Bytes) → ltb n (length xs) ≡ not (is_empty (drop n xs))
ltb-is_empty zero [] = ground arith
ltb-is_empty zero (x ∷ xs) = ground arith
ltb-is_empty (suc n) [] = ground arith
ltb-is_empty (suc n) (x ∷ xs) = ground (arith, ltb-is_empty n xs)

pub if_append :
    (t : Bool) (xs ys : Bytes) → (if t then xs ++ ys else xs) ≡ xs ++ (if t then ys else [])
if_append true xs ys = refl
if_append false xs ys = sym (append-nil xs)
