-- ===== src/Hooks/Bytes.antt =====
-- The operations on byte slices that several hooks call: those of the standard library, and
-- `memchr`, of which a hook knows what its documentation says.
pub mod CopyWithin
pub mod EndsWith
use prek.Prelude.{
  ℕ, zero, suc, ◌+◌, ◌-◌, ◌≤◌, ◌≡◌, refl, Bytes, List, [], ◌∷◌, ◌++◌, Bool, true, false, ◌||◌, ◌&&◌,
  Option, none, some, length, take, drop, ◌==◌, if◌then◌else◌, eq_bytes, arith,
}

abbrev pub lf : ℕ
lf = b'\n'

abbrev pub cr : ℕ
cr = b'\r'

abbrev pub ends_with : Bytes → Bytes → Bool
ends_with hay needle = eq_bytes (drop (length hay - length needle) hay) needle

-- `u8::is_ascii_whitespace`
abbrev pub is_ascii_whitespace : ℕ → Bool
is_ascii_whitespace b = b == b' ' || b == b'\t' || b == lf || b == 12 || b == cr

abbrev pub is_empty : Bytes → Bool
is_empty [] = true
is_empty (_ ∷ _) = false

-- A slice without the bytes at its end that pass the test.
unfoldable pub trim_end : (ℕ → Bool) → Bytes → Bytes
trim_end p [] = []
trim_end p (b ∷ rest) = let r = trim_end p rest in if is_empty r && p b then [] else b ∷ r

unfoldable pub trim_start : (ℕ → Bool) → Bytes → Bytes
trim_start p [] = []
trim_start p (b ∷ rest) = let r = trim_start p rest in if p b then r else b ∷ rest

-- `iter().position(|&b| b == needle)`
unfoldable pub position : ℕ → Bytes → Option ℕ
position needle [] = none
position needle (b ∷ rest) =
    if b == needle
    then some 0
    else elim (position needle rest) [ none ↦ none | some i ↦ some (suc i) ]

-- The crate `memchr`, by its documentation.
pub record Memchr : Type 0 where
  pub memchr : ℕ → Bytes → Option ℕ
  pub memchr_position : (needle : ℕ) (hay : Bytes) → memchr needle hay ≡ position needle hay

-- `content.copy_within(start..end, dest)`, for ranges inside the slice.
pub copy_within : ℕ → ℕ → ℕ → Bytes → Bytes
copy_within start end dest content =
    take dest content
    ++ (take (end - start) (drop start content) ++ drop (dest + (end - start)) content)

pub trim_end-prefix : (p : ℕ → Bool) (xs : Bytes) → take (length (trim_end p xs)) xs ≡ trim_end p xs
unfolding trim_end
trim_end-prefix p [] = refl
trim_end-prefix p (b ∷ rest) = ground (arith, trim_end-prefix p rest)

pub length-trim_end : (p : ℕ → Bool) (xs : Bytes) → length (trim_end p xs) ≤ length xs
unfolding trim_end
length-trim_end p [] = omega arith
length-trim_end p (b ∷ rest) = ground (arith, length-trim_end p rest)
