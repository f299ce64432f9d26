-- ===== src/Identify/Text.antt =====
-- Whether the bytes of a file are text.
use Prim.Native.Nat.{bit_and}
use prek.Prelude.{
  every_below, every_below_at, ℕ, zero, suc, ◌/◌, ◌%◌, ◌^◌, ◌<◌, ◌≡◌, refl, sym, ap₂, Bool, true,
  false, not, ◌&&◌, ◌||◌, Option, none, some, List, [], ◌∷◌, arith, ltb, leb, ◌==◌, if◌then◌else◌,
  Bytes, all, All,
}
use prek.Identify.{word, or_at}

-- `matches!(i, 7 | 8 | 9 | 10 | 11 | 12 | 13 | 27)` and the ranges of printable and of high bytes.
abbrev pub is_text : ℕ → Bool
is_text i = leb 0x20 i && ltb i 0x7F || (leb 0x80 i || (leb 7 i && leb i 13 || i == 27))

-- The loop that fills the table, `n` bytes from `i` on.
unfoldable pub fill_table : ℕ → ℕ → List ℕ → List ℕ
fill_table zero i table = table
fill_table (suc n) i table =
    fill_table n (suc i) (if is_text i then or_at (i / 32) (2 ^ (i % 32)) table else table)

unfoldable pub is_text_table : List ℕ
is_text_table = fill_table 256 0 (0 ∷ 0 ∷ 0 ∷ 0 ∷ 0 ∷ 0 ∷ 0 ∷ 0 ∷ [])

unfoldable pub is_text_char : ℕ → Bool
is_text_char b = not (bit_and (word is_text_table (b / 32)) (2 ^ (b % 32)) == 0)

-- Opening a file and one read into a buffer of 1024 bytes; none is an error.
pub record Content : Type 0 where
  pub opened : Bool
  pub bytes_read : Option Bytes

unfoldable pub is_text_file : Content → Bool
is_text_file file = if not file.opened then false else elim file.bytes_read [
  | none ↦ false
  | some [] ↦ true
  | some buffer ↦ all is_text_char buffer
]

agrees : ℕ → Bool
agrees b = elim (is_text_char b) [ true ↦ is_text b | false ↦ not (is_text b) ]

table_agrees : every_below agrees 256 ≡ true
unfolding every_below agrees is_text_char is_text_table fill_table or_at
table_agrees = refl

same_of_agrees : (a b : Bool) → elim a [ true ↦ b | false ↦ not b ] ≡ true → a ≡ b
same_of_agrees true b h = sym h
same_of_agrees false true h = ground arith
same_of_agrees false false h = refl

pub is_text_char-is_text : (b : ℕ) → b < 256 → is_text_char b ≡ is_text b
unfolding agrees
is_text_char-is_text b lt = same_of_agrees _ _ (every_below_at agrees 256 b table_agrees lt)

all_same : (bytes : Bytes) → All (λ b. b < 256) bytes → all is_text_char bytes ≡ all is_text bytes
all_same [] h = refl
all_same (b ∷ bytes) (lt, h) = ap₂ ◌&&◌ (is_text_char-is_text b lt) (all_same bytes h)

-- x
pub is_text_file-is_text :
    (bytes : Bytes)
    → All (λ b. b < 256) bytes
    → is_text_file (record { opened = true; bytes_read = some bytes }) ≡ all is_text bytes
unfolding is_text_file
is_text_file-is_text [] h = refl
is_text_file-is_text (b ∷ bytes) h = all_same (b ∷ bytes) h
