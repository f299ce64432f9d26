-- ===== src/Hooks/MixedLineEnding/Count/Tally.antt =====
-- crates/prek/src/hooks/pre_commit_hooks/mixed_line_ending.rs: the line endings of a file, counted one by one.
use prek.Prelude.{
  ℕ, ◌+◌, ◌≡◌, inl, inr, true, false, ◌&&◌, [], ◌∷◌, arith, ◌==◌, if◌then◌else◌, Bool-cases, Bytes,
}
use prek.Hooks.Bytes.{lf, cr}
use prek.Hooks.MixedLineEnding.{LineEndingCounts, from_bool, is_cr, is_lf, is_crlf, count_tail}

abbrev add_crlf : LineEndingCounts → LineEndingCounts
add_crlf c = record c { crlf = c.crlf + 1 }

-- A byte that is not part of a pair.
abbrev add_byte : ℕ → LineEndingCounts → LineEndingCounts
add_byte b c = record c { cr = c.cr + from_bool (b == cr); lf = c.lf + from_bool (b == lf) }

-- The line endings of a file, where CR with the LF behind it is one.
unfoldable pub tally : Bytes → LineEndingCounts
tally [] = record { cr = 0; crlf = 0; lf = 0 }
tally (b ∷ []) = add_byte b (record { cr = 0; crlf = 0; lf = 0 })
tally (b ∷ (c ∷ rest)) =
    let behind_pair = tally rest in
    let behind_byte = tally (c ∷ rest) in
    if b == cr && c == lf then add_crlf behind_pair else add_byte b behind_byte

-- The counts against the numbers of CR, of LF and of pairs.
abbrev pub Tallied : ℕ → Bytes → Type 0
Tallied first rest =
    ((tally (first ∷ rest)).cr + (tally (first ∷ rest)).crlf
      ≡ from_bool (first == cr) + count_tail is_cr (first ∷ rest) rest)
    × ((tally (first ∷ rest)).crlf ≡ count_tail is_crlf (first ∷ rest) rest)
    × ((tally (first ∷ rest)).lf + (tally (first ∷ rest)).crlf
        ≡ from_bool (first == lf) + count_tail is_lf (first ∷ rest) rest)

Tallied-one : (b : ℕ) → Tallied b []
unfolding tally count_tail
Tallied-one b = (omega arith, omega arith, omega arith)

Tallied-byte :
    (b c : ℕ) (rest : Bytes) → (b == cr && c == lf) ≡ false → Tallied c rest → Tallied b (c ∷ rest)
unfolding tally count_tail
Tallied-byte b c rest h (x, y, z) = ground arith

Tallied-pair_end : (b c : ℕ) → (b == cr && c == lf) ≡ true → Tallied b (c ∷ [])
unfolding tally count_tail
Tallied-pair_end b c h = ground arith

Tallied-pair :
    (b c d : ℕ) (rest : Bytes)
    → (b == cr && c == lf) ≡ true
    → Tallied d rest
    → Tallied b (c ∷ (d ∷ rest))
unfolding tally count_tail
Tallied-pair b c d rest h (x, y, z) = ground arith

pub tally-Tallied : (first : ℕ) (rest : Bytes) → Tallied first rest
tally-Tallied b [] = Tallied-one b
tally-Tallied b (c ∷ []) = elim (Bool-cases (b == cr && c == lf)) [
  | inr h ↦ Tallied-byte b c [] h (Tallied-one c)
  | inl h ↦ Tallied-pair_end b c h
]
tally-Tallied b (c ∷ (d ∷ rest)) = elim (Bool-cases (b == cr && c == lf)) [
  | inr h ↦ Tallied-byte b c (d ∷ rest) h (tally-Tallied c (d ∷ rest))
  | inl h ↦ Tallied-pair b c d rest h (tally-Tallied d rest)
]
