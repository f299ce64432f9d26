-- ===== src/Hooks/MixedLineEnding/Fix/Uniform.antt =====
-- crates/prek/src/hooks/pre_commit_hooks/mixed_line_ending.rs: a file with its line endings replaced has no other ones.
use prek.Prelude.{
  ℕ, ◌≡◌, refl, sym, subst, ◌∙◌, ◌⊎◌, inl, inr, Bool, true, false, not, ◌&&◌, ◌||◌, some, [], ◌∷◌,
  ◌++◌, arith, leb, ◌==◌, if◌then◌else◌, Bool-cases, Bytes, all, eq_bytes,
}
use prek.Hooks.Bytes.{lf, cr}
use prek.Hooks.MixedLineEnding.{
  FixMode, auto, no, to_lf, to_crlf, to_cr, LineEndingCounts, has_any_except,
  find_most_common_ending, lf_bytes, cr_bytes, crlf_bytes,
}
use prek.Hooks.MixedLineEnding.Count.{tally}
use prek.Hooks.MixedLineEnding.Fix.{target_ending}
use prek.Hooks.MixedLineEnding.Fix.Reference.{body, unterminated, converted}

-- No byte is the given one.
abbrev lacks : ℕ → Bytes → Bool
lacks b xs = all (λ c. not (c == b)) xs

-- CR and LF stand only in pairs.
paired : Bytes → Bool
paired [] = true
paired (b ∷ []) = not (b == cr || b == lf)
paired (b ∷ (c ∷ rest)) =
    let behind_pair = paired rest in
    let behind_byte = paired (c ∷ rest) in
    if b == cr && c == lf then behind_pair else not (b == cr || b == lf) && behind_byte

tally-lacks_cr : (xs : Bytes) → lacks cr xs ≡ true → ((tally xs).cr ≡ 0) × ((tally xs).crlf ≡ 0)
unfolding tally
tally-lacks_cr [] h = (refl, refl)
tally-lacks_cr (b ∷ []) h = ground arith
tally-lacks_cr (b ∷ (c ∷ rest)) h = ground (arith, tally-lacks_cr (c ∷ rest))

tally-lacks_lf : (xs : Bytes) → lacks lf xs ≡ true → ((tally xs).lf ≡ 0) × ((tally xs).crlf ≡ 0)
unfolding tally
tally-lacks_lf [] h = (refl, refl)
tally-lacks_lf (b ∷ []) h = ground arith
tally-lacks_lf (b ∷ (c ∷ rest)) h = ground (arith, tally-lacks_lf (c ∷ rest))

tally-paired : (xs : Bytes) → paired xs ≡ true → ((tally xs).cr ≡ 0) × ((tally xs).lf ≡ 0)
unfolding tally paired
tally-paired [] h = (refl, refl)
tally-paired (b ∷ []) h = ground arith
tally-paired (b ∷ (c ∷ rest)) h = ground (arith, tally-paired rest, tally-paired (c ∷ rest))

-- The text with the ending behind it, where the last line has none.
abbrev end_of : Bytes → Bool → Bytes
end_of ending t = if t then ending else []

body-lacks_cr :
    (xs : Bytes) (t after : Bool) → lacks cr (body lf_bytes after xs ++ end_of lf_bytes t) ≡ true
unfolding body
body-lacks_cr [] true after = refl
body-lacks_cr [] false after = refl
body-lacks_cr (b ∷ xs) t true = ground (arith, body-lacks_cr xs t true, body-lacks_cr xs t false)
body-lacks_cr (b ∷ xs) t false = ground (arith, body-lacks_cr xs t true, body-lacks_cr xs t false)

body-lacks_lf :
    (xs : Bytes) (t after : Bool) → lacks lf (body cr_bytes after xs ++ end_of cr_bytes t) ≡ true
unfolding body
body-lacks_lf [] true after = refl
body-lacks_lf [] false after = refl
body-lacks_lf (b ∷ xs) t true = ground (arith, body-lacks_lf xs t true, body-lacks_lf xs t false)
body-lacks_lf (b ∷ xs) t false = ground (arith, body-lacks_lf xs t true, body-lacks_lf xs t false)

paired-byte :
    (b : ℕ) (xs : Bytes) → (b == cr || b == lf) ≡ false → paired xs ≡ true → paired (b ∷ xs) ≡ true
unfolding paired
paired-byte b [] h k = ground arith
paired-byte b (c ∷ xs) h k = ground arith

paired-pair : (xs : Bytes) → paired (cr ∷ lf ∷ xs) ≡ paired xs
unfolding paired
paired-pair xs = refl

paired-after :
    (after : Bool) (xs ys : Bytes)
    → paired ((if after then xs else crlf_bytes ++ xs) ++ ys) ≡ paired (xs ++ ys)
paired-after true xs ys = refl
paired-after false xs ys = paired-pair (xs ++ ys)

body-paired :
    (xs : Bytes) (t after : Bool) → paired (body crlf_bytes after xs ++ end_of crlf_bytes t) ≡ true
unfolding body
body-paired [] true after = unfold paired in refl
body-paired [] false after = unfold paired in refl
body-paired (b ∷ xs) t after = elim (Bool-cases (b == cr)) [
  | inl e ↦
      rw e (paired-pair (body crlf_bytes true xs ++ end_of crlf_bytes t) ∙ body-paired xs t true)
  | inr e ↦ elim (Bool-cases (b == lf)) [
    | inl f ↦
        rw (e, f)
          (paired-after after (body crlf_bytes false xs) (end_of crlf_bytes t)
            ∙ body-paired xs t false)
    | inr f ↦
        rw (e, f)
          (paired-byte b (body crlf_bytes false xs ++ end_of crlf_bytes t) (ground arith)
            (body-paired xs t false))
  ]
]

-- The three endings.
abbrev pub IsEnding : Bytes → Type 0
IsEnding ending = (ending ≡ lf_bytes) ⊎ ((ending ≡ crlf_bytes) ⊎ (ending ≡ cr_bytes))

one_of-IsEnding :
    (s t : Bool) → IsEnding (if s then lf_bytes else if t then crlf_bytes else cr_bytes)
one_of-IsEnding true t = inl refl
one_of-IsEnding false true = inr (inl refl)
one_of-IsEnding false false = inr (inr refl)

pub target_ending-IsEnding :
    (fix_mode : FixMode) (counts : LineEndingCounts) (ending : Bytes)
    → target_ending fix_mode counts ≡ some ending
    → IsEnding ending
unfolding find_most_common_ending
target_ending-IsEnding auto counts ending h = subst IsEnding (the_same h) (
    one_of-IsEnding (leb counts.crlf counts.lf && leb counts.cr counts.lf)
      (leb counts.cr counts.crlf))
  where
    the_same : {a b : Bytes} → some a ≡ some b → a ≡ b
    the_same k = ground arith
target_ending-IsEnding no counts ending h = absurd (ground arith)
target_ending-IsEnding to_lf counts ending h = inl (ground arith)
target_ending-IsEnding to_crlf counts ending h = inr (inl (ground arith))
target_ending-IsEnding to_cr counts ending h = inr (inr (ground arith))

-- No other ending is left, and the most common one is the same.
abbrev pub Uniform : Bytes → LineEndingCounts → Type 0
Uniform ending counts =
    (has_any_except counts ending ≡ false)
    × (has_any_except counts (find_most_common_ending counts) ≡ false)

Uniform-lf : (counts : LineEndingCounts) → counts.cr ≡ 0 → counts.crlf ≡ 0 → Uniform lf_bytes counts
unfolding has_any_except find_most_common_ending eq_bytes
Uniform-lf counts a b = ground arith

Uniform-cr : (counts : LineEndingCounts) → counts.lf ≡ 0 → counts.crlf ≡ 0 → Uniform cr_bytes counts
unfolding has_any_except find_most_common_ending eq_bytes
Uniform-cr counts a b = ground arith

Uniform-crlf :
    (counts : LineEndingCounts) → counts.cr ≡ 0 → counts.lf ≡ 0 → Uniform crlf_bytes counts
unfolding has_any_except find_most_common_ending eq_bytes
Uniform-crlf counts a b = ground arith

pub converted-Uniform :
    (ending contents : Bytes) → IsEnding ending → Uniform ending (tally (converted ending contents))
unfolding converted
converted-Uniform ending contents (inl e) =
    let (a, b) =
      tally-lacks_cr (converted lf_bytes contents)
        (body-lacks_cr contents (unterminated false contents) false) in
    subst (λ l. Uniform l (tally (converted l contents))) (sym e) (Uniform-lf _ a b)
converted-Uniform ending contents (inr (inl e)) =
    let (a, b) =
      tally-paired (converted crlf_bytes contents)
        (body-paired contents (unterminated false contents) false) in
    subst (λ l. Uniform l (tally (converted l contents))) (sym e) (Uniform-crlf _ a b)
converted-Uniform ending contents (inr (inr e)) =
    let (a, b) =
      tally-lacks_lf (converted cr_bytes contents)
        (body-lacks_lf contents (unterminated false contents) false) in
    subst (λ l. Uniform l (tally (converted l contents))) (sym e) (Uniform-cr _ a b)
