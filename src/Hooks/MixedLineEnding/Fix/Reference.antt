-- ===== src/Hooks/MixedLineEnding/Fix/Reference.antt =====
-- crates/prek/src/hooks/pre_commit_hooks/mixed_line_ending.rs: the file with all its line endings replaced, byte by
-- byte.
use prek.Prelude.{
  ℕ, zero, suc, ◌≡◌, refl, sym, ap, subst, ◌∙◌, inl, inr, Bool, true, false, not, ◌&&◌, ◌||◌, none,
  some, [], ◌∷◌, ◌++◌, arith, ◌==◌, if◌then◌else◌, Bool-cases, Bytes, take, drop,
}
use prek.Hooks.Bytes.{lf, cr, position, is_empty}
use prek.Hooks.Bytes.EndsWith.{empty, snoc, Snoc-view, ends_with-one}
use prek.Hooks.MixedLineEnding.{lf_bytes}
use prek.Hooks.MixedLineEnding.Fix.{position2, has_at, ending_len, needs_final_ending}

-- `behind_cr` says that the byte before is a CR, whose ending is there already.
unfoldable pub body : Bytes → Bool → Bytes → Bytes
body ending behind_cr [] = []
body ending behind_cr (b ∷ rest) =
    let none_there = body ending false rest in
    let cr_there = body ending true rest in
    if b == cr
    then ending ++ cr_there
    else if b == lf
    then (if behind_cr then none_there else ending ++ none_there)
    else b ∷ none_there

-- The last line has no ending.
unfoldable pub unterminated : Bool → Bytes → Bool
unterminated in_line [] = in_line
unterminated in_line (b ∷ rest) = unterminated (not (b == cr || b == lf)) rest

unfoldable pub converted : Bytes → Bytes → Bytes
unfolding body unterminated
converted ending contents =
    body ending false contents ++ (if unterminated false contents then ending else [])

-- Behind a CR, an LF is skipped.
abbrev pub skip_lf : Bytes → ℕ
skip_lf rest = if has_at rest 0 lf then 1 else 0

drop-if :
    (t : Bool) (b : ℕ) (rest : Bytes)
    → drop (if t then 1 else 0) (b ∷ rest) ≡ (if t then rest else b ∷ rest)
drop-if true b rest = refl
drop-if false b rest = refl

body-behind_cr :
    (ending rest : Bytes) → body ending true rest ≡ body ending false (drop (skip_lf rest) rest)
unfolding body
body-behind_cr ending [] = refl
body-behind_cr ending (b ∷ rest) = elim (Bool-cases (b == lf)) [
  | inl e ↦ ground (arith, drop-if (b == lf) b rest)
  | inr e ↦ ground (arith, drop-if (b == lf) b rest)
]

pub body-cr :
    (xs : Bytes) (i : ℕ)
    → position cr xs ≡ some i
    → body lf_bytes false xs
      ≡ take i xs ++ lf ∷ body lf_bytes false (drop (skip_lf (drop (suc i) xs)) (drop (suc i) xs))
unfolding body position
body-cr [] i h = absurd (ground arith)
body-cr (b ∷ rest) zero h = ground (arith, body-behind_cr lf_bytes rest)
body-cr (b ∷ rest) (suc i) h = ground (arith, body-cr rest i)

pub body-no_cr : (xs : Bytes) → position cr xs ≡ none → body lf_bytes false xs ≡ xs
unfolding body position
body-no_cr [] h = refl
body-no_cr (b ∷ rest) h = ground (arith, body-no_cr rest)

-- What is behind the ending that the bytes begin with.
abbrev pub behind : Bytes → Bytes
behind xs = drop (ending_len xs 0) xs

drop-pair :
    (t u : Bool) (b : ℕ) (rest : Bytes)
    → drop (if t && u then 2 else 1) (b ∷ rest)
      ≡ (if t then drop (if u then 1 else 0) rest else rest)
drop-pair true true b rest = refl
drop-pair true false b rest = refl
drop-pair false u b rest = refl

behind-lf : (b : ℕ) (rest : Bytes) → (b == cr) ≡ false → behind (b ∷ rest) ≡ rest
behind-lf b rest h =
    drop-pair (b == cr) (has_at rest 0 lf) b rest
    ∙ ap (λ t. if t then drop (skip_lf rest) rest else rest) h

behind-cr : (b : ℕ) (rest : Bytes) → (b == cr) ≡ true → behind (b ∷ rest) ≡ drop (skip_lf rest) rest
behind-cr b rest h =
    drop-pair (b == cr) (has_at rest 0 lf) b rest
    ∙ ap (λ t. if t then drop (skip_lf rest) rest else rest) h

pub body-ending :
    (ending xs : Bytes) (i : ℕ)
    → position2 cr lf xs ≡ some i
    → body ending false xs ≡ take i xs ++ (ending ++ body ending false (behind (drop i xs)))
unfolding body position2
body-ending ending [] i h = absurd (ground arith)
body-ending ending (b ∷ rest) zero h = elim (Bool-cases (b == cr)) [
  | inl e ↦ ground (arith, body-behind_cr ending rest, behind-cr b rest)
  | inr e ↦ ground (arith, behind-lf b rest)
]
body-ending ending (b ∷ rest) (suc i) h = ground (arith, body-ending ending rest i)

pub body-no_ending : (ending xs : Bytes) → position2 cr lf xs ≡ none → body ending false xs ≡ xs
unfolding body position2
body-no_ending ending [] h = refl
body-no_ending ending (b ∷ rest) h = ground (arith, body-no_ending ending rest)

unterminated-behind_cr :
    (rest : Bytes) → unterminated false rest ≡ unterminated false (drop (skip_lf rest) rest)
unfolding unterminated
unterminated-behind_cr [] = refl
unterminated-behind_cr (b ∷ rest) = ground (arith, drop-if (b == lf) b rest)

pub unterminated-ending :
    (m : Bool) (xs : Bytes) (i : ℕ)
    → position2 cr lf xs ≡ some i
    → unterminated m xs ≡ unterminated false (behind (drop i xs))
unfolding unterminated position2
unterminated-ending m [] i h = absurd (ground arith)
unterminated-ending m (b ∷ rest) zero h = elim (Bool-cases (b == cr)) [
  | inl e ↦ ground (arith, unterminated-behind_cr rest, behind-cr b rest)
  | inr e ↦ ground (arith, behind-lf b rest)
]
unterminated-ending m (b ∷ rest) (suc i) h =
    ground (arith, unterminated-ending (not (b == cr || b == lf)) rest i)

unterminated-no_ending :
    (b : ℕ) (rest : Bytes) (m : Bool)
    → position2 cr lf (b ∷ rest) ≡ none
    → unterminated m (b ∷ rest) ≡ true
unfolding unterminated position2
unterminated-no_ending b [] m h = ground arith
unterminated-no_ending b (c ∷ rest) m h =
    ground (arith, unterminated-no_ending c rest (not (b == cr || b == lf)))

pub unterminated-is_empty :
    (xs : Bytes) → position2 cr lf xs ≡ none → unterminated false xs ≡ not (is_empty xs)
unfolding unterminated
unterminated-is_empty [] h = refl
unterminated-is_empty (b ∷ rest) h = unterminated-no_ending b rest false h

unterminated-snoc :
    (xs : Bytes) (x : ℕ) (m : Bool) → unterminated m (xs ++ x ∷ []) ≡ not (x == cr || x == lf)
unfolding unterminated
unterminated-snoc [] x m = refl
unterminated-snoc (b ∷ xs) x m = unterminated-snoc xs x (not (b == cr || b == lf))

is_empty-snoc : (xs : Bytes) (x : ℕ) → is_empty (xs ++ x ∷ []) ≡ false
is_empty-snoc [] x = refl
is_empty-snoc (b ∷ xs) x = refl

pub needs_final_ending-unterminated : (xs : Bytes) → needs_final_ending xs ≡ unterminated false xs
unfolding needs_final_ending unterminated
needs_final_ending-unterminated xs = elim (Snoc-view xs) [
  | empty e ↦ subst (λ l. needs_final_ending l ≡ unterminated false l) (sym e) refl
  | snoc front x e ↦
      subst (λ l. needs_final_ending l ≡ unterminated false l) (sym e)
        (ground (
          arith,
          is_empty-snoc front x,
          ends_with-one front x cr,
          ends_with-one front x lf,
          unterminated-snoc front x false,
        ))
]
