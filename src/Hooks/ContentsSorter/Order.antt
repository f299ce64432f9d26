-- ===== src/Hooks/ContentsSorter/Order.antt =====
-- crates/prek/src/hooks/pre_commit_hooks/file_contents_sorter.rs: the sort and the removal of duplicates, on lines that
-- are sorted.
use prek.Prelude.{
  ◌≡◌, refl, sym, ap, subst, ◌∙◌, inl, inr, Bool, true, false, not, ◌&&◌, List, [], ◌∷◌, arith,
  Bool-cases, Bytes, all, eq_bytes, eq_bytes_iff,
}
use prek.Hooks.ContentsSorter.{le_bytes, insert, sort, dedup}

le_bytes_total : (xs ys : Bytes) → le_bytes xs ys ≡ false → le_bytes ys xs ≡ true
unfolding le_bytes
le_bytes_total [] ys h = absurd (ground arith)
le_bytes_total (x ∷ xs) [] h = refl
le_bytes_total (x ∷ xs) (y ∷ ys) h = ground (arith, le_bytes_total xs ys)

abbrev pub is_sorted : (Bytes → Bytes) → List Bytes → Bool
is_sorted k [] = true
is_sorted k (a ∷ []) = true
is_sorted k (a ∷ (b ∷ lines)) = le_bytes (k a) (k b) && is_sorted k (b ∷ lines)

module _ (k : Bytes → Bytes) where
  insert-is_sorted :
      (a : Bytes) (lines : List Bytes)
      → is_sorted k lines ≡ true
      → is_sorted k (insert k a lines) ≡ true
  unfolding insert
  insert-is_sorted a [] h = refl
  insert-is_sorted a (b ∷ []) h = ground (arith, le_bytes_total (k a) (k b))
  insert-is_sorted a (b ∷ (c ∷ lines)) h =
      ground (arith, le_bytes_total (k a) (k b), insert-is_sorted a (c ∷ lines))

  pub sort-is_sorted : (lines : List Bytes) → is_sorted k (sort k lines) ≡ true
  unfolding sort
  sort-is_sorted [] = refl
  sort-is_sorted (a ∷ lines) = insert-is_sorted a (sort k lines) (sort-is_sorted lines)

  pub sort-same : (lines : List Bytes) → is_sorted k lines ≡ true → sort k lines ≡ lines
  unfolding sort insert
  sort-same [] h = refl
  sort-same (a ∷ []) h = refl
  sort-same (a ∷ (b ∷ lines)) h =
      ap (insert k a) (sort-same (b ∷ lines) (ground arith)) ∙ ground arith

-- No line stands behind an equal one.
abbrev pub is_distinct : List Bytes → Bool
is_distinct [] = true
is_distinct (a ∷ []) = true
is_distinct (a ∷ (b ∷ lines)) = not (eq_bytes a b) && is_distinct (b ∷ lines)

dedup-first :
    (a : Bytes) (lines : List Bytes) → (rest : List Bytes) × (dedup (a ∷ lines) ≡ a ∷ rest)
unfolding dedup
dedup-first a [] = ([], refl)
dedup-first a (b ∷ lines) =
    let (rest, e) = dedup-first b lines in
    elim (Bool-cases (eq_bytes a b)) [
      | inl h ↦ (rest, rw h (e ∙ ap (λ l. l ∷ rest) (sym ((eq_bytes_iff a b).0 h))))
      | inr h ↦ (dedup (b ∷ lines), rw h refl)
    ]

pub dedup-is_distinct : (lines : List Bytes) → is_distinct (dedup lines) ≡ true
unfolding dedup
dedup-is_distinct [] = refl
dedup-is_distinct (a ∷ []) = refl
dedup-is_distinct (a ∷ (b ∷ lines)) =
    let (rest, e) = dedup-first b lines in
    let old = dedup-is_distinct (b ∷ lines) in
    let first : is_distinct (b ∷ rest) ≡ true = subst (λ l. is_distinct l ≡ true) e old in
    elim (Bool-cases (eq_bytes a b)) [
      | inl g ↦ rw g old
      | inr g ↦ rw g (subst (λ l. is_distinct (a ∷ l) ≡ true) (sym e) (ground arith))
    ]

pub dedup-is_sorted :
    (k : Bytes → Bytes) (lines : List Bytes)
    → is_sorted k lines ≡ true
    → is_sorted k (dedup lines) ≡ true
unfolding dedup
dedup-is_sorted k [] h = refl
dedup-is_sorted k (a ∷ []) h = refl
dedup-is_sorted k (a ∷ (b ∷ lines)) h =
    let (rest, e) = dedup-first b lines in
    let old = dedup-is_sorted k (b ∷ lines) (ground arith) in
    let first : is_sorted k (b ∷ rest) ≡ true = subst (λ l. is_sorted k l ≡ true) e old in
    elim (Bool-cases (eq_bytes a b)) [
      | inl g ↦ rw g old
      | inr g ↦ rw g (subst (λ l. is_sorted k (a ∷ l) ≡ true) (sym e) (ground arith))
    ]

pub dedup-same : (lines : List Bytes) → is_distinct lines ≡ true → dedup lines ≡ lines
unfolding dedup
dedup-same [] h = refl
dedup-same (a ∷ []) h = refl
dedup-same (a ∷ (b ∷ lines)) h = ground (arith, dedup-same (b ∷ lines))

module _ (p : Bytes → Bool) where
  insert-all :
      (k : Bytes → Bytes) (a : Bytes) (lines : List Bytes)
      → (p a && all p lines) ≡ true
      → all p (insert k a lines) ≡ true
  unfolding insert
  insert-all k a [] h = ground arith
  insert-all k a (b ∷ lines) h = ground (arith, insert-all k a lines)

  pub sort-all :
      (k : Bytes → Bytes) (lines : List Bytes) → all p lines ≡ true → all p (sort k lines) ≡ true
  unfolding sort
  sort-all k [] h = refl
  sort-all k (a ∷ lines) h = ground (arith, sort-all k lines, insert-all k a (sort k lines))

  pub dedup-all : (lines : List Bytes) → all p lines ≡ true → all p (dedup lines) ≡ true
  unfolding dedup
  dedup-all [] h = refl
  dedup-all (a ∷ []) h = h
  dedup-all (a ∷ (b ∷ lines)) h = ground (arith, dedup-all (b ∷ lines))
