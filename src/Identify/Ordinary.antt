-- ===== src/Identify/Ordinary.antt =====
-- The tables of tags name no kind of a file.
use prek.Prelude.{
  ℕ, ◌≡◌, refl, sym, ap, ap₂, subst, ◌∙◌, ◌⊎◌, inl, inr, Bool, true, false, not, ◌&&◌, ◌||◌, Option,
  none, some, List, [], ◌∷◌, arith, ltb, ◌==◌, if◌then◌else◌, ltb→lt, ==_iff, Bool-cases,
  Option-cases, Bytes, codes, any, all, eq_bytes, ◌>>=◌,
}
use prek.Identify.Tags.{
  all_tags_len, tag_file, tag_directory, tag_symlink, tag_socket, tag_executable,
  tag_non_executable,
}
use prek.Identify.Tables.{Table, lookup, interpreters, extensions, names}
use prek.Identify.Interpreter.{constant_set, base_name, tags_from_interpreter, first_match, fronts}
use prek.Identify.Interpreter.Fronts.{tags_from_interpreter-first_match}
use prek.Identify.Files.{
  table_get, extension_set, extension_tags, tags_from_extension, name_tags, tags_from_filename,
  find_name, unwrap_or_default, is_ascii_uppercase, to_ascii_lowercase, dot,
}
use prek.Paths.Text.{split}
use prek.Identify.Sets.{
  IsTagSet, empty_set_members, empty_set-IsTagSet, member_union, union-IsTagSet,
}
use prek.Identify.Reading.{insert_read, ||_assoc, ||-false_right as ||-false}
use prek.Identify.Refine.{Represents, set_bit-Represents}
use prek.Identify.{TagSet, empty_set, set_bit, insert_all, bitor_assign, is_empty, member}

-- The ids that `tags_from_path` gives by itself, but for text and binary.
abbrev pub is_kind : ℕ → Bool
is_kind i =
    i == tag_file
    || (i == tag_directory
        || (i == tag_symlink
            || (i == tag_socket || (i == tag_executable || i == tag_non_executable))))

pub record IsOrdinary (s : TagSet) : Type 0 where
  pub valid : IsTagSet s
  pub no_kind : (i : ℕ) → is_kind i ≡ true → member s i ≡ false

pub empty_set-IsOrdinary : IsOrdinary empty_set
empty_set-IsOrdinary = record { valid = empty_set-IsTagSet; no_kind = λ i _. empty_set_members i }

pub union-IsOrdinary : (a b : TagSet) → IsOrdinary a → IsOrdinary b → IsOrdinary (bitor_assign a b)
union-IsOrdinary a b ha hb = record {
  valid = union-IsTagSet a b ha.valid hb.valid;
  no_kind =
      λ i k. member_union a b i ha.valid hb.valid ∙ ap₂ ◌||◌ (ha.no_kind i k) (hb.no_kind i k);
}

-- A constant set has the ids that it is made of.
abbrev pub are_ids : List ℕ → Bool
are_ids ids = all (λ id. ltb id all_tags_len) ids

insert_all-Represents :
    (s : TagSet) (p : ℕ → Bool) (ids : List ℕ)
    → are_ids ids ≡ true
    → Represents s p
    → (t : TagSet) × (insert_all s ids ≡ some t)
      × Represents t (λ i. p i || any (λ id. i == id) ids)
unfolding insert_all
insert_all-Represents s p [] e h =
    (s, refl, record { valid = h.valid; same = λ i. h.same i ∙ sym (||-false (p i)) })
insert_all-Represents s p (id ∷ ids) e h =
    let lt = ltb→lt id all_tags_len (ground arith) in
    let (t, same, rep) =
      insert_all-Represents (record { bits = set_bit id s.bits }) (λ i. p i || i == id) ids
        (ground arith) (set_bit-Represents s p id lt h) in
    (
      t,
      ap (λ o. o >>= λ more. insert_all more ids) (insert_read s id lt) ∙ same,
      record {
        valid = rep.valid;
        same = λ i. rep.same i ∙ ||_assoc (p i) (i == id) (any (λ id. i == id) ids);
      },
    )

pub constant_set-Represents :
    (ids : List ℕ)
    → are_ids ids ≡ true
    → Represents (constant_set ids) (λ i. any (λ id. i == id) ids)
unfolding constant_set
constant_set-Represents ids e =
    let empty : Represents empty_set (λ _. false) = record {
      valid = empty_set-IsTagSet;
      same = empty_set_members;
    } in
    let (t, same, rep) = insert_all-Represents empty_set (λ _. false) ids e empty in
    rw (constant_set, same) rep

are_ordinary : List ℕ → Bool
are_ordinary ids = all (λ id. ltb id all_tags_len && not (is_kind id)) ids

is_ordinary_table : Table → Bool
is_ordinary_table [] = true
is_ordinary_table ((key, ids) ∷ table) = are_ordinary ids && is_ordinary_table table

interpreters_ordinary : is_ordinary_table interpreters ≡ true
unfolding is_ordinary_table are_ordinary interpreters
interpreters_ordinary = refl

extensions_ordinary : is_ordinary_table extensions ≡ true
unfolding is_ordinary_table are_ordinary extensions
extensions_ordinary = refl

names_ordinary : is_ordinary_table names ≡ true
unfolding is_ordinary_table are_ordinary names
names_ordinary = refl

ordinary_kind : (a b c : Bool) → (a && not b) && c ≡ true → b ≡ true → ⊥
ordinary_kind a b c e k = ground arith

first_ordinary : (a b : Bool) → a && b ≡ true → a ≡ true
first_ordinary a b e = ground arith

rest_ordinary : (a b : Bool) → a && b ≡ true → b ≡ true
rest_ordinary a b e = ground arith

are_ordinary-ids : (ids : List ℕ) → are_ordinary ids ≡ true → are_ids ids ≡ true
unfolding are_ordinary
are_ordinary-ids [] e = refl
are_ordinary-ids (id ∷ ids) e = ground (arith, are_ordinary-ids ids)

are_ordinary-no_kind :
    (ids : List ℕ) (i : ℕ)
    → are_ordinary ids ≡ true
    → is_kind i ≡ true
    → any (λ id. i == id) ids ≡ false
unfolding are_ordinary
are_ordinary-no_kind [] i e k = refl
are_ordinary-no_kind (id ∷ ids) i e k = elim (Bool-cases (i == id)) [
  | inl here ↦
      let same = subst (λ x. is_kind x ≡ true) ((==_iff i id).0 here) k in
      absurd (ordinary_kind (ltb id all_tags_len) (is_kind id) _ e same)
  | inr other ↦ rw other (are_ordinary-no_kind ids i (rest_ordinary _ _ e) k)
]

constant_set-IsOrdinary : (ids : List ℕ) → are_ordinary ids ≡ true → IsOrdinary (constant_set ids)
constant_set-IsOrdinary ids e =
    let rep = constant_set-Represents ids (are_ordinary-ids ids e) in
    record { valid = rep.valid; no_kind = λ i k. rep.same i ∙ are_ordinary-no_kind ids i e k }

lookup_cases :
    (here : Bool) (ids : List ℕ) (rest : Option (List ℕ)) {found : List ℕ}
    → (if here then some ids else rest) ≡ some found
    → (ids ≡ found) ⊎ (rest ≡ some found)
lookup_cases true ids rest e = inl (ground (arith, e))
lookup_cases false ids rest e = inr e

lookup_ordinary :
    (table : Table) (key : Bytes) {found : List ℕ}
    → is_ordinary_table table ≡ true
    → lookup table key ≡ some found
    → are_ordinary found ≡ true
unfolding is_ordinary_table lookup
lookup_ordinary [] key e f = ground arith
lookup_ordinary ((other, ids) ∷ table) key e f =
    elim (lookup_cases (eq_bytes (codes other) key) ids (lookup table key) f) [
      | inl here ↦ subst (λ ids. are_ordinary ids ≡ true) here (first_ordinary _ _ e)
      | inr later ↦ lookup_ordinary table key (rest_ordinary _ _ e) later
    ]

some_set_injective : {a b : TagSet} → some a ≡ some b → a ≡ b
some_set_injective e = ground (arith, e)

either :
    {a b : TagSet} (test : Bool) → IsOrdinary a → IsOrdinary b → IsOrdinary (if test then a else b)
either true ha hb = ha
either false ha hb = hb

table_get-IsOrdinary :
    (table : Table) (key : Bytes) {s : TagSet}
    → is_ordinary_table table ≡ true
    → table_get table key ≡ some s
    → IsOrdinary s
unfolding table_get
table_get-IsOrdinary table key e f = elim (Option-cases (lookup table key)) [
  | inl missing ↦ absurd (ground (arith, missing, f))
  | inr (ids, found) ↦
      let same =
        some_set_injective
          (sym (ap (λ o. elim o [ none ↦ none | some ids ↦ some (constant_set ids) ]) found) ∙ f) in
      subst IsOrdinary same (constant_set-IsOrdinary ids (lookup_ordinary table key e found))
]

or_default-IsOrdinary :
    (table : Table) (key : Bytes)
    → is_ordinary_table table ≡ true
    → IsOrdinary (unwrap_or_default (table_get table key))
or_default-IsOrdinary table key e = elim (Option-cases (table_get table key)) [
  | inl missing ↦ rw missing empty_set-IsOrdinary
  | inr (s, found) ↦ rw found (table_get-IsOrdinary table key e found)
]

extension_set-IsOrdinary : (ext : Bytes) → IsOrdinary (extension_set ext)
unfolding extension_set
extension_set-IsOrdinary ext = elim (Option-cases (table_get extensions ext)) [
  | inr (s, found) ↦
      rw (extension_set, found) (table_get-IsOrdinary extensions ext extensions_ordinary found)
  | inl missing ↦ elim (Bool-cases (any is_ascii_uppercase ext)) [
    | inl upper ↦
        rw (extension_set, missing, upper)
          (or_default-IsOrdinary extensions (to_ascii_lowercase ext) extensions_ordinary)
    | inr lower ↦ rw (extension_set, missing, lower) empty_set-IsOrdinary
  ]
]

extension_tags-IsOrdinary : (o : Option Bytes) → IsOrdinary (extension_tags o)
unfolding extension_tags
extension_tags-IsOrdinary none = empty_set-IsOrdinary
extension_tags-IsOrdinary (some ext) = extension_set-IsOrdinary ext

find_name-IsOrdinary : (parts : List Bytes) → IsOrdinary (find_name parts)
unfolding find_name
find_name-IsOrdinary [] = empty_set-IsOrdinary
find_name-IsOrdinary (part ∷ parts) = elim (Option-cases (table_get names part)) [
  | inr (s, found) ↦ rw (find_name, found) (table_get-IsOrdinary names part names_ordinary found)
  | inl missing ↦ rw (find_name, missing) (find_name-IsOrdinary parts)
]

name_tags-IsOrdinary : (s : TagSet) (o : Option Bytes) → IsOrdinary s → IsOrdinary (name_tags s o)
unfolding name_tags
name_tags-IsOrdinary s none h = h
name_tags-IsOrdinary s (some name) h =
    let found = unwrap_or_default (table_get names name) in
    let result = union-IsOrdinary found s (or_default-IsOrdinary names name names_ordinary) h in
    either (not (is_empty (bitor_assign found s))) result (find_name-IsOrdinary (split dot name))

pub tags_from_filename-IsOrdinary :
    (is_utf8 : Bytes → Bool) (file_name : Option Bytes)
    → IsOrdinary (tags_from_filename is_utf8 file_name)
unfolding tags_from_filename tags_from_extension
tags_from_filename-IsOrdinary is_utf8 file_name =
    name_tags-IsOrdinary _ _ (extension_tags-IsOrdinary _)

first_match-IsOrdinary : (candidates : List Bytes) → IsOrdinary (first_match candidates)
unfolding first_match
first_match-IsOrdinary [] = empty_set-IsOrdinary
first_match-IsOrdinary ([] ∷ candidates) = first_match-IsOrdinary candidates
first_match-IsOrdinary ((c ∷ text) ∷ candidates) =
    elim (Option-cases (lookup interpreters (c ∷ text))) [
      | inr (ids, found) ↦
          rw (first_match, found)
            (constant_set-IsOrdinary ids
              (lookup_ordinary interpreters (c ∷ text) interpreters_ordinary found))
      | inl missing ↦ rw (first_match, missing) (first_match-IsOrdinary candidates)
    ]

pub tags_from_interpreter-IsOrdinary :
    (interpreter : Bytes)
    → (s : TagSet) × (tags_from_interpreter interpreter ≡ some s) × IsOrdinary s
tags_from_interpreter-IsOrdinary interpreter = (
  _,
  (tags_from_interpreter-first_match interpreter).1,
  first_match-IsOrdinary (base_name interpreter ∷ fronts (base_name interpreter)),
)
