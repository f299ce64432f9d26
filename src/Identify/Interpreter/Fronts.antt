-- ===== src/Identify/Interpreter/Fronts.antt =====
-- crates/prek-identify/src/lib.rs, `tags_from_interpreter`: its loop over the fronts of a base name.
use prek.Prelude.{
  ℕ, zero, suc, ◌<◌, ◌≡◌, ◌≢◌, ◌⊎◌, refl, sym, ap, ◌∙◌, inl, inr, Option, none, some, List, [], ◌∷◌,
  ◌++◌, map, arith, ◌==◌, if◌then◌else◌, Bool-cases, Option-cases, Bytes, length,
}
use prek.Identify.{empty_set}
use prek.Identify.Tables.{lookup, interpreters}
use prek.Identify.Interpreter.{
  slash, dot, after_slash, base_name, before_dot, constant_set, interpreter_loop,
  tags_from_interpreter, fronts, first_match,
}

extend_front : ℕ → Option Bytes → Option Bytes
extend_front c none = if c == dot then some [] else none
extend_front c (some front) = some (c ∷ front)

front_list : Option Bytes → List Bytes
front_list none = []
front_list (some front) = front ∷ fronts front

fronts_extend :
    (c : ℕ) (o : Option Bytes)
    → map (λ front. c ∷ front) (front_list o) ++ (if c == dot then [] ∷ [] else [])
      ≡ front_list (extend_front c o)
unfolding fronts front_list extend_front
fronts_extend c none = elim (Bool-cases (c == dot)) [
  | inl is_dot ↦ rw is_dot refl
  | inr other ↦ rw other refl
]
fronts_extend c (some front) = refl

before_dot_cons : (c : ℕ) (text : Bytes) → before_dot (c ∷ text) ≡ extend_front c (before_dot text)
unfolding before_dot extend_front
before_dot_cons c text = elim (Option-cases (before_dot text)) [
  | inl no_dot ↦ rw no_dot refl
  | inr (front, found) ↦ rw found refl
]

fronts-before_dot : (name : Bytes) → fronts name ≡ front_list (before_dot name)
unfolding fronts
fronts-before_dot [] = unfold before_dot front_list in refl
fronts-before_dot (c ∷ text) =
    ap (λ names. map (λ front. c ∷ front) names ++ (if c == dot then [] ∷ [] else []))
      (fronts-before_dot text)
    ∙ fronts_extend c (before_dot text)
    ∙ ap front_list (sym (before_dot_cons c text))

extend_front_shorter :
    (c : ℕ) (o : Option Bytes) (n : ℕ) {front : Bytes}
    → ((f : Bytes) → o ≡ some f → length f < n)
    → extend_front c o ≡ some front
    → length front < suc n
unfolding extend_front
extend_front_shorter c none n h e = elim (Bool-cases (c == dot)) [
  | inl is_dot ↦ ground arith
  | inr other ↦ ground arith
]
extend_front_shorter c (some f) n h e = let lt = h f refl in ground (arith, e)

before_dot_nil : before_dot [] ≡ none
unfolding before_dot
before_dot_nil = refl

before_dot_shorter :
    (name : Bytes) {front : Bytes} → before_dot name ≡ some front → length front < length name
before_dot_shorter [] e = absurd (ground (arith, before_dot_nil, e))
before_dot_shorter (c ∷ text) e =
    extend_front_shorter c (before_dot text) (length text)
      (λ f found. before_dot_shorter text found) (sym (before_dot_cons c text) ∙ e)

loop_hit :
    (n c : ℕ) (text : Bytes) {ids : List ℕ}
    → lookup interpreters (c ∷ text) ≡ some ids
    → interpreter_loop (suc n) (c ∷ text) ≡ some (constant_set ids)
unfolding interpreter_loop
loop_hit n c text e = rw (interpreter_loop, e) refl

loop_end :
    (n c : ℕ) (text : Bytes)
    → lookup interpreters (c ∷ text) ≡ none
    → before_dot (c ∷ text) ≡ none
    → interpreter_loop (suc n) (c ∷ text) ≡ some empty_set
unfolding interpreter_loop
loop_end n c text e f = rw (interpreter_loop, e, f) refl

loop_next :
    (n c : ℕ) (text : Bytes) {front : Bytes}
    → lookup interpreters (c ∷ text) ≡ none
    → before_dot (c ∷ text) ≡ some front
    → interpreter_loop (suc n) (c ∷ text) ≡ interpreter_loop n front
unfolding interpreter_loop
loop_next n c text e f = rw (interpreter_loop, e, f) refl

match_hit :
    (c : ℕ) (text : Bytes) (names : List Bytes) {ids : List ℕ}
    → lookup interpreters (c ∷ text) ≡ some ids
    → first_match ((c ∷ text) ∷ names) ≡ constant_set ids
unfolding first_match
match_hit c text names e = rw (first_match, e) refl

match_miss :
    (c : ℕ) (text : Bytes) (names : List Bytes)
    → lookup interpreters (c ∷ text) ≡ none
    → first_match ((c ∷ text) ∷ names) ≡ first_match names
unfolding first_match
match_miss c text names e = rw (first_match, e) refl

nothing_left : some (first_match (front_list none)) ≡ some empty_set
unfolding first_match front_list
nothing_left = refl

front_left :
    (front : Bytes)
    → some (first_match (front_list (some front))) ≡ some (first_match (front ∷ fronts front))
unfolding front_list
front_left front = refl

loop_first_match :
    (n : ℕ) (name : Bytes)
    → length name < n
    → interpreter_loop n name ≡ some (first_match (name ∷ fronts name))
loop_first_match zero name h = absurd (omega arith)
loop_first_match (suc n) [] h = unfold interpreter_loop first_match fronts in refl
loop_first_match (suc n) (c ∷ text) h = elim (Option-cases (lookup interpreters (c ∷ text))) [
  | inr (ids, found) ↦
      loop_hit n c text found ∙ ap some (sym (match_hit c text (fronts (c ∷ text)) found))
  | inl missing ↦
      let skipped = ap some (
        match_miss c text (fronts (c ∷ text)) missing
        ∙ ap first_match (fronts-before_dot (c ∷ text))) in
      elim (Option-cases (before_dot (c ∷ text))) [
        | inl no_dot ↦
            loop_end n c text missing no_dot
            ∙ sym (skipped ∙ ap (λ o. some (first_match (front_list o))) no_dot ∙ nothing_left)
        | inr (front, found) ↦
            let lt = before_dot_shorter (c ∷ text) found in
            loop_next n c text missing found
            ∙ loop_first_match n front (omega arith)
            ∙ sym (skipped ∙ ap (λ o. some (first_match (front_list o))) found ∙ front_left front)
      ]
]

-- No slash is in the text.
abbrev HasNoSlash : Bytes → Type 0
HasNoSlash [] = Unit
HasNoSlash (c ∷ text) = (c ≢ b'/') × HasNoSlash text

-- The name has no slash, and it is the whole text or stands behind a slash of it.
abbrev pub IsBaseName : Bytes → Bytes → Type 0
IsBaseName interpreter name =
    HasNoSlash name
    × ((interpreter ≡ name) ⊎ ((directory : Bytes) × (interpreter ≡ directory ++ (b'/' ∷ name))))

-- What is behind the last slash of the text owes.
abbrev BehindSlash : Bytes → Option Bytes → Type 0
BehindSlash text none = HasNoSlash text
BehindSlash text (some name) =
    HasNoSlash name × ((directory : Bytes) × (text ≡ directory ++ (b'/' ∷ name)))

after_slash_cons :
    (c : ℕ) (text : Bytes) (o : Option Bytes)
    → after_slash text ≡ o
    → BehindSlash text o
    → BehindSlash (c ∷ text) (after_slash (c ∷ text))
unfolding after_slash
after_slash_cons c text (some name) e (bare, behind) =
    let (directory, split) = behind in
    rw (after_slash, e) (bare, (c ∷ directory, ap (λ l. c ∷ l) split))
after_slash_cons c text none e bare = elim (Bool-cases (c == slash)) [
  | inl here ↦ rw (after_slash, e, here) (bare, ([], ap (λ x. x ∷ text) (ground arith)))
  | inr other ↦ rw (after_slash, e, other) (λ same. ground arith, bare)
]

after_slash-BehindSlash : (text : Bytes) → BehindSlash text (after_slash text)
after_slash-BehindSlash [] = unfold after_slash in tt
after_slash-BehindSlash (c ∷ text) =
    after_slash_cons c text (after_slash text) refl (after_slash-BehindSlash text)

BehindSlash-IsBaseName :
    (text : Bytes) (o : Option Bytes)
    → BehindSlash text o
    → IsBaseName text (elim o [ none ↦ text | some name ↦ name ])
BehindSlash-IsBaseName text none bare = (bare, inl refl)
BehindSlash-IsBaseName text (some name) (bare, behind) = (bare, inr behind)

base_name-IsBaseName : (interpreter : Bytes) → IsBaseName interpreter (base_name interpreter)
base_name-IsBaseName interpreter =
    BehindSlash-IsBaseName interpreter (after_slash interpreter)
      (after_slash-BehindSlash interpreter)

tags_from_interpreter-fronts :
    (interpreter : Bytes)
    → let name = base_name interpreter in
      tags_from_interpreter interpreter ≡ some (first_match (name ∷ fronts name))
unfolding tags_from_interpreter
tags_from_interpreter-fronts interpreter = loop_first_match _ (base_name interpreter) (omega arith)

-- The loop over the name of an interpreter ends, and its tags are those of the first entry of
-- the table among its base name, which has no slash and is the whole text or stands behind a
-- slash of it, and the fronts of that name before its dots, from the longest on; they are none
-- if there is no such entry.
pub tags_from_interpreter-first_match :
    (interpreter : Bytes)
    → IsBaseName interpreter (base_name interpreter)
      × (tags_from_interpreter interpreter
          ≡ some (first_match (base_name interpreter ∷ fronts (base_name interpreter))))
tags_from_interpreter-first_match interpreter =
    (base_name-IsBaseName interpreter, tags_from_interpreter-fronts interpreter)
