-- ===== src/Identify/Interpreter.antt =====
-- The tags of an interpreter: `tags_from_interpreter`.
pub mod Fronts
use prek.Prelude.{
  ℕ, zero, suc, ◌<◌, ◌≡◌, ◌≢◌, ◌⊎◌, refl, sym, ap, ◌∙◌, inl, inr, Option, none, some, List, [], ◌∷◌,
  ◌++◌, map, arith, ◌==◌, if◌then◌else◌, Bool-cases, Option-cases, Bytes, length,
}
use prek.Identify.{TagSet, empty_set, new}
use prek.Identify.Tables.{lookup, interpreters}

abbrev slash : ℕ
slash = b'/'

abbrev dot : ℕ
dot = b'.'

-- What is behind the last slash, or the whole text.
unfoldable pub after_slash : Bytes → Option Bytes
after_slash [] = none
after_slash (c ∷ text) = elim (after_slash text) [
  | none ↦ if c == slash then some text else none
  | some rest ↦ some rest
]

abbrev pub base_name : Bytes → Bytes
base_name interpreter = elim (after_slash interpreter) [ none ↦ interpreter | some name ↦ name ]

-- What is before the last dot.
unfoldable pub before_dot : Bytes → Option Bytes
before_dot [] = none
before_dot (c ∷ text) = elim (before_dot text) [
  | none ↦ if c == dot then some [] else none
  | some front ↦ some (c ∷ front)
]

-- `TagSet::new` in a constant, where a panic is an error of the compiler.
unfoldable pub constant_set : List ℕ → TagSet
constant_set ids = elim (new ids) [ none ↦ empty_set | some s ↦ s ]

-- The loop on fuel; none if the fuel is used up.
unfoldable pub interpreter_loop : ℕ → Bytes → Option TagSet
interpreter_loop zero name = none
interpreter_loop (suc n) [] = some empty_set
interpreter_loop (suc n) (c ∷ text) = elim (lookup interpreters (c ∷ text)) [
  | some ids ↦ some (constant_set ids)
  | none ↦ elim (before_dot (c ∷ text)) [
    | none ↦ some empty_set
    | some front ↦ interpreter_loop n front
  ]
]

unfoldable pub tags_from_interpreter : Bytes → Option TagSet
tags_from_interpreter interpreter =
    let name = base_name interpreter in interpreter_loop (suc (length name)) name

-- The fronts of a name before each of its dots, from the longest on.
pub fronts : Bytes → List Bytes
fronts [] = []
fronts (c ∷ text) = map (λ front. c ∷ front) (fronts text) ++ (if c == dot then [] ∷ [] else [])

-- The set of the first name that the table has; the empty name is none.
unfoldable pub first_match : List Bytes → TagSet
first_match [] = empty_set
first_match ([] ∷ names) = first_match names
first_match ((c ∷ text) ∷ names) = elim (lookup interpreters (c ∷ text)) [
  | some ids ↦ constant_set ids
  | none ↦ first_match names
]
