-- ===== src/Identify/Steps.antt =====
-- The steps of `tags_from_path` keep what it has said of the kind of a file.
use prek.Prelude.{
  ℕ, ◌<◌, ◌≡◌, refl, ap, ap₂, subst, ◌∙◌, inl, inr, Bool, true, false, ◌&&◌, ◌||◌, Option, none,
  some, List, [], ◌∷◌, arith, ◌==◌, if◌then◌else◌, ==_iff, Bool-cases, Option-cases, Bytes, ◌>>=◌,
}
use prek.Identify.Tags.{all_tags_len, tag_text, tag_binary}
use prek.Identify.Text.{Content, is_text_file}
use prek.Identify.Interpreter.{constant_set}
use prek.Identify.Shebang.{
  LineRead, line, invalid_data, other_error, parse_failed, Parsed, command, failed, non_empty,
  strip_shebang, is_printable_shebang, trim, env_command, is_nix_shell, parse_nix_shebang,
  parse_line, parse_shebang,
}
use prek.Identify.Files.{add_interpreter, add_shebang, add_content}
use prek.Identify.Sets.{IsTagSet, is_disjoint_iff, member_union, union-IsTagSet}
use prek.Identify.Refine.{set_bit-Represents}
use prek.Identify.Reading.{insert_read, &&-false, ||-false_right as ||-false}
use prek.Identify.Ordinary.{
  is_kind, IsOrdinary, constant_set-Represents, tags_from_interpreter-IsOrdinary,
}
use prek.Identify.{TagSet, insert, set_bit, bitor_assign, is_disjoint, member}

abbrev HasProgram : Parsed → Type 0
HasProgram (command []) = ⊥
HasProgram _ = Unit

non_empty-HasProgram : (tokens : List Bytes) → HasProgram (non_empty tokens)
unfolding non_empty
non_empty-HasProgram [] = tt
non_empty-HasProgram (program ∷ args) = tt

tokens_HasProgram :
    (split : Bytes → Option (List Bytes)) (reader : List LineRead) (o : Option (List Bytes))
    → HasProgram (elim o [
      | none ↦ failed parse_failed
      | some tokens ↦ non_empty (
          if is_nix_shell (env_command tokens)
          then parse_nix_shebang split reader (env_command tokens)
          else env_command tokens)
    ])
tokens_HasProgram split reader none = tt
tokens_HasProgram split reader (some tokens) = non_empty-HasProgram _

parse_line-HasProgram :
    (split : Bytes → Option (List Bytes)) (first : Bytes) (reader : List LineRead)
    → HasProgram (parse_line split first reader)
unfolding parse_line
parse_line-HasProgram split first reader = elim (Option-cases (strip_shebang first)) [
  | inl missing ↦ rw (parse_line, missing) tt
  | inr (text, found) ↦ elim (Bool-cases (is_printable_shebang first)) [
    | inl printable ↦
        rw (parse_line, found, printable) (tokens_HasProgram split reader (split (trim text)))
    | inr other ↦ rw (parse_line, found, other) tt
  ]
]

parse_shebang-HasProgram :
    (split : Bytes → Option (List Bytes)) (reader : List LineRead)
    → HasProgram (parse_shebang split reader)
unfolding parse_shebang
parse_shebang-HasProgram split [] = parse_line-HasProgram split [] []
parse_shebang-HasProgram split (invalid_data ∷ reader) = tt
parse_shebang-HasProgram split (other_error ∷ reader) = tt
parse_shebang-HasProgram split (line first ∷ reader) = parse_line-HasProgram split first reader

-- Sets that agree on the kinds.
pub record HasKinds (s : TagSet) (p : ℕ → Bool) : Type 0 where
  pub valid : IsTagSet s
  pub same : (i : ℕ) → is_kind i ≡ true → member s i ≡ p i

pub union-HasKinds :
    (a b : TagSet) (p : ℕ → Bool) → HasKinds a p → IsOrdinary b → HasKinds (bitor_assign a b) p
union-HasKinds a b p ha hb = record {
  valid = union-IsTagSet a b ha.valid hb.valid;
  same = λ i k.
      member_union a b i ha.valid hb.valid
      ∙ ap₂ ◌||◌ (ha.same i k) (hb.no_kind i k)
      ∙ ||-false (p i);
}

add_interpreter-HasKinds :
    (s : TagSet) (p : ℕ → Bool) (parsed : Parsed)
    → HasKinds s p
    → HasProgram parsed
    → (t : TagSet) × (add_interpreter s parsed ≡ some t) × HasKinds t p
unfolding add_interpreter
add_interpreter-HasKinds s p (failed e) h q = (s, refl, h)
add_interpreter-HasKinds s p (command []) h q = absurd q
add_interpreter-HasKinds s p (command (program ∷ args)) h q =
    let (t, found, ordinary) = tags_from_interpreter-IsOrdinary program in
    (
      bitor_assign s t,
      ap (λ o. o >>= λ t. some (bitor_assign s t)) found,
      union-HasKinds s t p h ordinary,
    )

pub add_shebang-HasKinds :
    (split : Bytes → Option (List Bytes)) (s : TagSet) (p : ℕ → Bool) (executable : Bool)
    (reader : Option (List LineRead))
    → HasKinds s p
    → (t : TagSet) × (add_shebang split s executable reader ≡ some t) × HasKinds t p
unfolding add_shebang
add_shebang-HasKinds split s p false reader h = (s, refl, h)
add_shebang-HasKinds split s p true none h = (s, refl, h)
add_shebang-HasKinds split s p true (some reader) h =
    add_interpreter-HasKinds s p (parse_shebang split reader) h
      (parse_shebang-HasProgram split reader)

-- Whether a set says text or binary.
abbrev pub has_content : TagSet → Bool
has_content s = member s tag_text || member s tag_binary

||-true : (b : Bool) → b || true ≡ true
||-true true = refl
||-true false = refl

not_kind : (id i : ℕ) → is_kind id ≡ false → is_kind i ≡ true → (i == id) ≡ false
not_kind id i other_kind k = elim (Bool-cases (i == id)) [
  | inl here ↦
      let same = subst (λ x. is_kind x ≡ true) ((==_iff i id).0 here) k in
      absurd (ground (arith, other_kind, same))
  | inr other ↦ other
]

-- A tag that is other_kind kind, inserted.
insert-HasKinds :
    (s : TagSet) (p : ℕ → Bool) (id : ℕ)
    → id < all_tags_len
    → is_kind id ≡ false
    → HasKinds s p
    → HasKinds (record { bits = set_bit id s.bits }) p
      × (member (record { bits = set_bit id s.bits }) id ≡ true)
insert-HasKinds s p id lt other_kind h =
    let rep =
      set_bit-Represents s (member s) id lt (record { valid = h.valid; same = λ i. refl }) in
    (
      record {
        valid = rep.valid;
        same =
            λ i k. rep.same i ∙ ap₂ ◌||◌ (h.same i k) (not_kind id i other_kind k) ∙ ||-false (p i);
      },
      rep.same id ∙ ap (λ b. member s id || b) ((==_iff id id).1 refl) ∙ ||-true (member s id),
    )

inserted_content :
    (text : Bool) (s : TagSet) (p : ℕ → Bool)
    → HasKinds s p
    → (t : TagSet) × (insert s (if text then tag_text else tag_binary) ≡ some t)
      × HasKinds t p
      × (has_content t ≡ true)
inserted_content true s p h =
    let (kinds, here) = insert-HasKinds s p tag_text (omega arith) refl h in
    (
      record { bits = set_bit tag_text s.bits },
      insert_read s tag_text (omega arith),
      kinds,
      ap (λ b. b || member (record { bits = set_bit tag_text s.bits }) tag_binary) here,
    )
inserted_content false s p h =
    let (kinds, here) = insert-HasKinds s p tag_binary (omega arith) refl h in
    (
      record { bits = set_bit tag_binary s.bits },
      insert_read s tag_binary (omega arith),
      kinds,
      ap (λ b. member (record { bits = set_bit tag_binary s.bits }) tag_text || b) here ∙ ||-true _,
    )

none_shared :
    (s : TagSet) (i : ℕ)
    → has_content s ≡ false
    → member s i && (i == tag_binary || (i == tag_text || false)) ≡ false
none_shared s i e = elim (Bool-cases (i == tag_binary)) [
  | inl binary ↦
      let here = ap (member s) ((==_iff i tag_binary).0 binary) in ground (arith, here, e)
  | inr other ↦ elim (Bool-cases (i == tag_text)) [
    | inl text ↦ let here = ap (member s) ((==_iff i tag_text).0 text) in ground (arith, here, e)
    | inr neither ↦ rw (other, neither) (&&-false (member s i))
  ]
]

no_content-is_disjoint :
    (s : TagSet)
    → IsTagSet s
    → has_content s ≡ false
    → is_disjoint s (constant_set (tag_binary ∷ (tag_text ∷ []))) ≡ true
no_content-is_disjoint s h e =
    let rep = constant_set-Represents (tag_binary ∷ (tag_text ∷ [])) refl in
    (is_disjoint_iff s (constant_set (tag_binary ∷ (tag_text ∷ []))) h rep.valid).1
      (λ i. ap (λ b. member s i && b) (rep.same i) ∙ none_shared s i e)

pub add_content-HasKinds :
    (s : TagSet) (p : ℕ → Bool) (content : Content)
    → HasKinds s p
    → (t : TagSet) × (add_content s content ≡ some t) × HasKinds t p × (has_content t ≡ true)
unfolding add_content
add_content-HasKinds s p content h =
    elim (Bool-cases (is_disjoint s (constant_set (tag_binary ∷ (tag_text ∷ []))))) [
      | inl disjoint ↦
          let (t, inserted, kinds, has) = inserted_content (is_text_file content) s p h in
          (t, rw disjoint inserted, kinds, has)
      | inr shared ↦ elim (Bool-cases (has_content s)) [
        | inl has ↦ (s, rw shared refl, h, has)
        | inr without ↦ absurd (ground (arith, shared, no_content-is_disjoint s h.valid without))
      ]
    ]
