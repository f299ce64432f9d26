-- ===== src/Identify/Ids.antt =====
-- The search for the id of a tag.
use prek.Prelude.{
  every_below, every_below_at, ℕ, zero, suc, ◌+◌, ◌-◌, ◌/◌, ◌<◌, ◌≡◌, refl, sym, ap, subst, ◌⊎◌,
  inl, inr, Bool, true, false, not, Option, none, some, arith, leb, ◌==◌, if◌then◌else◌, ==_iff,
  Bytes, length, eq_bytes, eq_bytes_iff,
}
use prek.Hooks.ContentsSorter.{le_bytes}
use prek.Identify.Tags.{all_tags, all_tags_len}
use prek.Identify.{name_at, search_tag, tag_id}

is_found : ℕ → Bool
unfolding tag_id
is_found i = elim (tag_id (name_at i)) [ none ↦ false | some id ↦ id == i ]

-- The search finds each of the names.
names_found : every_below is_found all_tags_len ≡ true
unfolding all_tags every_below is_found tag_id search_tag le_bytes eq_bytes
names_found = refl

pub all_tags-length : length all_tags ≡ all_tags_len
unfolding all_tags
all_tags-length = refl

round_cases :
    (stop same : Bool) {mid : ℕ} {rest : Option ℕ} {id : ℕ}
    → (if stop then none else if same then some mid else rest) ≡ some id
    → (stop ≡ false) × (((same ≡ true) × (mid ≡ id)) ⊎ (rest ≡ some id))
round_cases true same e = ground arith
round_cases false true e = (refl, inl (refl, ground arith))
round_cases false false e = (refl, inr e)

high_rest_lt :
    (is_below : Bool) (low : ℕ) {high id : ℕ}
    → leb high low ≡ false
    → id < (if is_below then high else low + (high - low) / 2)
    → id < high
high_rest_lt true low go lt = lt
high_rest_lt false low go lt = ground arith

search_sound :
    (n : ℕ) (tag : Bytes) (low high : ℕ) {id : ℕ}
    → search_tag n tag low high ≡ some id
    → (eq_bytes (name_at id) tag ≡ true) × (id < high)
unfolding search_tag
search_sound zero tag low high e = ground arith
search_sound (suc n) tag low high e =
    let mid = low + (high - low) / 2 in
    let is_below = not (le_bytes tag (name_at mid)) in
    let high_rest = if is_below then high else mid in
    let (go, found) = round_cases (leb high low) (eq_bytes (name_at mid) tag) e in
    elim found [
      | inl (same, here) ↦ (subst (λ k. eq_bytes (name_at k) tag ≡ true) here same, ground arith)
      | inr later ↦
          let (same, lt) = search_sound n tag (if is_below then suc mid else low) high_rest later in
          (same, high_rest_lt is_below low go lt)
    ]

-- A tag has an id exactly if the table has it at that id.
pub tag_id_sound :
    (tag : Bytes) {id : ℕ} → tag_id tag ≡ some id → (tag ≡ name_at id) × (id < all_tags_len)
unfolding tag_id
tag_id_sound tag e =
    let (same, lt) = search_sound 10 tag 0 all_tags_len e in (sym ((eq_bytes_iff _ tag).0 same), lt)

found_some :
    (o : Option ℕ) (i : ℕ) → elim o [ none ↦ false | some id ↦ id == i ] ≡ true → o ≡ some i
found_some none i e = ground arith
found_some (some id) i e = ap some ((==_iff id i).0 e)

pub tag_id-name_at : (id : ℕ) → id < all_tags_len → tag_id (name_at id) ≡ some id
unfolding is_found
tag_id-name_at id lt =
    found_some (tag_id (name_at id)) id (every_below_at is_found all_tags_len id names_found lt)
