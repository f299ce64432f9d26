-- ===== src/Hooks/MixedLineEnding/Fix/Lf.antt =====
-- crates/prek/src/hooks/pre_commit_hooks/mixed_line_ending.rs, the conversion to LF in place.
use prek.Prelude.{
  ℕ, zero, suc, ◌+◌, ◌-◌, ◌≤◌, ◌<◌, ◌≡◌, refl, sym, ap, ap₂, ◌∙◌, inl, inr, Bool, true, false,
  Option, none, some, [], ◌∷◌, ◌++◌, append_assoc, append-nil, arith, if◌then◌else◌, Option-cases,
  Bytes, length, take, drop, length-drop, take-length, drop-drop,
}
use prek.Hooks.Bytes.{Memchr, lf, cr, position, copy_within}
use prek.Hooks.Bytes.CopyWithin.{copy_within-take, copy_within-drop, length-copy_within}
use prek.Hooks.MixedLineEnding.{lf_bytes}
use prek.Hooks.MixedLineEnding.Fix.{
  Memchr2, has_at, set_at, LfState, lf_round, lf_loop, lf_start, lf_finish, lf_end,
}
use prek.Hooks.MixedLineEnding.Fix.Reference.{body, body-cr, body-no_cr, skip_lf}
use prek.Hooks.MixedLineEnding.Fix.Slices.{
  set_at-take, set_at-drop, length-set_at, position_lt, skip_lf_le, has_at-drop, drop-later,
}

-- What holds between the rounds.
pub record Inv (original : Bytes) (s : LfState) : Type 0 where
  pub same : length s.contents ≡ length original
  pub written_le : s.written ≤ s.copied
  pub copied_le : s.copied ≤ length original
  pub intact : drop s.copied s.contents ≡ drop s.copied original
  pub done :
      take s.written s.contents ++ body lf_bytes false (drop s.copied original)
      ≡ body lf_bytes false original

module _ (original : Bytes) (s : LfState) (i : Inv original s) (offset : ℕ)
    (found : position cr (drop s.copied s.contents) ≡ some offset) where
  abbrev index : ℕ
  index = s.copied + offset

  abbrev target : ℕ
  target = s.written + (index - s.copied)

  abbrev moved : Bytes
  moved = copy_within s.copied index s.written s.contents

  abbrev skip : ℕ
  skip = if has_at s.contents (index + 1) lf then 1 else 0

  abbrev next : ℕ
  next = index + 1 + skip

  inside : index < length s.contents
  inside = omega (
    arith,
    position_lt cr (drop s.copied s.contents) offset found,
    length-drop s.copied s.contents,
    i.same,
    i.copied_le,
  )

  ordered : s.copied ≤ index
  ordered = omega arith

  length-moved : length moved ≡ length s.contents
  length-moved =
      length-copy_within s.copied index s.written s.contents ordered (omega (arith, inside))
        i.written_le

  target_lt : target < length moved
  target_lt = omega (arith, length-moved, inside, i.written_le)

  skip-behind : skip ≡ skip_lf (drop (index + 1) s.contents)
  skip-behind = ap (λ t. if t then 1 else 0) (has_at-drop (index + 1) lf s.contents)

  next_le : next ≤ length s.contents
  next_le = omega (
    arith,
    skip-behind,
    skip_lf_le (drop (index + 1) s.contents),
    length-drop (index + 1) s.contents,
    inside,
  )

  abbrev after : LfState
  after = lf_round index s

  after-intact : drop next (set_at target lf moved) ≡ drop next original
  after-intact =
      let j = next - (target + 1) in
      let e : target + 1 + j ≡ next = omega (arith, i.written_le) in
      let e' : target + (1 + j) ≡ next = omega (arith, i.written_le) in
      ap (λ k. drop k (set_at target lf moved)) (sym e)
      ∙ set_at-drop target lf moved target_lt j
      ∙ ap (λ k. drop k moved) (e ∙ sym e')
      ∙ copy_within-drop s.copied index s.written s.contents ordered (omega (arith, inside))
          i.written_le (1 + j)
      ∙ drop-drop target (1 + j) s.contents
      ∙ ap (λ k. drop k s.contents) e'
      ∙ drop-later s.copied next s.contents original (omega arith) i.intact

  abbrev unread : Bytes
  unread = drop s.copied original

  next-unread :
      drop next original ≡ drop (skip_lf (drop (suc offset) unread)) (drop (suc offset) unread)
  next-unread =
      let at : s.copied + suc offset ≡ index + 1 = omega arith in
      let tail : drop (suc offset) unread ≡ drop (index + 1) original =
        drop-drop s.copied (suc offset) original ∙ ap (λ k. drop k original) at in
      let same_tail : drop (index + 1) s.contents ≡ drop (suc offset) unread =
        drop-later s.copied (index + 1) s.contents original (omega arith) i.intact ∙ sym tail in
      sym (drop-drop (index + 1) skip original)
      ∙ ap (drop skip) (sym tail)
      ∙ ap (λ k. drop k (drop (suc offset) unread)) (skip-behind ∙ ap skip_lf same_tail)

  out-after :
      take (target + 1) (set_at target lf moved)
      ≡ take s.written s.contents ++ (take offset unread ++ lf ∷ [])
  out-after =
      let n : index - s.copied ≡ offset = omega arith in
      set_at-take target lf moved target_lt
      ∙ ap (λ l. l ++ lf ∷ [])
          (copy_within-take s.copied index s.written s.contents ordered (omega (arith, inside))
              i.written_le
            ∙ ap₂ (λ k l. take s.written s.contents ++ take k l) n i.intact)
      ∙ append_assoc (take s.written s.contents) (take offset unread) (lf ∷ [])

  after-done :
      take (target + 1) (set_at target lf moved) ++ body lf_bytes false (drop next original)
      ≡ body lf_bytes false original
  after-done =
      let found' : position cr unread ≡ some offset = ap (position cr) (sym i.intact) ∙ found in
      let tail =
        body lf_bytes false
          (drop (skip_lf (drop (suc offset) unread)) (drop (suc offset) unread)) in
      ap₂ (λ l k. l ++ body lf_bytes false k) out-after next-unread
      ∙ append_assoc (take s.written s.contents) (take offset unread ++ lf ∷ []) tail
      ∙ ap (λ l. take s.written s.contents ++ l)
          (append_assoc (take offset unread) (lf ∷ []) tail ∙ sym (body-cr unread offset found'))
      ∙ i.done

  pub after-Inv : Inv original after
  unfolding lf_round
  after-Inv = record {
    same = length-set_at target lf moved target_lt ∙ length-moved ∙ i.same;
    written_le = omega (arith, i.written_le);
    copied_le = omega (arith, next_le, i.same);
    intact = after-intact;
    done = after-done;
  }

module _ (m : Memchr) (m2 : Memchr2) (original : Bytes) where
  abbrev Ends : Option LfState → Type 0
  Ends r =
      (s : LfState) × (r ≡ some s)
      × Inv original s
      × (position cr (drop s.copied s.contents) ≡ none)

  lf_loop-Ends :
      (fuel : ℕ) (s : LfState)
      → Inv original s
      → length original - s.copied < fuel
      → Ends (lf_loop m m2 fuel s)
  unfolding lf_loop lf_round
  lf_loop-Ends zero s i h = absurd (omega arith)
  lf_loop-Ends (suc fuel) s i h = elim (Option-cases (position cr (drop s.copied s.contents))) [
    | inl e ↦ (s, ground (arith, m.memchr_position cr (drop s.copied s.contents), e), i, e)
    | inr (offset, e) ↦
        let (s', r, j, none_left) =
          lf_loop-Ends fuel (lf_round (s.copied + offset) s) (after-Inv original s i offset e) (
            omega (
              arith,
              position_lt cr (drop s.copied s.contents) offset e,
              length-drop s.copied s.contents,
              i.same,
            )) in
        (s', ground (arith, m.memchr_position cr (drop s.copied s.contents), e, r), j, none_left)
  ]

  lf_start-Inv : Inv original (lf_start original)
  lf_start-Inv = record {
    same = refl;
    written_le = omega arith;
    copied_le = omega arith;
    intact = refl;
    done = refl;
  }

  truncated-body :
      (s : LfState)
      → Inv original s
      → position cr (drop s.copied s.contents) ≡ none
      → take
          (s.written + length s.contents - s.copied)
          (copy_within s.copied (length s.contents) s.written s.contents)
        ≡ body lf_bytes false original
  truncated-body s i h =
      let n : s.written + length s.contents - s.copied
          ≡ s.written + (length s.contents - s.copied) =
        omega (arith, i.same, i.copied_le) in
      let all_left : length (drop s.copied s.contents) ≤ length s.contents - s.copied =
        omega (arith, length-drop s.copied s.contents) in
      let tail : drop s.copied s.contents ≡ body lf_bytes false (drop s.copied original) =
        sym (body-no_cr (drop s.copied s.contents) h) ∙ ap (body lf_bytes false) i.intact in
      ap (λ k. take k (copy_within s.copied (length s.contents) s.written s.contents)) n
      ∙ copy_within-take s.copied (length s.contents) s.written s.contents
          (omega (arith, i.same, i.copied_le)) (omega arith) i.written_le
      ∙ ap (λ l. take s.written s.contents ++ l)
          (take-length (length s.contents - s.copied) (drop s.copied s.contents) all_left ∙ tail)
      ∙ i.done

  pub lf_finish-body :
      (s : LfState)
      → Inv original s
      → position cr (drop s.copied s.contents) ≡ none
      → (needs_final : Bool)
      → lf_finish needs_final s
        ≡ body lf_bytes false original ++ (if needs_final then lf ∷ [] else [])
  unfolding lf_finish
  lf_finish-body s i h true = ap (λ l. l ++ lf ∷ []) (truncated-body s i h)
  lf_finish-body s i h false =
      truncated-body s i h ∙ sym (append-nil (body lf_bytes false original))

  pub lf_loop_lem :
      (needs_final : Bool)
      → lf_end needs_final (lf_loop m m2 (suc (length original)) (lf_start original))
        ≡ some (body lf_bytes false original ++ (if needs_final then lf ∷ [] else []))
  lf_loop_lem needs_final =
      let (s, e, i, none_left) =
        lf_loop-Ends (suc (length original)) (lf_start original) lf_start-Inv (omega arith) in
      ap (lf_end needs_final) e ∙ ap some (lf_finish-body s i none_left needs_final)
