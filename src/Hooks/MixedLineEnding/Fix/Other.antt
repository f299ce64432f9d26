-- ===== src/Hooks/MixedLineEnding/Fix/Other.antt =====
-- crates/prek/src/hooks/pre_commit_hooks/mixed_line_ending.rs, the conversion to CRLF or CR.
use prek.Prelude.{
  ℕ, zero, suc, ◌+◌, ◌-◌, ◌≤◌, ◌<◌, ◌≡◌, refl, sym, ap, ap₂, ◌∙◌, inl, inr, false, Option, none,
  some, ◌++◌, append_assoc, arith, ltb, if◌then◌else◌, Bool-cases, Option-cases, Bytes, length,
  take, drop, length-drop, drop-drop, eq_bytes, eq_bytes_iff,
}
use prek.Hooks.Bytes.{Memchr, lf, cr}
use prek.Hooks.MixedLineEnding.Fix.{
  Memchr2, position2, ending_len, slice, OtherState, other_round, other_loop, other_start,
  other_finish, other_end,
}
use prek.Hooks.MixedLineEnding.Fix.Slices.{
  slice-split, slice-empty, slice-rest, ending_len_le, ending_len-drop, position2_lt, ltb-is_empty,
  if_append,
}
use prek.Hooks.MixedLineEnding.Fix.Reference.{
  body, unterminated, behind, body-ending, body-no_ending, unterminated-ending,
  unterminated-is_empty, converted,
}

module _ (contents ending : Bytes) where
  -- What holds between the rounds.
  pub record Inv (s : OtherState) : Type 0 where
    pub ordered : s.line_start ≤ s.search_start
    pub inside : s.search_start ≤ length contents
    pub done :
        s.new_contents
          ++ (slice s.line_start s.search_start contents
              ++ body ending false (drop s.search_start contents))
        ≡ body ending false contents
    pub final : unterminated false (drop s.search_start contents) ≡ unterminated false contents

  module _ (s : OtherState) (i : Inv s) (offset : ℕ)
      (found : position2 cr lf (drop s.search_start contents) ≡ some offset) where
    abbrev index : ℕ
    index = s.search_start + offset

    abbrev next : ℕ
    next = index + ending_len contents index

    index_lt : index < length contents
    index_lt = omega (
      arith,
      position2_lt cr lf (drop s.search_start contents) offset found,
      length-drop s.search_start contents,
    )

    pub next_lt : s.search_start < next
    next_lt = ground arith

    next_le : next ≤ length contents
    next_le = ending_len_le contents index index_lt

    abbrev unread : Bytes
    unread = drop s.search_start contents

    behind-next : behind (drop offset unread) ≡ drop next contents
    behind-next =
        let e = drop-drop s.search_start offset contents in
        ap behind e
        ∙ ap (λ n. drop n (drop index contents)) (sym (ending_len-drop contents index))
        ∙ drop-drop index (ending_len contents index) contents

    body-unread :
        body ending false unread
        ≡ take offset unread ++ (ending ++ body ending false (drop next contents))
    body-unread =
        body-ending ending unread offset found
        ∙ ap (λ l. take offset unread ++ (ending ++ body ending false l)) behind-next

    slice-unread :
        slice s.line_start index contents
        ≡ slice s.line_start s.search_start contents ++ take offset unread
    slice-unread =
        let e : index - s.search_start ≡ offset = omega arith in
        slice-split s.line_start s.search_start index contents i.ordered (omega arith)
        ∙ ap (λ n. slice s.line_start s.search_start contents ++ take n unread) e

    -- What is written, up to and with the ending at the index.
    done-next :
        s.new_contents
          ++ (slice s.line_start index contents
              ++ (ending ++ body ending false (drop next contents)))
        ≡ body ending false contents
    done-next =
        let tail = ending ++ body ending false (drop next contents) in
        ap (λ l. s.new_contents ++ (l ++ tail)) slice-unread
        ∙ ap (λ l. s.new_contents ++ l)
            (append_assoc (slice s.line_start s.search_start contents) (take offset unread) tail)
        ∙ ap (λ l. s.new_contents ++ (slice s.line_start s.search_start contents ++ l))
            (sym body-unread)
        ∙ i.done

    final-next : unterminated false (drop next contents) ≡ unterminated false contents
    final-next =
        ap (unterminated false) (sym behind-next)
        ∙ sym (unterminated-ending false unread offset found)
        ∙ i.final

    kept-Inv : slice index next contents ≡ ending → Inv (record s { search_start = next })
    kept-Inv h = record {
      ordered = omega (arith, i.ordered, next_lt);
      inside = next_le;
      done =
          ap (λ l. s.new_contents ++ (l ++ body ending false (drop next contents)))
            (slice-split s.line_start index next contents (omega (arith, i.ordered)) (omega arith)
              ∙ ap (λ l. slice s.line_start index contents ++ l) h)
          ∙ ap (λ l. s.new_contents ++ l)
              (append_assoc (slice s.line_start index contents) ending
                (body ending false (drop next contents)))
          ∙ done-next;
      final = final-next;
    }

    written-Inv : Inv (record {
      new_contents = s.new_contents ++ slice s.line_start index contents ++ ending;
      line_start = next;
      search_start = next;
    })
    written-Inv = record {
      ordered = omega arith;
      inside = next_le;
      done =
          ap
            (λ l.
              s.new_contents
              ++ slice s.line_start index contents
              ++ ending
              ++ (l ++ body ending false (drop next contents)))
            (slice-empty next contents)
          ∙ append_assoc (s.new_contents ++ slice s.line_start index contents) ending
              (body ending false (drop next contents))
          ∙ append_assoc s.new_contents (slice s.line_start index contents)
              (ending ++ body ending false (drop next contents))
          ∙ done-next;
      final = final-next;
    }

    pub other_round-Inv : Inv (other_round contents ending index s)
    unfolding other_round
    other_round-Inv = elim (Bool-cases (eq_bytes (slice index next contents) ending)) [
      | inl e ↦ rw e (kept-Inv ((eq_bytes_iff (slice index next contents) ending).0 e))
      | inr e ↦ rw e written-Inv
    ]

    pub other_round-search_start : (other_round contents ending index s).search_start ≡ next
    unfolding other_round
    other_round-search_start = ground arith

module _ (m : Memchr) (m2 : Memchr2) (contents ending : Bytes) where
  abbrev Ends : Option OtherState → Type 0
  Ends r =
      (s : OtherState) × (r ≡ some s)
      × Inv contents ending s
      × (position2 cr lf (drop s.search_start contents) ≡ none)

  other_loop-Ends :
      (fuel : ℕ) (s : OtherState)
      → Inv contents ending s
      → length contents - s.search_start < fuel
      → Ends (other_loop m m2 contents ending fuel s)
  unfolding other_loop
  other_loop-Ends zero s i h = absurd (omega arith)
  other_loop-Ends (suc fuel) s i h =
      elim (Option-cases (position2 cr lf (drop s.search_start contents))) [
        | inl e ↦
            (s, ground (arith, m2.memchr2_position cr lf (drop s.search_start contents), e), i, e)
        | inr (offset, e) ↦
            let after = other_round contents ending (s.search_start + offset) s in
            let less : length contents - after.search_start < fuel = omega (
              arith,
              other_round-search_start contents ending s i offset e,
              next_lt contents ending s i offset e,
              position2_lt cr lf (drop s.search_start contents) offset e,
              length-drop s.search_start contents,
            ) in
            let (s', r, j, none_left) =
              other_loop-Ends fuel after (other_round-Inv contents ending s i offset e) less in
            (
              s',
              ground (arith, m2.memchr2_position cr lf (drop s.search_start contents), e, r),
              j,
              none_left,
            )
      ]

  other_start-Inv : Inv contents ending (other_start)
  other_start-Inv = record {
    ordered = omega arith;
    inside = omega arith;
    done = refl;
    final = refl;
  }

  other_finish-converted :
      (s : OtherState)
      → Inv contents ending s
      → position2 cr lf (drop s.search_start contents) ≡ none
      → other_finish contents ending s ≡ converted ending contents
  unfolding other_finish converted
  other_finish-converted s i h =
      let unread = drop s.search_start contents in
      let all_lines : s.new_contents ++ drop s.line_start contents ≡ body ending false contents =
        ap (λ l. s.new_contents ++ l)
          (sym (slice-rest s.line_start s.search_start contents i.ordered)
            ∙ ap (λ l. slice s.line_start s.search_start contents ++ l)
                (sym (body-no_ending ending unread h)))
        ∙ i.done in
      let final : ltb s.search_start (length contents) ≡ unterminated false contents =
        ltb-is_empty s.search_start contents ∙ sym (unterminated-is_empty unread h) ∙ i.final in
      ap₂ (λ t l. if t then l ++ ending else l) final all_lines
      ∙ if_append (unterminated false contents) (body ending false contents) ending

  pub other_loop_lem :
      other_end contents ending
        (other_loop m m2 contents ending (suc (length contents)) (other_start))
      ≡ some (converted ending contents)
  other_loop_lem =
      let (s, e, i, none_left) =
        other_loop-Ends (suc (length contents)) (other_start) other_start-Inv (omega arith) in
      ap (other_end contents ending) e ∙ ap some (other_finish-converted s i none_left)
