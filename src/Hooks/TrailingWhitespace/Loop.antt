-- ===== src/Hooks/TrailingWhitespace/Loop.antt =====
-- crates/prek/src/hooks/pre_commit_hooks/fix_trailing_whitespace.rs: the compaction in place,
-- and the states that the loop reaches.
use prek.Prelude.{
  ℕ, ◌+◌, ◌-◌, ◌≤◌, ◌<◌, ◌≡◌, sym, ap, ap₂, ◌∙◌, subst, Bytes, ◌++◌, length, take, drop, arith,
  take-split, take-take, drop-take, drop-drop, append_assoc,
}
use prek.Hooks.Bytes.{copy_within}
use prek.Hooks.Bytes.CopyWithin.{copy_within-take, copy_within-drop, length-copy_within}
use prek.Hooks.TrailingWhitespace.{Cut, compact, State}

-- The state against the file as it was read.
pub record Inv (original : Bytes) (s : State) : Type 0 where
  pub same : length s.content ≡ length original
  pub written_le : s.written ≤ s.copied
  pub copied_le : s.copied ≤ s.line_start
  pub inside : s.line_start ≤ length original
  pub gained : 0 < s.copied → s.written < s.copied
  pub intact : drop s.copied s.content ≡ drop s.copied original

-- The lines done so far: those written, and those that are still in place.
abbrev pub out : Bytes → State → Bytes
out original s = take s.written s.content ++ take (s.line_start - s.copied) (drop s.copied original)

-- The unread bytes are those of the file.
pub unread :
    (original : Bytes) (s : State)
    → Inv original s
    → (k : ℕ) → s.copied ≤ k
    → drop k s.content ≡ drop k original
unread original s i k h =
    let e : s.copied + (k - s.copied) ≡ k = omega arith in
    subst (λ k. drop k s.content ≡ drop k original) e
      (sym (drop-drop s.copied (k - s.copied) s.content)
        ∙ ap (drop (k - s.copied)) i.intact
        ∙ drop-drop s.copied (k - s.copied) original)

-- One line on, from `start`: what is still in place grows by that line.
grow :
    (original : Bytes) (copied start n : ℕ)
    → copied ≤ start
    → take (start + n - copied) (drop copied original)
      ≡ take (start - copied) (drop copied original) ++ take n (drop start original)
grow original copied start n h =
    let e : start + n - copied ≡ (start - copied) + n = omega arith in
    let e' : copied + (start - copied) ≡ start = omega arith in
    ap (λ k. take k (drop copied original)) e
    ∙ take-split (start - copied) n (drop copied original)
    ∙ ap (λ l. take (start - copied) (drop copied original) ++ take n l)
        (drop-drop copied (start - copied) original ∙ ap (λ k. drop k original) e')

module _ (original : Bytes) (s : State) (i : Inv original s) (n : ℕ)
    (within : s.line_start + n ≤ length original) where
  abbrev clean : State
  clean = record s { line_start = s.line_start + n }

  pub clean-Inv : Inv original clean
  clean-Inv = record {
    same = i.same;
    written_le = i.written_le;
    copied_le = omega arith;
    inside = within;
    gained = i.gained;
    intact = i.intact;
  }

  pub out-clean : out original clean ≡ out original s ++ take n (drop s.line_start original)
  out-clean =
      ap (λ l. take s.written s.content ++ l) (grow original s.copied s.line_start n i.copied_le)
      ∙ sym (append_assoc (take s.written s.content) _ _)

  module _ (c : Cut) (shorter : c.trimmed_end < c.suffix_start) (short : c.suffix_start ≤ n) where
    abbrev fixed : State
    fixed = record (compact s c) { line_start = s.line_start + n }

    abbrev end : ℕ
    end = s.line_start + c.trimmed_end

    -- The whole line, cut.
    abbrev line : Bytes
    line = take n (drop s.line_start original)

    ordered : s.copied ≤ end
    ordered = omega (arith, i.copied_le)

    inside_end : end ≤ length s.content
    inside_end = omega (arith, i.same)

    abbrev target : ℕ
    target = s.written + (end - s.copied)

    abbrev rest_at : ℕ
    rest_at = s.line_start + c.suffix_start

    fixed-intact :
        drop rest_at (copy_within s.copied end s.written s.content) ≡ drop rest_at original
    fixed-intact =
        let j = rest_at - target in
        let e : target + j ≡ rest_at = omega (arith, i.written_le, i.copied_le) in
        subst (λ k. drop k (copy_within s.copied end s.written s.content) ≡ drop k original) e
          (copy_within-drop s.copied end s.written s.content ordered inside_end i.written_le j
            ∙ drop-drop target j s.content
            ∙ unread original s i (target + j) (omega (arith, i.written_le, i.copied_le)))

    pub fixed-Inv : Inv original fixed
    unfolding compact
    fixed-Inv = record {
      same =
          length-copy_within s.copied end s.written s.content ordered inside_end i.written_le
          ∙ i.same;
      written_le = omega (arith, i.written_le, ordered);
      copied_le = omega arith;
      inside = within;
      gained = λ _. omega (arith, i.written_le, ordered);
      intact = fixed-intact;
    }

    -- What is still in place of the line.
    in_place : take (s.line_start + n - rest_at) (drop rest_at original) ≡ drop c.suffix_start line
    in_place =
        let e : s.line_start + n - rest_at ≡ n - c.suffix_start = omega arith in
        ap (λ k. take k (drop rest_at original)) e
        ∙ ap (take (n - c.suffix_start)) (sym (drop-drop s.line_start c.suffix_start original))
        ∙ sym (drop-take c.suffix_start n (drop s.line_start original))

    -- What the copy brings to the front.
    brought :
        take (end - s.copied) (drop s.copied s.content)
        ≡ take (s.line_start - s.copied) (drop s.copied original) ++ take c.trimmed_end line
    brought =
        ap (take (end - s.copied)) i.intact
        ∙ grow original s.copied s.line_start c.trimmed_end i.copied_le
        ∙ ap (λ l. take (s.line_start - s.copied) (drop s.copied original) ++ l)
            (sym (take-take c.trimmed_end n (drop s.line_start original) (omega arith)))

    pub out-fixed :
        out original fixed ≡ out original s ++ (take c.trimmed_end line ++ drop c.suffix_start line)
    unfolding compact
    out-fixed =
        ap₂ ◌++◌
          (copy_within-take s.copied end s.written s.content ordered inside_end i.written_le
            ∙ ap (λ l. take s.written s.content ++ l) brought
            ∙ sym (append_assoc (take s.written s.content) _ _))
          in_place
        ∙ append_assoc (out original s) (take c.trimmed_end line) (drop c.suffix_start line)
