-- ===== src/Hooks/MixedLineEnding/Fix/Runs.antt =====
-- crates/prek/src/hooks/pre_commit_hooks/mixed_line_ending.rs, `fix_file`: a whole run, against a reference that counts
-- and replaces the endings one by one.
use prek.Prelude.{
  ℕ, ◌≡◌, refl, sym, ap, ap₂, ◌∙◌, inl, inr, Bool, true, false, not, ◌&&◌, ◌||◌, Option, none, some,
  [], ◌∷◌, ◌++◌, arith, ◌==◌, if◌then◌else◌, Bool-cases, Bytes, any, eq_bytes, eq_bytes_iff,
}
use prek.Hooks.Output.{FileRun}
use prek.Hooks.Bytes.{Memchr, lf, cr, is_empty, position}
use prek.Hooks.MixedLineEnding.{
  FixMode, auto, no, to_lf, to_crlf, to_cr, LineEndingCounts, kind_count, has_any_except,
  find_most_common_ending, lf_bytes,
}
use prek.Hooks.MixedLineEnding.Count.{tally, count_line_endings_lem}
use prek.Hooks.MixedLineEnding.Fix.{
  Memchr2, normalize_line_endings, needs_final_ending, is_some, needs_cr, passed_run, target_ending,
  report_run, fixing_run, written_run, fix_target, fix_file,
}
use prek.Hooks.MixedLineEnding.Fix.Reference.{body, converted, needs_final_ending-unterminated}
use prek.Hooks.MixedLineEnding.Fix.Lf.{lf_loop_lem}
use prek.Hooks.MixedLineEnding.Fix.Other.{other_loop_lem}

-- What a run does to a file with these counts.
abbrev pub reference_counted : Bytes → Bytes → LineEndingCounts → Option Bytes → FileRun
reference_counted display_path contents counts none = report_run display_path counts contents
reference_counted display_path contents counts (some ending) =
    if has_any_except counts ending
    then fixing_run display_path (converted ending contents)
    else passed_run contents

-- A run without the shortcut for files that have no CR.
unfoldable pub reference_run : FixMode → Bytes → Bytes → FileRun
reference_run fix_mode display_path contents =
    if is_empty contents || any (λ b. b == 0) contents
    then passed_run contents
    else reference_counted display_path contents (tally contents)
        (target_ending fix_mode (tally contents))

lf_end-converted :
    (contents : Bytes)
    → body lf_bytes false contents ++ (if needs_final_ending contents then lf ∷ [] else [])
      ≡ converted lf_bytes contents
unfolding converted
lf_end-converted contents =
    ap (λ t. body lf_bytes false contents ++ (if t then lf ∷ [] else []))
      (needs_final_ending-unterminated contents)

no_cr-tally :
    (contents : Bytes)
    → position cr contents ≡ none
    → ((tally contents).cr ≡ 0) × ((tally contents).crlf ≡ 0)
unfolding tally position
no_cr-tally [] h = (refl, refl)
no_cr-tally (b ∷ []) h = ground arith
no_cr-tally (b ∷ (c ∷ rest)) h = ground (arith, no_cr-tally (c ∷ rest))

-- Without CR, these modes leave the file as it is.
reference_run-no_cr :
    (fix_mode : FixMode) (display_path contents : Bytes)
    → needs_cr fix_mode ≡ true
    → position cr contents ≡ none
    → reference_run fix_mode display_path contents ≡ passed_run contents
unfolding reference_run kind_count has_any_except find_most_common_ending eq_bytes
reference_run-no_cr auto display_path contents n h =
    let (a, b) = no_cr-tally contents h in ground arith
reference_run-no_cr no display_path contents n h =
    let (a, b) = no_cr-tally contents h in ground arith
reference_run-no_cr to_lf display_path contents n h =
    let (a, b) = no_cr-tally contents h in ground arith
reference_run-no_cr to_crlf display_path contents n h = absurd (ground arith)
reference_run-no_cr to_cr display_path contents n h = absurd (ground arith)

position-any : (b : ℕ) (xs : Bytes) → is_some (position b xs) ≡ any (λ c. c == b) xs
unfolding position
position-any b [] = refl
position-any b (c ∷ xs) = ground (arith, position-any b xs)

some_if {ℓ} :
    {A : Type ℓ} (t : Bool) (a b : A) → (if t then some a else some b) ≡ some (if t then a else b)
some_if true a b = refl
some_if false a b = refl

written_or_passed :
    (display_path contents : Bytes) (t : Bool) (r : Option Bytes) (after : Bytes)
    → r ≡ some after
    → (if not t then some (passed_run contents) else written_run display_path r)
      ≡ some (if t then fixing_run display_path after else passed_run contents)
written_or_passed display_path contents true r after h = ap (written_run display_path) h
written_or_passed display_path contents false r after h = refl

module _ (m : Memchr) (m2 : Memchr2) where
  normalize_line_endings-converted :
      (contents ending : Bytes)
      → normalize_line_endings m m2 contents ending ≡ some (converted ending contents)
  unfolding normalize_line_endings
  normalize_line_endings-converted contents ending = elim (Bool-cases (eq_bytes ending lf_bytes)) [
    | inl e ↦
        rw e (lf_loop_lem m m2 contents (needs_final_ending contents))
        ∙ ap some (lf_end-converted contents)
        ∙ ap (λ l. some (converted l contents)) (sym ((eq_bytes_iff ending lf_bytes).0 e))
    | inr e ↦ rw e (other_loop_lem m m2 contents ending)
  ]

  fix_target-reference :
      (display_path contents : Bytes) (counts : LineEndingCounts) (target : Option Bytes)
      → fix_target m m2 display_path contents counts target
        ≡ some (reference_counted display_path contents counts target)
  unfolding fix_target
  fix_target-reference display_path contents counts none = refl
  fix_target-reference display_path contents counts (some ending) =
      written_or_passed display_path contents (has_any_except counts ending)
        (normalize_line_endings m m2 contents ending) (converted ending contents)
        (normalize_line_endings-converted contents ending)

  shortcut :
      (fix_mode : FixMode) (display_path contents : Bytes)
      → (needs_cr fix_mode && not (is_some (m.memchr cr contents))) ≡ true
      → reference_run fix_mode display_path contents ≡ passed_run contents
  shortcut fix_mode display_path contents h =
      let none_there : position cr contents ≡ none =
        ground (arith, m.memchr_position cr contents) in
      reference_run-no_cr fix_mode display_path contents (ground arith) none_there

  -- A run of mixed-line-ending returns what a reference run gives that counts the endings one
  -- by one, with CR and the LF behind it as one, replaces each in turn, and ends the last
  -- line; the shortcut for files without CR, the counting in lanes and both loops of the
  -- conversion make no difference.
  pub fix_file-reference :
      (fix_mode : FixMode) (display_path contents : Bytes)
      → fix_file m m2 fix_mode display_path contents
        ≡ some (reference_run fix_mode display_path contents)
  unfolding fix_file reference_run
  fix_file-reference fix_mode display_path contents =
      elim (Bool-cases (needs_cr fix_mode && not (is_some (m.memchr cr contents)))) [
        | inl e ↦ rw e (ap some (sym (shortcut fix_mode display_path contents e)))
        | inr e ↦ rw e (
            ap₂ (λ t r. if is_empty contents || t then some (passed_run contents) else r)
              (ap is_some (m.memchr_position 0 contents) ∙ position-any 0 contents)
              (ap (λ c. fix_target m m2 display_path contents c (target_ending fix_mode c))
                  (count_line_endings_lem contents)
                ∙ fix_target-reference display_path contents (tally contents)
                    (target_ending fix_mode (tally contents)))
            ∙ some_if (is_empty contents || any (λ b. b == 0) contents) (passed_run contents) _)
      ]
