-- ===== src/Hooks/MixedLineEnding/Fix/Again.antt =====
-- crates/prek/src/hooks/pre_commit_hooks/mixed_line_ending.rs: a second run over a fixed file.
use prek.Prelude.{
  ◌≡◌, refl, sym, ap, subst, ◌∙◌, ◌≢◌, ◌⊎◌, inl, inr, Bool, true, false, ◌||◌, none, some, arith,
  ◌==◌, if◌then◌else◌, Bool-cases, Option-cases, Bytes, any,
}
use prek.Hooks.Output.{FileRun}
use prek.Hooks.Bytes.{Memchr, is_empty}
use prek.Hooks.MixedLineEnding.{
  FixMode, auto, no, to_lf, to_crlf, to_cr, LineEndingCounts, has_any_except,
}
use prek.Hooks.MixedLineEnding.Count.{tally}
use prek.Hooks.MixedLineEnding.Fix.{Memchr2, passed_run, target_ending, fixing_run, fix_file}
use prek.Hooks.MixedLineEnding.Fix.Reference.{converted}
use prek.Hooks.MixedLineEnding.Fix.Runs.{reference_run, reference_counted, fix_file-reference}
use prek.Hooks.MixedLineEnding.Fix.Uniform.{target_ending-IsEnding, Uniform, converted-Uniform}

abbrev pub is_no : FixMode → Bool
is_no no = true
is_no auto = false
is_no to_lf = false
is_no to_crlf = false
is_no to_cr = false

-- Whatever the mode, the target for such counts is one that nothing differs from.
Uniform-target :
    (fix_mode : FixMode) (counts counts' : LineEndingCounts) (ending : Bytes)
    → target_ending fix_mode counts ≡ some ending
    → Uniform ending counts'
    → (ending' : Bytes) → target_ending fix_mode counts' ≡ some ending'
    → has_any_except counts' ending' ≡ false
Uniform-target no counts counts' ending h u ending' h' = absurd (ground arith)
Uniform-target auto counts counts' ending h (u, v) ending' h' = ground arith
Uniform-target to_lf counts counts' ending h (u, v) ending' h' = ground arith
Uniform-target to_crlf counts counts' ending h (u, v) ending' h' = ground arith
Uniform-target to_cr counts counts' ending h (u, v) ending' h' = ground arith

module _ (fix_mode : FixMode) (fixes : is_no fix_mode ≡ false) (display_path : Bytes) where
  abbrev run : Bytes → FileRun
  run contents = reference_run fix_mode display_path contents

  no_target : (counts : LineEndingCounts) → target_ending fix_mode counts ≢ none
  no_target counts h = go fix_mode fixes h
    where
      go : (mode : FixMode) → is_no mode ≡ false → target_ending mode counts ≢ none
      go no f e = absurd (ground arith)
      go auto f e = absurd (ground arith)
      go to_lf f e = absurd (ground arith)
      go to_crlf f e = absurd (ground arith)
      go to_cr f e = absurd (ground arith)

  run-cases :
      (contents : Bytes)
      → (run contents ≡ passed_run contents)
        ⊎ ((ending : Bytes) × (target_ending fix_mode (tally contents) ≡ some ending)
            × (has_any_except (tally contents) ending ≡ true)
            × (run contents ≡ fixing_run display_path (converted ending contents)))
  unfolding reference_run
  run-cases contents = elim (Bool-cases (is_empty contents || any (λ b. b == 0) contents)) [
    | inl e ↦ inl (rw e refl)
    | inr e ↦ elim (Option-cases (target_ending fix_mode (tally contents))) [
      | inl t ↦ absurd (no_target (tally contents) t)
      | inr (ending, t) ↦ elim (Bool-cases (has_any_except (tally contents) ending)) [
        | inl u ↦ inr (ending, t, u, rw e (counted ending t true u))
        | inr u ↦ inl (rw e (counted ending t false u))
      ]
    ]
  ]
    where
      counted :
          (ending : Bytes)
          → target_ending fix_mode (tally contents) ≡ some ending
          → (b : Bool) → has_any_except (tally contents) ending ≡ b
          → reference_counted display_path contents
              (tally contents)
              (target_ending fix_mode (tally contents))
            ≡ (if b
                then fixing_run display_path (converted ending contents)
                else passed_run contents)
      counted ending t b u =
          ap (reference_counted display_path contents (tally contents)) t
          ∙ ap
              (λ b.
                if b
                then fixing_run display_path (converted ending contents)
                else passed_run contents)
              u

  run-passes :
      (contents : Bytes)
      → ((ending : Bytes)
          → target_ending fix_mode (tally contents) ≡ some ending
          → has_any_except (tally contents) ending ≡ false)
      → run contents ≡ passed_run contents
  run-passes contents h = elim (run-cases contents) [
    | inl e ↦ e
    | inr (ending, t, u, e) ↦ absurd (ground (arith, h ending t, u))
  ]

  run-again : (contents : Bytes) → run (run contents).content ≡ passed_run (run contents).content
  run-again contents = elim (run-cases contents) [
    | inl e ↦ subst (λ r. run r.content ≡ passed_run r.content) (sym e) e
    | inr (ending, t, u, e) ↦
        let uniform =
          converted-Uniform ending contents
            (target_ending-IsEnding fix_mode (tally contents) ending t) in
        subst (λ r. run r.content ≡ passed_run r.content) (sym e)
          (run-passes (converted ending contents) (
            Uniform-target fix_mode (tally contents) (tally (converted ending contents)) ending t
              uniform))
  ]

-- In every mode but --fix=no, a run of mixed-line-ending returns, and a second run over the
-- file that it leaves passes and leaves it as it is.
pub fix_file-again :
    (m : Memchr) (m2 : Memchr2) (fix_mode : FixMode)
    → is_no fix_mode ≡ false
    → (display_path contents : Bytes)
    → (first : FileRun) × (fix_file m m2 fix_mode display_path contents ≡ some first)
      × (fix_file m m2 fix_mode display_path first.content ≡ some (passed_run first.content))
fix_file-again m m2 fix_mode fixes display_path contents =
    let first = reference_run fix_mode display_path contents in
    (
      first,
      fix_file-reference m m2 fix_mode display_path contents,
      fix_file-reference m m2 fix_mode display_path first.content
          ∙ ap some (run-again fix_mode fixes display_path contents),
    )
