-- ===== src/Schedule/Project/Reference.antt =====
-- crates/prek/src/cli/run/run.rs, `run_project`: a reference that takes a diff before and after
-- every group.
use prek.Prelude.{
  ◌≡◌, refl, sym, ap, ◌∙◌, subst, Bytes, List, [], ◌∷◌, Bool, true, false, not, ◌&&◌, ◌||◌, Option,
  none, some, if◌then◌else◌, any, arith, inl, inr, Option-cases, Bool-cases, ◌⊎◌, eq_bytes,
  eq_bytes_iff,
}
use prek.Schedule.{HookPlan, Execution, HookRunResult}
use prek.Schedule.Status.{PriorityGroupResult, new, should_stop_project}
use prek.Schedule.Diff.{
  DiffBaseline, unknown_baseline, snapshot, prepare_for_group, changed_after_group,
}
use prek.Schedule.Project.{
  reports_modified, reports_unknown, plan_tracks, group_results, Outcome, finished, errored,
  prepend, rounded, round_error, after_results, group_round, run_groups, run_project,
}
use prek.Schedule.Project.Tracked.{group_results-plan_tracks}

-- A diff that Git always answers.
abbrev pub answered : {W : Type 0} → (W → Bytes) → W → Option Bytes
answered d w = some (d w)

module _ {W : Type 0} (d : W → Bytes) (execute : W → List HookPlan → W × (HookPlan → Execution))
    (is_dry_run project_fail_fast : Bool) where
  abbrev diff : W → Option Bytes
  diff = answered d

  abbrev results_of : (HookPlan → Execution) → List HookPlan → Option (List HookRunResult)
  results_of = group_results diff execute is_dry_run project_fail_fast

  -- A group whose hooks all report that they modified nothing leaves the diff as it is.
  abbrev pub Honest : Type 0
  Honest =
      (w : W) (hooks : List HookPlan) (results : List HookRunResult)
      → results_of (execute w hooks).1 hooks ≡ some results
      → reports_modified results ≡ false
      → reports_unknown results ≡ false
      → d (execute w hooks).0 ≡ d w

  -- A group has modified files if a hook says so, or the diff is another than before it.
  abbrev verdict : W → W → List HookRunResult → PriorityGroupResult
  verdict w w' results = new results (reports_modified results || not (eq_bytes (d w') (d w)))

  -- The reference: it keeps no baseline.
  pub reference : W → List (List HookPlan) → Outcome W
  reference w [] = finished w [] false
  reference w (hooks ∷ rest) = elim (results_of (execute w hooks).1 hooks) [
    | none ↦ errored
    | some results ↦
        let g = verdict w (execute w hooks).0 results in
        if should_stop_project g project_fail_fast
        then finished (execute w hooks).0 (g ∷ []) true
        else prepend g (reference (execute w hooks).0 rest)
  ]

  -- A snapshot is the diff of the worktree.
  abbrev pub Current : W → DiffBaseline → Type 0
  Current w unknown_baseline = Unit
  Current w (snapshot x) = x ≡ d w

  abbrev Rounds : W → W → DiffBaseline → List HookRunResult → Type 0
  Rounds w w' ready results =
      (b : DiffBaseline) × (after_results diff execute is_dry_run project_fail_fast w' ready
          (some results)
        ≡ rounded w' b (verdict w w' results))
      × Current w' b

  -- A group that is known to have modified files drops the baseline.
  Rounds-modified :
      (w w' : W) (ready : DiffBaseline) (results : List HookRunResult)
      → reports_modified results ≡ true
      → Rounds w w' ready results
  unfolding changed_after_group
  Rounds-modified w w' unknown_baseline results m = (unknown_baseline, ground arith, tt)
  Rounds-modified w w' (snapshot x) results m = (unknown_baseline, ground arith, tt)

  -- One that may have is compared with the baseline, which becomes the diff after it.
  Rounds-unknown :
      (w w' : W) (results : List HookRunResult)
      → reports_modified results ≡ false
      → reports_unknown results ≡ true
      → Rounds w w' (snapshot (d w)) results
  unfolding changed_after_group
  Rounds-unknown w w' results m u = (snapshot (d w'), ground arith, refl)

  -- One that has not keeps the baseline.
  Rounds-none :
      (w w' : W) (ready : DiffBaseline) (results : List HookRunResult)
      → reports_modified results ≡ false
      → reports_unknown results ≡ false
      → d w' ≡ d w
      → Current w ready
      → Rounds w w' ready results
  unfolding changed_after_group
  Rounds-none w w' unknown_baseline results m u same c =
      (unknown_baseline, ground (arith, (eq_bytes_iff (d w') (d w)).1 same), tt)
  Rounds-none w w' (snapshot x) results m u same c =
      (snapshot x, ground (arith, (eq_bytes_iff (d w') (d w)).1 same), c ∙ sym same)

  -- The baseline at the start of a group, by whether the group is tracked.
  abbrev Ready : W → DiffBaseline → Bool → Type 0
  Ready w b tracks =
      (ready : DiffBaseline) × (prepare_for_group diff tracks w b ≡ some ready)
      × Current w ready
      × (tracks ≡ true → ready ≡ snapshot (d w))

  prepare_for_group-Ready :
      (w : W) (b : DiffBaseline) (tracks : Bool) → Current w b → Ready w b tracks
  unfolding prepare_for_group
  prepare_for_group-Ready w unknown_baseline true c = (snapshot (d w), refl, refl, λ h. refl)
  prepare_for_group-Ready w unknown_baseline false c =
      (unknown_baseline, refl, tt, λ h. absurd (ground arith))
  prepare_for_group-Ready w (snapshot x) tracks c = (snapshot x, refl, c, λ h. ap snapshot c)

  module _ (honest : Honest) where
    after_results-Rounds :
        (w : W) (ready : DiffBaseline) (hooks : List HookPlan) (results : List HookRunResult)
        → results_of (execute w hooks).1 hooks ≡ some results
        → Current w ready
        → ((not is_dry_run && any plan_tracks hooks) ≡ true → ready ≡ snapshot (d w))
        → Rounds w (execute w hooks).0 ready results
    after_results-Rounds w ready hooks results ran c held =
        elim (Bool-cases (reports_modified results)) [
          | inl m ↦ Rounds-modified w (execute w hooks).0 ready results m
          | inr m ↦ elim (Bool-cases (reports_unknown results)) [
            | inl u ↦
                let tracked =
                  group_results-plan_tracks diff execute is_dry_run project_fail_fast
                    (execute w hooks).1 hooks results ran u in
                subst (λ r. Rounds w (execute w hooks).0 r results) (sym (held tracked))
                  (Rounds-unknown w (execute w hooks).0 results m u)
            | inr u ↦
                Rounds-none w (execute w hooks).0 ready results m u (honest w hooks results ran m u)
                  c
          ]
        ]

    -- What a round of the loop is.
    group_round-lem :
        (w : W) (b : DiffBaseline) (hooks : List HookPlan)
        → Current w b
        → ((results_of (execute w hooks).1 hooks ≡ none)
            × (group_round diff execute is_dry_run project_fail_fast w b hooks ≡ round_error))
          ⊎ ((results : List HookRunResult) × (results_of (execute w hooks).1 hooks ≡ some results)
              × (b' : DiffBaseline) × (group_round diff execute is_dry_run project_fail_fast w b
                    hooks
                  ≡ rounded (execute w hooks).0 b' (verdict w (execute w hooks).0 results))
              × Current (execute w hooks).0 b')
    unfolding group_round
    group_round-lem w b hooks c =
        let (ready, prepared, current, held) =
          prepare_for_group-Ready w b (not is_dry_run && any plan_tracks hooks) c in
        elim (Option-cases (results_of (execute w hooks).1 hooks)) [
          | inl e ↦ inl (e, ground arith)
          | inr (results, e) ↦
              let (b', after, now) = after_results-Rounds w ready hooks results e current held in
              inr (results, e, b', ground arith, now)
        ]

    -- With a baseline that is unknown or current, the loop over the groups gives what the reference gives.
    run_groups-reference :
        (groups : List (List HookPlan)) (w : W) (b : DiffBaseline)
        → Current w b
        → run_groups diff execute is_dry_run project_fail_fast w b groups ≡ reference w groups
    unfolding run_groups reference
    run_groups-reference [] w b c = refl
    run_groups-reference (hooks ∷ rest) w b c = elim (group_round-lem w b hooks c) [
      | inl (e, r) ↦ ground arith
      | inr (results, e, b', r, now) ↦
          ground (arith, run_groups-reference rest (execute w hooks).0 b' now)
    ]

    -- If Git answers, a worktree that is called clean has an empty diff, and a group whose
    -- hooks all report that they modified nothing leaves the diff as it is, then a run of a
    -- project yields what a reference yields that compares the diff before and after every
    -- group: the same results, the same groups with modified files and the same stop; the
    -- panic on a missing baseline is not reached.
    pub run_project-reference :
        (clean : Bool) (w : W) (groups : List (List HookPlan))
        → (clean ≡ true → d w ≡ [])
        → run_project diff execute is_dry_run project_fail_fast clean w groups ≡ reference w groups
    unfolding run_project
    run_project-reference true w groups h =
        run_groups-reference groups w (snapshot []) (sym (h refl))
    run_project-reference false w groups h = run_groups-reference groups w unknown_baseline tt
