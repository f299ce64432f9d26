-- ===== src/Schedule/Project/Tests.antt =====
-- crates/prek/src/cli/run/run.rs, `run_project`: a run whose hooks append to the worktree.
use prek.Prelude.{
  ◌≡◌, refl, Bytes, List, [], ◌∷◌, ◌++◌, true, false, Option, none, some, any, codes, arith,
  if◌then◌else◌, Option-cases, inl, inr,
}
use prek.Schedule.{
  Hook, remote, other_language, HookPlan, run, skip, Execution, HookRunResult, run_hook,
}
use prek.Schedule.Project.{
  run_project, group_results, plan_tracks, is_unknown_report, reports_unknown,
}
use prek.Schedule.Project.Reference.{answered, reference, Honest, run_project-reference}

abbrev formatter : Hook
formatter = record {
  idx = 0;
  priority = 0;
  repo = remote;
  fast_path = false;
  language = other_language;
  fail_fast = false;
  always_run = false;
}

abbrev linter : Hook
linter = record formatter { idx = 1; priority = 10 }

-- Every hook is a process that succeeds.
abbrev process : HookPlan → Execution
process h = record {
  matched = true;
  dry_output = none;
  builtin_result = none;
  backend = some (0, []);
}

-- A worktree is its diff, to which a group appends that has a hook that may modify files.
abbrev append_line : Bytes → List HookPlan → Bytes × (HookPlan → Execution)
append_line w group = (if any plan_tracks group then w ++ codes "+" else w, process)

process-unknown :
    (h : HookPlan) (r : HookRunResult)
    → run_hook false h (process h) ≡ some r
    → plan_tracks h ≡ is_unknown_report r.file_changes
unfolding run_hook
process-unknown (skip hook) r e = ground arith
process-unknown (run hook) r e = ground arith

abbrev results_of : List HookPlan → Option (List HookRunResult)
results_of group = group_results (answered (λ w. w)) append_line false false process group

processes-unknown :
    (group : List HookPlan) (results : List HookRunResult)
    → results_of group ≡ some results
    → any plan_tracks group ≡ reports_unknown results
unfolding group_results
processes-unknown [] results e = ground arith
processes-unknown (h ∷ group) results e = elim (Option-cases (run_hook false h (process h))) [
  | inl none_h ↦ ground arith
  | inr (r, some_h) ↦ elim (Option-cases (results_of group)) [
    | inl none_rest ↦ ground arith
    | inr (rs, some_rest) ↦
        ground (arith, process-unknown h r some_h, processes-unknown group rs some_rest)
  ]
]

append_line-Honest : Honest (λ w. w) append_line false false
append_line-Honest w group results e m u = ground (arith, processes-unknown group results e)

run_project-reference_example :
    run_project
      (answered (λ w. w))
      append_line
      false
      false
      true
      []
      ((run formatter ∷ []) ∷ (run linter ∷ []) ∷ [])
    ≡ reference (λ w. w) append_line false false [] ((run formatter ∷ []) ∷ (run linter ∷ []) ∷ [])
run_project-reference_example =
    run_project-reference (λ w. w) append_line false false append_line-Honest true []
      ((run formatter ∷ []) ∷ (run linter ∷ []) ∷ []) (λ h. refl)
