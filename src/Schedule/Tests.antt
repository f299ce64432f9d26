-- ===== src/Schedule/Tests.antt =====
-- crates/prek/src/cli/run/run.rs: groups and results, at concrete hooks.
use prek.Prelude.{◌≡◌, refl, List, [], ◌∷◌, true, false, some}
use prek.Schedule.{
  Hook, remote, other_language, HookPlan, run, skip, HookRunResult, passed, skipped, explicit,
}
use prek.Hooks.Output.{not_changed, unknown_changes}
use prek.Schedule.Status.{new, fail_result, single_hook}
use prek.Schedule.Status.Failed.{new-single}

abbrev formatter : Hook
formatter = record {
  idx = 0;
  priority = 0;
  repo = remote;
  fast_path = false;
  language = other_language;
  fail_fast = false;
  always_run = false;
}

abbrev linter : Hook
linter = record formatter { idx = 1; priority = 10 }

abbrev hooks : List HookPlan
hooks = run formatter ∷ run linter ∷ []

abbrev of_skipped : HookRunResult
of_skipped = record {
  hook = skip linter;
  status = skipped explicit;
  exit_status = 0;
  output = [];
  file_changes = not_changed;
}

abbrev of_formatter : HookRunResult
of_formatter = record {
  hook = run formatter;
  status = passed;
  exit_status = 0;
  output = [];
  file_changes = unknown_changes;
}

new-single_example : new (of_skipped ∷ of_formatter ∷ []) true ≡ record {
  results = of_skipped ∷ fail_result of_formatter ∷ [];
  modification = some single_hook;
}
new-single_example = new-single (of_skipped ∷ []) of_formatter [] (refl, tt) refl tt
