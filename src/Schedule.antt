-- ===== src/Schedule.antt =====
-- crates/prek/src/cli/run/run.rs and diff.rs: the hooks of a project in groups of one priority, what
-- one hook reports, and which group is said to have modified files. A hook has the fields that the
-- schedule reads. What a hook does when it runs is an argument.
pub mod Status
pub mod Groups
pub mod Diff
pub mod Project
pub mod Levels
mod Tests
use prek.Prelude.{
  ℕ, Bytes, [], Bool, true, false, not, ◌&&◌, Option, none, some, if◌then◌else◌, ◌==◌,
}
use prek.Hooks.Output.{FileChanges, not_changed, HookOutput, known, unchanged, unknown}

pub data Repo : Type 0 where
  remote local meta builtin : Repo

-- The languages that the schedule tells apart.
pub data Language : Type 0 where
  fail pygrep other_language : Language

-- `fast_path` is whether `fast_path_hook` finds a built-in implementation.
pub record Hook : Type 0 where
  pub idx : ℕ
  pub priority : ℕ
  pub repo : Repo
  pub fast_path : Bool
  pub language : Language
  pub fail_fast : Bool
  pub always_run : Bool

abbrev pub can_modify_files : Language → Bool
can_modify_files fail = false
can_modify_files pygrep = false
can_modify_files other_language = true

abbrev pub uses_diff : Repo → Bool → Bool → Bool
uses_diff meta fast can_modify = false
uses_diff builtin fast can_modify = false
uses_diff remote fast can_modify = not fast && can_modify
uses_diff local fast can_modify = can_modify

abbrev pub requires_diff_tracking : Hook → Bool
requires_diff_tracking hook = uses_diff hook.repo hook.fast_path (can_modify_files hook.language)

pub data HookPlan : Type 0 where
  run : Hook → HookPlan
  skip : Hook → HookPlan

abbrev pub hook_of : HookPlan → Hook
hook_of (run hook) = hook
hook_of (skip hook) = hook

-- A run of a hook: `builtin` is the result of an implementation in Rust, which knows whether it
-- modified files, and `backend` the exit status and the output of a process. `none` is an error.
pub record Execution : Type 0 where
  pub matched : Bool
  pub dry_output : Option Bytes
  pub builtin_result : Option (ℕ × Bytes × Bool)
  pub backend : Option (ℕ × Bytes)

abbrev by_builtin : Option (ℕ × Bytes × Bool) → Option HookOutput
by_builtin none = none
by_builtin (some (exit_status, output, modified)) = some (known exit_status output modified)

abbrev by_backend : Bool → Option (ℕ × Bytes) → Option HookOutput
by_backend can_modify none = none
by_backend can_modify (some (exit_status, output)) =
    if can_modify then some (unknown exit_status output) else some (unchanged exit_status output)

abbrev dispatch : Repo → Bool → Bool → Execution → Option HookOutput
dispatch meta fast can_modify e = by_builtin e.builtin_result
dispatch builtin fast can_modify e = by_builtin e.builtin_result
dispatch remote fast can_modify e =
    if fast then by_builtin e.builtin_result else by_backend can_modify e.backend
dispatch local fast can_modify e = by_backend can_modify e.backend

-- languages/mod.rs, `Language::run`
abbrev pub language_run : Hook → Execution → Option HookOutput
language_run hook e = dispatch hook.repo hook.fast_path (can_modify_files hook.language) e

pub data SkipReason : Type 0 where
  explicit no_files : SkipReason

pub data RunStatus : Type 0 where
  passed failed dry_run : RunStatus
  skipped : SkipReason → RunStatus

abbrev pub is_failure : RunStatus → Bool
is_failure failed = true
is_failure _ = false

abbrev pub was_executed : RunStatus → Bool
was_executed passed = true
was_executed failed = true
was_executed _ = false

-- The duration is left out.
pub record HookRunResult : Type 0 where
  pub hook : HookPlan
  pub status : RunStatus
  pub exit_status : ℕ
  pub output : Bytes
  pub file_changes : FileChanges

abbrev pub not_run : HookPlan → SkipReason → HookRunResult
not_run hook reason = record {
  hook = hook;
  status = skipped reason;
  exit_status = 0;
  output = [];
  file_changes = not_changed;
}

abbrev with_output : HookPlan → RunStatus → HookOutput → HookRunResult
with_output hook status o = record {
  hook = hook;
  status = status;
  exit_status = o.exit_status;
  output = o.output;
  file_changes = o.file_changes;
}

abbrev executed_result : HookPlan → Option HookOutput → Option HookRunResult
executed_result hook none = none
executed_result hook (some o) =
    some (with_output hook (if o.exit_status == 0 then passed else failed) o)

abbrev dry_result : HookPlan → Option Bytes → Option HookRunResult
dry_result hook none = none
dry_result hook (some output) = some (with_output hook dry_run (unchanged 0 output))

-- `none` is an error.
pub run_hook : Bool → HookPlan → Execution → Option HookRunResult
run_hook is_dry_run (skip hook) e = some (not_run (skip hook) explicit)
run_hook is_dry_run (run hook) e =
    if not e.matched && not hook.always_run
    then some (not_run (run hook) no_files)
    else if is_dry_run
    then dry_result (run hook) e.dry_output
    else executed_result (run hook) (language_run hook e)
