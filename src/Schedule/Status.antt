-- ===== src/Schedule/Status.antt =====
-- crates/prek/src/cli/run/run.rs: what a group of results says of the files and of the project.
pub mod Failed
use prek.Prelude.{
  List, [], ◌∷◌, ◌++◌, Bool, true, false, not, ◌&&◌, ◌||◌, Option, none, some, if◌then◌else◌, any,
}
use prek.Schedule.{
  RunStatus, passed, failed, dry_run, skipped, is_failure, was_executed, HookRunResult, hook_of,
}

pub data ModificationScope : Type 0 where
  single_hook priority_group : ModificationScope

abbrev pub executed : HookRunResult → Bool
executed r = was_executed r.status

abbrev pub fail_result : HookRunResult → HookRunResult
fail_result r = record r { status = failed }

-- The results when their first executed one is marked as failed.
pub mark_first : List HookRunResult → List HookRunResult
mark_first [] = []
mark_first (r ∷ rest) =
    let more = r ∷ mark_first rest in if executed r then fail_result r ∷ rest else more

pub count_two : List HookRunResult → Bool → Bool
count_two [] seen = false
count_two (r ∷ rest) seen =
    let more = count_two rest (seen || executed r) in if executed r && seen then true else more

-- `ModificationScope::from_results`, with the results that it changes.
pub from_results : List HookRunResult → Bool → Option ModificationScope × List HookRunResult
unfolding mark_first count_two
from_results results modified_files =
    if not modified_files
    then (none, results)
    else if not (any executed results)
    then (some priority_group, results)
    else if count_two results false
    then (some priority_group, results)
    else (some single_hook, mark_first results)

pub record PriorityGroupResult : Type 0 where
  pub results : List HookRunResult
  pub modification : Option ModificationScope

pub new : List HookRunResult → Bool → PriorityGroupResult
unfolding from_results
new results modified_files = record {
  results = (from_results results modified_files).1;
  modification = (from_results results modified_files).0;
}

abbrev pub is_modified : Option ModificationScope → Bool
is_modified none = false
is_modified (some _) = true

abbrev pub hook_fail_fast : PriorityGroupResult → Bool
hook_fail_fast g =
    any
      (λ r.
        was_executed r.status
        && ((hook_of r.hook).fail_fast && (is_modified g.modification || is_failure r.status)))
      g.results

abbrev pub group_failed : PriorityGroupResult → Bool
group_failed g = is_modified g.modification || any (λ r. is_failure r.status) g.results

pub should_stop_project : PriorityGroupResult → Bool → Bool
should_stop_project g project_fail_fast = group_failed g && (project_fail_fast || hook_fail_fast g)
