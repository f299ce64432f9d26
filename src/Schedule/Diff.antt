-- ===== src/Schedule/Diff.antt =====
-- crates/prek/src/cli/run/diff.rs: `DiffTracker`. `diff` is `git::diff_worktree` on the project's
-- path in a given worktree, `none` its error.
use prek.Prelude.{Bytes, [], Bool, false, not, Option, none, some, if◌then◌else◌, eq_bytes}

pub data DiffBaseline : Type 0 where
  unknown_baseline : DiffBaseline
  snapshot : Bytes → DiffBaseline

abbrev pub clean_baseline : DiffBaseline
clean_baseline = snapshot []

abbrev captured : Option Bytes → Option DiffBaseline
captured none = none
captured (some d) = some (snapshot d)

-- `changed_after_group` with the new baseline, its error, or its panic.
pub data Changed : Type 0 where
  changed : Bool → DiffBaseline → Changed
  diff_failed not_captured : Changed

abbrev compared : Bytes → Option Bytes → Changed
compared prev none = diff_failed
compared prev (some curr) = changed (not (eq_bytes curr prev)) (snapshot curr)

module _ {W : Type 0} (diff : W → Option Bytes) where
  unfoldable pub prepare_for_group : Bool → W → DiffBaseline → Option DiffBaseline
  prepare_for_group track_changes w unknown_baseline =
      if track_changes then captured (diff w) else some unknown_baseline
  prepare_for_group track_changes w (snapshot d) = some (snapshot d)

  unfoldable pub changed_after_group : Bool → W → DiffBaseline → Changed
  changed_after_group track_changes w unknown_baseline =
      if not track_changes then changed false unknown_baseline else not_captured
  changed_after_group track_changes w (snapshot prev) =
      if not track_changes then changed false (snapshot prev) else compared prev (diff w)
