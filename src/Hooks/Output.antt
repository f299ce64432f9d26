-- ===== src/Hooks/Output.antt =====
-- crates/prek/src/hooks/mod.rs: what a built-in hook returns.
use Prim.Native.Nat.{bit_or}
use prek.Prelude.{ℕ, Bytes, Bool, ◌++◌, if◌then◌else◌}

-- hooks/mod.rs
pub data FileChanges : Type 0 where
  not_changed modified unknown_changes : FileChanges

pub record HookOutput : Type 0 where
  pub exit_status : ℕ
  pub output : Bytes
  pub file_changes : FileChanges

abbrev pub known : ℕ → Bytes → Bool → HookOutput
known exit_status output was_modified = record {
  exit_status = exit_status;
  output = output;
  file_changes = if was_modified then modified else not_changed;
}

abbrev pub unchanged : ℕ → Bytes → HookOutput
unchanged exit_status output = known exit_status output Bool.false

abbrev pub unknown : ℕ → Bytes → HookOutput
unknown exit_status output = record {
  exit_status = exit_status;
  output = output;
  file_changes = unknown_changes;
}

abbrev pub merge_changes : FileChanges → FileChanges → FileChanges
merge_changes old modified = modified
merge_changes old _ = old

pub merge_known : HookOutput → HookOutput → HookOutput
merge_known self other = record {
  exit_status = bit_or self.exit_status other.exit_status;
  output = self.output ++ other.output;
  file_changes = merge_changes self.file_changes other.file_changes;
}

-- What one run of a fixer over a file leaves behind: its output, and the bytes of the file.
pub record FileRun : Type 0 where
  pub result : HookOutput
  pub content : Bytes
