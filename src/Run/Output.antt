-- ===== src/Run/Output.antt =====
-- crates/prek/src/run.rs: `HookRunOutput`. An exit code is the bit pattern of an `i32`.
pub mod ExitCode
mod Tests
use Prim.Native.Nat.{bit_or}
use prek.Prelude.{ℕ, Bytes, [], ◌++◌}

pub record HookRunOutput : Type 0 where
  pub exit_code : ℕ
  pub output : Bytes

abbrev pub default : HookRunOutput
default = record { exit_code = 0; output = [] }

pub append : HookRunOutput → HookRunOutput → HookRunOutput
append combined output = record {
  exit_code = bit_or combined.exit_code output.exit_code;
  output = combined.output ++ output.output;
}
