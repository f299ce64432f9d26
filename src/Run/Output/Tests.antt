-- ===== src/Run/Output/Tests.antt =====
-- crates/prek/src/run.rs, `HookRunOutput::append`, at concrete outputs.
use prek.Prelude.{◌≡◌, refl, codes}
use prek.Run.Output.{HookRunOutput, append}

abbrev clean : HookRunOutput
clean = record { exit_code = 0; output = codes "ok" }

abbrev unclean : HookRunOutput
unclean = record { exit_code = 2; output = codes "bad" }

both_codes : (append clean unclean).exit_code ≡ 2
unfolding append
both_codes = refl
