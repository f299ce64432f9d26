-- ===== src/Run/Limits/Tests.antt =====
-- crates/prek/src/run.rs: the limits of a command line, at concrete platforms.
use prek.Prelude.{
  zero, suc, ℕ, ◌^◌, ◌≡◌, ◌≤◌, refl, Bytes, List, [], ◌∷◌, false, some, codes, arith,
}
use prek.Run.Partitions.{Partitions}
use prek.Run.Limits.{
  BatchHook, Platform, limited, split, available_length, platform_max_cli_length, clamp, arg_max_of,
  page_size_of, env_size, sum_env, inherited_size, command_size, sum_args, batch_limit,
}
use prek.Run.Limits.Bounds.{platform_max_cli_length_wraps, env_size_wraps}

abbrev linux : Platform
linux = record { arg_max = 2097152; page_size = 4096; vars = (codes "HOME", codes "/root") ∷ [] }

abbrev lint : BatchHook
lint = record {
  pass_filenames = limited 2;
  require_serial = false;
  args = codes "--fix" ∷ [];
  env = [];
}

abbrev entry : List Bytes
entry = codes "lint" ∷ []

-- A value of `n` bytes.
abbrev long_value : ℕ → Bytes
long_value zero = []
long_value (suc n) = b'x' ∷ long_value n

abbrev parts : Partitions
parts = record {
  filenames = codes "a.py" ∷ [];
  current_index = 0;
  max_per_batch = 2;
  remaining_arg_length = 1048514;
}

platform_max_cli_length_wraps_example : platform_max_cli_length 0 4096 ≡ 1048576
platform_max_cli_length_wraps_example =
    platform_max_cli_length_wraps 0 4096 (unfold arg_max_of page_size_of in omega arith)
      (unfold page_size_of in omega arith)

accepts_lint : split linux lint entry (codes "a.py" ∷ []) 1 ≡ some parts
unfolding split available_length platform_max_cli_length clamp arg_max_of page_size_of env_size
    sum_env inherited_size command_size sum_args batch_limit
accepts_lint = refl

-- A platform with the least limit, whose one variable exceeds it.
abbrev tiny : Platform
tiny = record { arg_max = 8192; page_size = 4096; vars = (codes "PATH", long_value 4096) ∷ [] }

env_size_wraps_example : 2 ^ 63 ≤ available_length tiny []
env_size_wraps_example =
    env_size_wraps tiny []
      (unfold platform_max_cli_length clamp arg_max_of page_size_of env_size sum_env
          inherited_size in
        omega arith)
      (unfold env_size sum_env inherited_size in omega arith)
