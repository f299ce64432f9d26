-- ===== src/Run/Limits/Bounds.antt =====
-- crates/prek/src/run.rs: the subtractions of the limit of a command line, and the bounds of
-- what is left.
use prek.Prelude.{
  ℕ, ◌+◌, ◌-◌, ◌^◌, ◌≤◌, ◌<◌, ◌≡◌, refl, Bytes, List, some, length, arith, Bool, Option,
}
use prek.Run.Partitions.{Partitions}
use prek.Run.Limits.{
  usize_mod, arg_max_of, page_size_of, arg_headroom, clamp, platform_max_cli_length, Env, env_size,
  BatchHook, Platform, PassFilenames, limited, all_filenames, no_filenames, batch_limit,
  command_size, available_length, split, resolve_concurrency,
}

abbrev page_cushion : ℕ → ℕ
page_cushion page_size = page_size_of page_size + arg_headroom

-- Where the platform's limit is a usize and at least the page and the headroom that are taken
-- off it, the length is the rest, kept between 4096 and 1048576.
platform_max_cli_length_room :
    (arg_max page_size : ℕ)
    → page_size_of page_size + arg_headroom ≤ arg_max_of arg_max
    → arg_max_of arg_max < usize_mod
    → platform_max_cli_length arg_max page_size
      ≡ clamp 4096 1048576 (arg_max_of arg_max - page_size_of page_size - arg_headroom)
unfolding platform_max_cli_length
platform_max_cli_length_room arg_max page_size h k = ground arith

-- Where the platform's limit is less than the page and the headroom that are taken off it, and
-- the page is below 2 ^ 32, the subtraction wraps around and the length is the largest one,
-- 1048576.
pub platform_max_cli_length_wraps :
    (arg_max page_size : ℕ)
    → arg_max_of arg_max < page_size_of page_size + arg_headroom
    → page_size_of page_size < 2 ^ 32
    → platform_max_cli_length arg_max page_size ≡ 1048576
unfolding platform_max_cli_length
platform_max_cli_length_wraps arg_max page_size h k = ground arith

-- If the variables of the process and of the hook, with their terminating pointer, need more
-- than the whole limit, and less than 2 ^ 32 bytes, then the length that is available wraps
-- around to at least 2 ^ 63.
pub env_size_wraps :
    (p : Platform) (env : Env)
    → platform_max_cli_length p.arg_max p.page_size < env_size p.vars env + 8
    → env_size p.vars env < 2 ^ 32
    → 2 ^ 63 ≤ available_length p env
unfolding available_length
env_size_wraps p env h k = ground arith

-- An accepted command leaves a positive length for filenames, and the command, that length,
-- the environment and its terminating pointer are together exactly the platform's limit, if
-- that limit is a usize, and the environment and that pointer fit it.
split_budget :
    (p : Platform) (hook : BatchHook) (entry filenames : List Bytes) (concurrency : ℕ)
    {parts : Partitions}
    → env_size p.vars hook.env + 8 ≤ platform_max_cli_length p.arg_max p.page_size
    → platform_max_cli_length p.arg_max p.page_size < usize_mod
    → split p hook entry filenames concurrency ≡ some parts
    → (0 < parts.remaining_arg_length)
      × (command_size entry hook.args + parts.remaining_arg_length + env_size p.vars hook.env + 8
          ≡ platform_max_cli_length p.arg_max p.page_size)
unfolding split available_length
split_budget p hook entry filenames concurrency fits word h = ground arith

-- A batch may hold at least one filename, if an explicit limit is not 0.
pub batch_limit_pos :
    (pass : PassFilenames) (count concurrency : ℕ)
    → ((n : ℕ) → pass ≡ limited n → 0 < n)
    → 0 < batch_limit pass count concurrency
unfolding batch_limit
batch_limit_pos (limited n) count concurrency h = h n refl
batch_limit_pos all_filenames count concurrency h = omega arith
batch_limit_pos no_filenames count concurrency h = omega arith

-- The number of hooks or batches that run at once is positive on a machine with a processor,
-- whatever the environment says.
resolve_concurrency_pos :
    (parse : Bytes → Option ℕ) (cpu : ℕ) (no_concurrency : Bool) (value : Option Bytes)
    → 0 < cpu
    → 0 < resolve_concurrency parse cpu no_concurrency value
unfolding resolve_concurrency
resolve_concurrency_pos parse cpu no_concurrency value h = ground arith

-- What an accepted command starts from.
pub split_fields :
    (p : Platform) (hook : BatchHook) (entry filenames : List Bytes) (concurrency : ℕ)
    {parts : Partitions}
    → split p hook entry filenames concurrency ≡ some parts
    → (parts.filenames ≡ filenames)
      × (parts.current_index ≡ 0)
      × (parts.max_per_batch ≡ batch_limit hook.pass_filenames (length filenames) concurrency)
unfolding split
split_fields p hook entry filenames concurrency h = ground arith
