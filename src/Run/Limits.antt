-- ===== src/Run/Limits.antt =====
-- crates/prek/src/run.rs: concurrency, the length limit of a command line, and `Partitions::split`,
-- as built for Unix. `usize` has 64 bits, and `-=` wraps around as it does in a release build.
-- What the system reports (processors, `sysconf`, the environment) is an argument.
pub mod Bounds
mod Tests
use prek.Prelude.{
  ℕ, ◌+◌, ◌-◌, ◌/◌, ◌%◌, ◌^◌, max, Bytes, List, [], ◌∷◌, Bool, Option, none, some, length, any, ltb,
  leb, ◌==◌, if◌then◌else◌, eq_bytes,
}
use prek.Run.Partitions.{Partitions, arg_size, pointer_size_conservative}

-- `no_concurrency` is whether PREK_NO_CONCURRENCY is set, `value` is the primary variable, and
-- `parse` is the standard library's `str::parse::<usize>`.
pub resolve_concurrency : (Bytes → Option ℕ) → ℕ → Bool → Option Bytes → ℕ
resolve_concurrency parse cpu no_concurrency value =
    if no_concurrency
    then 1
    else elim value [ none ↦ cpu | some v ↦ elim (parse v) [ none ↦ cpu | some cap ↦ max cap 1 ] ]

abbrev pub usize_mod : ℕ
usize_mod = 2 ^ 64

abbrev pub sub_usize : ℕ → ℕ → ℕ
sub_usize a b = (a + usize_mod - b) % usize_mod

-- `ARG_MAX`, where 0 stands for each result of `sysconf` that is not positive.
unfoldable pub arg_max_of : ℕ → ℕ
arg_max_of raw = if raw == 0 then 4096 else raw

-- `PAGE_SIZE`
unfoldable pub page_size_of : ℕ → ℕ
page_size_of raw = if ltb raw 4096 then 4096 else raw

abbrev pub arg_headroom : ℕ
arg_headroom = 2048

unfoldable pub clamp : ℕ → ℕ → ℕ → ℕ
clamp low high x = if ltb x low then low else if ltb high x then high else x

unfoldable pub platform_max_cli_length : ℕ → ℕ → ℕ
unfolding clamp arg_max_of page_size_of
platform_max_cli_length arg_max page_size =
    let less_page = sub_usize (arg_max_of arg_max) (page_size_of page_size) in
    clamp 4096 1048576 (sub_usize less_page arg_headroom)

abbrev pub Env : Type 0
Env = List (Bytes × Bytes)

abbrev pub environment_variable_size : Bytes → Bytes → ℕ
environment_variable_size key value = pointer_size_conservative + length key + 1 + length value + 1

abbrev pub contains_key : Env → Bytes → Bool
contains_key envs key = any (λ e. eq_bytes e.0 key) envs

unfoldable pub sum_env : Env → ℕ
sum_env [] = 0
sum_env ((key, value) ∷ rest) = environment_variable_size key value + sum_env rest

-- The variables of the process that the hook does not override.
unfoldable pub inherited_size : Env → Env → ℕ
inherited_size overrides [] = 0
inherited_size overrides ((key, value) ∷ rest) =
    (if contains_key overrides key then 0 else environment_variable_size key value)
    + inherited_size overrides rest

-- A key that is no UTF-8 text equals no key of the overrides, so a comparison of bytes serves.
unfoldable pub env_size : Env → Env → ℕ
unfolding sum_env inherited_size
env_size vars overrides = inherited_size overrides vars + sum_env overrides

pub data PassFilenames : Type 0 where
  all_filenames no_filenames : PassFilenames
  limited : ℕ → PassFilenames

-- The fields of a hook that the batches read.
pub record BatchHook : Type 0 where
  pub pass_filenames : PassFilenames
  pub require_serial : Bool
  pub args : List Bytes
  pub env : Env

-- What the process runs in: `sysconf` twice, and the variables.
pub record Platform : Type 0 where
  pub arg_max : ℕ
  pub page_size : ℕ
  pub vars : Env

pub div_ceil : ℕ → ℕ → ℕ
div_ceil n d = if n % d == 0 then n / d else n / d + 1

unfoldable pub batch_limit : PassFilenames → ℕ → ℕ → ℕ
unfolding div_ceil
batch_limit (limited n) count concurrency = n
batch_limit _ count concurrency = max 4 (div_ceil count concurrency)

unfoldable pub sum_args : List Bytes → ℕ
sum_args [] = 0
sum_args (a ∷ rest) = arg_size a + sum_args rest

-- `args_size`, with the terminating NULL
unfoldable pub command_size : List Bytes → List Bytes → ℕ
unfolding sum_args
command_size entry args = sum_args entry + sum_args args + pointer_size_conservative

-- The limit less the environment and the terminating NULL of the arguments.
unfoldable pub available_length : Platform → Env → ℕ
available_length p env =
    sub_usize (sub_usize (platform_max_cli_length p.arg_max p.page_size) (env_size p.vars env))
      pointer_size_conservative

-- `none` is the error "Command line length exceeds platform limit".
unfoldable pub split : Platform → BatchHook → List Bytes → List Bytes → ℕ → Option Partitions
unfolding command_size
split p hook entry filenames concurrency =
    let arg_max = available_length p hook.env in
    let args_size = command_size entry hook.args in
    if leb arg_max args_size
    then none
    else some (record {
      filenames = filenames;
      current_index = 0;
      max_per_batch = batch_limit hook.pass_filenames (length filenames) concurrency;
      remaining_arg_length = sub_usize arg_max args_size;
    })
