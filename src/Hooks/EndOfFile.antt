-- ===== src/Hooks/EndOfFile.antt =====
-- crates/prek/src/hooks/pre_commit_hooks/fix_end_of_file.rs. The file is its bytes; a `seek` and a
-- `read_exact` are a slice. Errors of the file system are left out.
pub mod Blocks
pub mod Fixed
pub mod Fixes
mod Tests
use prek.Prelude.{
  ℕ, zero, suc, ◌+◌, ◌-◌, max, min, Bytes, List, [], ◌∷◌, ◌++◌, Bool, true, false, not, ◌&&◌, ◌||◌,
  Option, none, some, length, take, drop, ltb, ◌==◌, if◌then◌else◌, codes,
}
use mathlib.Core.List.{reverse}
use prek.Hooks.Output.{HookOutput, FileRun, known, unchanged}

abbrev pub cr : ℕ
cr = b'\r'

abbrev pub lf : ℕ
lf = b'\n'

-- `matches!(byte, b'\r' | b'\n')`
abbrev pub is_newline : ℕ → Bool
is_newline byte = byte == cr || byte == lf

abbrev pub is_some_lf : Option ℕ → Bool
is_some_lf none = false
is_some_lf (some b) = b == lf

-- The inner loop either returns the fixed length, or leaves its two variables to the next block.
pub data Scan : Type 0 where
  return : ℕ → Scan
  continue : ℕ → Option ℕ → Scan

-- The inner loop over a block in reverse; the index of a byte is the length of what is before it.
pub scan_block : Bytes → ℕ → ℕ → Option ℕ → Scan
scan_block [] offset ending_len next_byte = continue ending_len next_byte
scan_block (byte ∷ before) offset ending_len next_byte =
    let longer = if byte == cr && is_some_lf next_byte then 2 else 1 in
    let rest = scan_block before offset longer (some byte) in
    if is_newline byte then rest else return (offset + length before + 1 + max ending_len 1)

-- The outer loop; `none` means that the fuel ran out.
pub scan_blocks : ℕ → ℕ → Bytes → ℕ → ℕ → Option ℕ → Option ℕ
scan_blocks zero block_len file offset ending_len next_byte = none
scan_blocks (suc fuel) block_len file offset ending_len next_byte =
    if offset == 0
    then some 0
    else let block_size = min offset block_len in
      let start = offset - block_size in
      elim (scan_block (reverse (take block_size (drop start file))) start ending_len next_byte) [
        | return len ↦ some len
        | continue e n ↦ scan_blocks fuel block_len file start e n
      ]

abbrev pub buffer_len : ℕ
buffer_len = 4096

pub fixed_file_len : Bytes → Option ℕ
unfolding scan_blocks scan_block
fixed_file_len file = scan_blocks (suc (length file)) buffer_len file (length file) 0 none

-- Whether the file needs a fix, and what it holds afterwards.
pub fix_file_sync : Bool → Bytes → Option (Bool × Bytes)
fix_file_sync check file =
    if length file == 0 then some (false, file) else elim (fixed_file_len file) [
      | none ↦ none
      | some fixed_len ↦
          if fixed_len == length file
          then some (false, file)
          else if check
          then some (true, file)
          else if ltb (length file) fixed_len
          then some (true, file ++ lf ∷ [])
          else some (true, take fixed_len file)
    ]

pub action : Bool → Bytes
action check = if check then codes "Would fix" else codes "Fixing"

pub fix_file : Bool → Bytes → Bytes → Option FileRun
unfolding fix_file_sync action
fix_file check display_path file = elim (fix_file_sync check file) [
  | none ↦ none
  | some (needs_fix, content) ↦
      if needs_fix
      then some (record {
        result = known 1 (action check ++ b' ' ∷ (display_path ++ lf ∷ [])) (not check);
        content = content;
      })
      else some (record { result = unchanged 0 []; content = content })
]
