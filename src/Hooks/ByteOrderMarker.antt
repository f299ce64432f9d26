-- ===== src/Hooks/ByteOrderMarker.antt =====
-- crates/prek/src/hooks/pre_commit_hooks/fix_byte_order_marker.rs. The file is its bytes; a `seek`
-- with a `read_exact` is a slice, and with a `write_all` a replacement. Errors of the file system are left out.
pub mod Shift
mod Tests
use prek.Prelude.{
  ℕ, zero, suc, ◌+◌, ◌-◌, min, Bytes, List, [], ◌∷◌, ◌++◌, Bool, true, false, not, Option, none,
  some, length, take, drop, ltb, if◌then◌else◌, codes, eq_bytes,
}
use prek.Hooks.Output.{HookOutput, FileRun, known, unchanged}

abbrev pub utf8_bom : Bytes
utf8_bom = 239 ∷ 187 ∷ 191 ∷ []

abbrev pub buffer_len : ℕ
buffer_len = 8192

-- The file with a chunk written at a position inside it.
pub overwrite : ℕ → Bytes → Bytes → Bytes
overwrite position chunk file = take position file ++ (chunk ++ drop (position + length chunk) file)

-- The loop that moves the file towards its front; `none` means that the fuel ran out.
pub shift_blocks : ℕ → ℕ → ℕ → ℕ → Bytes → Option Bytes
unfolding overwrite
shift_blocks zero block_len file_len read_pos file = none
shift_blocks (suc fuel) block_len file_len read_pos file =
    let chunk_len = min (file_len - read_pos) block_len in
    let chunk = take chunk_len (drop read_pos file) in
    let rest =
      shift_blocks fuel block_len file_len (read_pos + chunk_len)
        (overwrite (read_pos - length utf8_bom) chunk file) in
    if ltb read_pos file_len then rest else some file

-- Whether the file has a marker, and what it holds afterwards.
pub fix_file_sync : Bool → Bytes → Option (Bool × Bytes)
unfolding shift_blocks
fix_file_sync check file =
    if ltb (length file) (length utf8_bom)
    then some (false, file)
    else if not (eq_bytes (take (length utf8_bom) file) utf8_bom)
    then some (false, file)
    else if check
    then some (true, file)
    else elim (shift_blocks (suc (length file)) buffer_len (length file) (length utf8_bom) file) [
      | none ↦ none
      | some shifted ↦ some (true, take (length file - length utf8_bom) shifted)
    ]

pub action : Bool → Bytes
action check = if check then codes "would remove" else codes "removed"

pub fix_file : Bool → Bytes → Bytes → Option FileRun
unfolding fix_file_sync action
fix_file check display_path file = elim (fix_file_sync check file) [
  | none ↦ none
  | some (needs_fix, content) ↦
      if not needs_fix
      then some (record { result = unchanged 0 []; content = content })
      else some (record {
        result =
            known 1 (display_path ++ (codes ": " ++ (action check ++ codes " byte-order marker\n")))
              (not check);
        content = content;
      })
]
