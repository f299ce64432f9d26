-- ===== src/Identify/Shebang.antt =====
-- The first line of a script: `parse_shebang`. What the crate `shlex` splits is an argument.
use prek.Prelude.{
  ℕ, Bool, true, false, not, ◌&&◌, ◌||◌, Option, none, some, List, [], ◌∷◌, leb, ◌==◌,
  if◌then◌else◌, Bytes, codes, drop, all, eq_bytes,
}

-- A call of `read_line`; the end of the list is the end of the file.
pub data LineRead : Type 0 where
  line : Bytes → LineRead
  invalid_data : LineRead
  other_error : LineRead

pub data ShebangError : Type 0 where
  no_shebang : ShebangError
  non_printable_chars : ShebangError
  parse_failed : ShebangError
  no_command : ShebangError
  io_error : ShebangError

pub data Parsed : Type 0 where
  command : List Bytes → Parsed
  failed : ShebangError → Parsed

-- `line.starts_with` and `line.strip_prefix` on "#!"
unfoldable pub strip_shebang : Bytes → Option Bytes
strip_shebang (a ∷ (b ∷ text)) = if a == b'#' && b == b'!' then some text else none
strip_shebang _ = none

unfoldable pub starts_with : List Bytes → List Bytes → Bool
starts_with slice [] = true
starts_with [] (p ∷ prefix) = false
starts_with (s ∷ slice) (p ∷ prefix) = eq_bytes s p && starts_with slice prefix

abbrev pub is_printable_shebang : Bytes → Bool
is_printable_shebang text = all (λ b. leb 0x20 b && leb b 0x7E || leb 0x09 b && leb b 0x0D) text

-- White space of a printable line.
abbrev is_space : ℕ → Bool
is_space b = b == 0x20 || leb 0x09 b && leb b 0x0D

unfoldable pub trim_start : Bytes → Bytes
trim_start [] = []
trim_start (b ∷ text) = let rest = trim_start text in if is_space b then rest else b ∷ text

unfoldable pub trim_end : Bytes → Bytes
trim_end [] = []
trim_end (b ∷ text) = elim (trim_end text) [
  | [] ↦ if is_space b then [] else b ∷ []
  | c ∷ rest ↦ b ∷ (c ∷ rest)
]

abbrev pub trim : Bytes → Bytes
trim text = trim_end (trim_start text)

-- The argument behind the first `-i`.
unfoldable pub find_interpreter : List Bytes → Option Bytes
find_interpreter (flag ∷ (interpreter ∷ args)) =
    let rest = find_interpreter (interpreter ∷ args) in
    if eq_bytes flag (codes "-i") then some interpreter else rest
find_interpreter _ = none

unfoldable pub nix_shebang_interpreter : List Bytes → Option Bytes
nix_shebang_interpreter [] = none
nix_shebang_interpreter (program ∷ args) =
    if not (eq_bytes program (codes "nix-shell")) then none else find_interpreter args

-- The tokens behind `env` and its option -S.
unfoldable pub env_command : List Bytes → List Bytes
env_command tokens =
    if starts_with tokens (codes "/usr/bin/env" ∷ (codes "-S" ∷ []))
      || starts_with tokens (codes "env" ∷ (codes "-S" ∷ []))
    then drop 2 tokens
    else if starts_with tokens (codes "/usr/bin/env" ∷ []) || starts_with tokens (codes "env" ∷ [])
    then drop 1 tokens
    else tokens

unfoldable pub is_nix_shell : List Bytes → Bool
is_nix_shell [] = false
is_nix_shell (s ∷ cmd) = eq_bytes s (codes "nix-shell")

unfoldable pub non_empty : List Bytes → Parsed
non_empty [] = failed no_command
non_empty (program ∷ args) = command (program ∷ args)

module _ (shlex_split : Bytes → Option (List Bytes)) where
  -- What a line of a nix-shell shebang makes of the command.
  unfoldable pub nix_line : Bytes → List Bytes → List Bytes
  nix_line text cmd = elim (shlex_split (trim text)) [
    | none ↦ cmd
    | some tokens ↦ elim (nix_shebang_interpreter tokens) [
      | none ↦ cmd
      | some interpreter ↦ interpreter ∷ []
    ]
  ]

  -- A read that fails ends the loop, whatever its error.
  unfoldable pub parse_nix_shebang : List LineRead → List Bytes → List Bytes
  parse_nix_shebang [] cmd = cmd
  parse_nix_shebang (invalid_data ∷ reader) cmd = cmd
  parse_nix_shebang (other_error ∷ reader) cmd = cmd
  parse_nix_shebang (line next_line ∷ reader) cmd = elim (strip_shebang next_line) [
    | none ↦ cmd
    | some text ↦
        let more = parse_nix_shebang reader (nix_line text cmd) in
        if not (is_printable_shebang text) then cmd else more
  ]

  unfoldable pub parse_line : Bytes → List LineRead → Parsed
  parse_line first reader = elim (strip_shebang first) [
    | none ↦ failed no_shebang
    | some text ↦
        if not (is_printable_shebang first)
        then failed non_printable_chars
        else elim (shlex_split (trim text)) [
          | none ↦ failed parse_failed
          | some tokens ↦
              let cmd = env_command tokens in
              non_empty (if is_nix_shell cmd then parse_nix_shebang reader cmd else cmd)
        ]
  ]

  unfoldable pub parse_shebang : List LineRead → Parsed
  parse_shebang [] = parse_line [] []
  parse_shebang (invalid_data ∷ reader) = failed io_error
  parse_shebang (other_error ∷ reader) = failed io_error
  parse_shebang (line first ∷ reader) = parse_line first reader
