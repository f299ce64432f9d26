-- ===== src/Identify/Files.antt =====
-- The tags of a path: `tags_from_path`, with what the system says of it as an argument.
use Prim.Native.Nat.{bit_and}
use prek.Prelude.{
  ℕ, ◌+◌, Bool, true, false, not, ◌&&◌, Option, none, some, List, [], ◌∷◌, map, leb, ◌==◌,
  if◌then◌else◌, Bytes, any, ◌>>=◌,
}
use prek.Identify.Tags.{
  tag_file, tag_directory, tag_symlink, tag_socket, tag_executable, tag_non_executable, tag_text,
  tag_binary,
}
use prek.Identify.Tables.{Table, lookup, extensions, names}
use prek.Identify.Text.{Content, is_text_file}
use prek.Identify.Interpreter.{before_dot, constant_set, tags_from_interpreter}
use prek.Identify.Shebang.{LineRead, Parsed, command, failed, parse_shebang}
use prek.Paths.Text.{split}
use prek.Identify.{TagSet, empty_set, insert, bitor_assign, is_empty, is_disjoint}

abbrev pub dot : ℕ
dot = b'.'

pub record Metadata : Type 0 where
  pub is_dir : Bool
  pub is_symlink : Bool
  pub is_socket : Bool
  pub mode : ℕ

-- A path: `symlink_metadata`, `file_name`, the reads of lines for the shebang (none
-- if the file does not open) and the read of the content.
pub record File : Type 0 where
  pub metadata : Option Metadata
  pub file_name : Option Bytes
  pub reader : Option (List LineRead)
  pub content : Content

pub data Identified : Type 0 where
  identified : TagSet → Identified
  io_failed : Identified
  panicked : Identified

-- What is behind the last dot.
unfoldable pub after_dot : Bytes → Bytes
after_dot [] = []
after_dot (c ∷ text) = elim (before_dot text) [
  | none ↦ if c == dot then text else []
  | some _ ↦ after_dot text
]

-- `Path::extension`: what is behind the last dot, unless that dot is missing or begins the name.
-- The name ".." is not one that `file_name` returns.
unfoldable pub extension : Bytes → Option Bytes
extension name = elim (before_dot name) [
  | none ↦ none
  | some [] ↦ none
  | some (c ∷ front) ↦ some (after_dot name)
]

abbrev pub is_ascii_uppercase : ℕ → Bool
is_ascii_uppercase b = leb b'A' b && leb b b'Z'

abbrev pub to_ascii_lowercase : Bytes → Bytes
to_ascii_lowercase text = map (λ b. if is_ascii_uppercase b then b + 32 else b) text

-- `get` on a table of constants
unfoldable pub table_get : Table → Bytes → Option TagSet
table_get table key = elim (lookup table key) [ none ↦ none | some ids ↦ some (constant_set ids) ]

abbrev pub unwrap_or_default : Option TagSet → TagSet
unwrap_or_default none = empty_set
unwrap_or_default (some s) = s

unfoldable pub extension_set : Bytes → TagSet
extension_set ext = elim (table_get extensions ext) [
  | some tags ↦ tags
  | none ↦
      if any is_ascii_uppercase ext
      then unwrap_or_default (table_get extensions (to_ascii_lowercase ext))
      else empty_set
]

-- `find_map(|name| NAMES.get(name))` on the parts of a name
unfoldable pub find_name : List Bytes → TagSet
find_name [] = empty_set
find_name (part ∷ parts) = elim (table_get names part) [ none ↦ find_name parts | some tags ↦ tags ]

-- `mode & 0o111 != 0`
abbrev pub is_executable : Metadata → Bool
is_executable metadata = not (bit_and metadata.mode 73 == 0)

unfoldable pub or_panicked : Option TagSet → Identified
or_panicked none = panicked
or_panicked (some s) = identified s

unfoldable pub add_content : TagSet → Content → Option TagSet
add_content tags content =
    if is_disjoint tags (constant_set (tag_binary ∷ tag_text ∷ []))
    then insert tags (if is_text_file content then tag_text else tag_binary)
    else some tags

-- `to_str` of a name, by whether it is UTF-8.
abbrev to_str : (Bytes → Bool) → Option Bytes → Option Bytes
to_str is_utf8 none = none
to_str is_utf8 (some name) = if is_utf8 name then some name else none

unfoldable pub extension_tags : Option Bytes → TagSet
extension_tags none = empty_set
extension_tags (some ext) = extension_set ext

unfoldable pub tags_from_extension : (Bytes → Bool) → Option Bytes → TagSet
tags_from_extension is_utf8 file_name =
    extension_tags (to_str is_utf8 (elim file_name [ none ↦ none | some name ↦ extension name ]))

unfoldable pub name_tags : TagSet → Option Bytes → TagSet
name_tags extension_tags none = extension_tags
name_tags extension_tags (some name) =
    let result = bitor_assign (unwrap_or_default (table_get names name)) extension_tags in
    if not (is_empty result) then result else find_name (split dot name)

unfoldable pub tags_from_filename : (Bytes → Bool) → Option Bytes → TagSet
tags_from_filename is_utf8 file_name =
    name_tags (tags_from_extension is_utf8 file_name) (to_str is_utf8 file_name)

-- The tags of the interpreter that the first line names; `shebang[0]` panics on an empty command.
unfoldable pub add_interpreter : TagSet → Parsed → Option TagSet
add_interpreter tags (failed _) = some tags
add_interpreter tags (command []) = none
add_interpreter tags (command (program ∷ args)) = do
  interpreter_tags ← tags_from_interpreter program
  some (bitor_assign tags interpreter_tags)

unfoldable pub add_shebang :
    (Bytes → Option (List Bytes)) → TagSet → Bool → Option (List LineRead) → Option TagSet
add_shebang shlex_split tags false reader = some tags
add_shebang shlex_split tags true none = some tags
add_shebang shlex_split tags true (some reader) =
    add_interpreter tags (parse_shebang shlex_split reader)

-- The crate `shlex`, and the test of the standard library for UTF-8.
module _ (shlex_split : Bytes → Option (List Bytes)) (is_utf8 : Bytes → Bool) where
  unfoldable pub file_tags : Bool → File → Option TagSet
  file_tags executable path = do
    tags ←
        insert (constant_set (tag_file ∷ []))
          (if executable then tag_executable else tag_non_executable)
    more ←
        add_shebang shlex_split (bitor_assign tags (tags_from_filename is_utf8 path.file_name))
          executable path.reader
    add_content more path.content

  unfoldable pub tags_from_path : File → Identified
  tags_from_path path = elim path.metadata [
    | none ↦ io_failed
    | some metadata ↦
        if metadata.is_dir
        then identified (constant_set (tag_directory ∷ []))
        else if metadata.is_symlink
        then identified (constant_set (tag_symlink ∷ []))
        else if metadata.is_socket
        then identified (constant_set (tag_socket ∷ []))
        else or_panicked (file_tags (is_executable metadata) path)
  ]
