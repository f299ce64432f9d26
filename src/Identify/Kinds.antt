-- ===== src/Identify/Kinds.antt =====
-- What `tags_from_path` says of the kind of a file.
use prek.Prelude.{
  ℕ, ◌<◌, ◌≡◌, refl, sym, ap, ap₂, subst, ◌∙◌, inl, inr, Bool, true, false, not, ◌&&◌, ◌||◌, Option,
  none, some, List, [], ◌∷◌, arith, ltb, ◌==◌, if◌then◌else◌, Bool-cases, Option-cases, Bytes,
}
use prek.Identify.Tags.{
  all_tags_len, tag_file, tag_directory, tag_symlink, tag_socket, tag_executable,
  tag_non_executable, tag_text, tag_binary,
}
use prek.Identify.Interpreter.{constant_set}
use prek.Identify.Files.{
  Metadata, File, Identified, identified, io_failed, is_executable, file_tags, tags_from_filename,
  tags_from_path, or_panicked,
}
use prek.Identify.Sets.{IsTagSet}
use prek.Identify.Refine.{set_bit-Represents}
use prek.Identify.Reading.{insert_read, ||-false_right as ||-false}
use prek.Identify.Ordinary.{is_kind, constant_set-Represents, tags_from_filename-IsOrdinary}
use prek.Identify.{TagSet, insert, set_bit, bitor_assign, member}
use prek.Identify.Steps.{
  HasKinds, union-HasKinds, add_shebang-HasKinds, has_content, add_content-HasKinds,
}

-- The kind that the metadata of a path tell.
kind_of : Metadata → ℕ → Bool
kind_of m i =
    if m.is_dir
    then i == tag_directory
    else if m.is_symlink
    then i == tag_symlink
    else if m.is_socket
    then i == tag_socket
    else i == tag_file || i == (if is_executable m then tag_executable else tag_non_executable)

is_plain : Metadata → Bool
is_plain m = not (m.is_dir || (m.is_symlink || m.is_socket))

-- What a set says of a path.
pub record IsKindOf (m : Metadata) (s : TagSet) : Type 0 where
  valid : IsTagSet s
  kind : (i : ℕ) → is_kind i ≡ true → member s i ≡ kind_of m i
  content : has_content s ≡ is_plain m

executable_id : Bool → ℕ
executable_id executable = if executable then tag_executable else tag_non_executable

base-HasKinds :
    (executable : Bool)
    → (t : TagSet) × (insert
          (constant_set (tag_file ∷ []))
          (if executable then tag_executable else tag_non_executable)
        ≡ some t)
      × HasKinds t
          (λ i. i == tag_file || i == (if executable then tag_executable else tag_non_executable))
base-HasKinds executable =
    let base = constant_set-Represents (tag_file ∷ []) refl in
    let id = if executable then tag_executable else tag_non_executable in
    let lt : id < all_tags_len = ground arith in
    let rep =
      set_bit-Represents (constant_set (tag_file ∷ [])) (λ i. i == tag_file || false) id lt base in
    (
      record { bits = set_bit id (constant_set (tag_file ∷ [])).bits },
      insert_read (constant_set (tag_file ∷ [])) id lt,
      record {
        valid = rep.valid;
        same = λ i k. rep.same i ∙ ap (λ b. b || i == id) (||-false (i == tag_file));
      },
    )

-- What the identification owes: an error exactly if the metadata fail to be read.
abbrev pub IdentifiedAs : Option Metadata → Identified → Type 0
IdentifiedAs none r = r ≡ io_failed
IdentifiedAs (some m) r = (s : TagSet) × (r ≡ identified s) × IsKindOf m s

-- The set of one kind that is no plain file.
single-IsKindOf :
    (m : Metadata) (id : ℕ)
    → ltb id all_tags_len && not (id == tag_text || id == tag_binary) ≡ true
    → is_plain m ≡ false
    → ((i : ℕ) → kind_of m i ≡ (i == id))
    → IsKindOf m (constant_set (id ∷ []))
single-IsKindOf m id ok not_plain kind =
    let rep = constant_set-Represents (id ∷ []) (ground arith) in
    record {
      valid = rep.valid;
      kind = λ i _. rep.same i ∙ ||-false (i == id) ∙ sym (kind i);
      content = ap₂ ◌||◌ (rep.same tag_text) (rep.same tag_binary) ∙ ground arith;
    }

module _ (split : Bytes → Option (List Bytes)) (is_utf8 : Bytes → Bool) where
  file_tags-HasKinds :
      (executable : Bool) (path : File)
      → (t : TagSet) × (file_tags split is_utf8 executable path ≡ some t)
        × HasKinds t
            (λ i. i == tag_file || i == (if executable then tag_executable else tag_non_executable))
        × (has_content t ≡ true)
  unfolding file_tags
  file_tags-HasKinds executable path =
      let (base, inserted, base_kinds) = base-HasKinds executable in
      let named = tags_from_filename is_utf8 path.file_name in
      let named_kinds =
        union-HasKinds base named _ base_kinds
          (tags_from_filename-IsOrdinary is_utf8 path.file_name) in
      let (more, run, more_kinds) =
        add_shebang-HasKinds split (bitor_assign base named) _ executable path.reader named_kinds in
      let (t, last, kinds, has) = add_content-HasKinds more _ path.content more_kinds in
      (t, rw (inserted, run) last, kinds, has)

  plain_path :
      (path : File) (m : Metadata)
      → path.metadata ≡ some m
      → m.is_dir ≡ false
      → m.is_symlink ≡ false
      → m.is_socket ≡ false
      → (r : Identified) → or_panicked (file_tags split is_utf8 (is_executable m) path) ≡ r
      → tags_from_path split is_utf8 path ≡ r
  unfolding tags_from_path
  plain_path path m e not_dir not_link not_socket r h =
      rw (tags_from_path, e, not_dir, not_link, not_socket) h

  some_metadata :
      (path : File) (m : Metadata)
      → path.metadata ≡ some m
      → IdentifiedAs (some m) (tags_from_path split is_utf8 path)
  unfolding tags_from_path kind_of is_plain or_panicked
  some_metadata path m e = elim (Bool-cases m.is_dir) [
    | inl dir ↦ (
      constant_set (tag_directory ∷ []),
      rw (tags_from_path, e, dir) refl,
      single-IsKindOf m tag_directory refl (ground arith) (λ i. rw dir refl),
    )
    | inr not_dir ↦ elim (Bool-cases m.is_symlink) [
      | inl link ↦ (
        constant_set (tag_symlink ∷ []),
        rw (tags_from_path, e, not_dir, link) refl,
        single-IsKindOf m tag_symlink refl (ground arith) (λ i. rw (not_dir, link) refl),
      )
      | inr not_link ↦ elim (Bool-cases m.is_socket) [
        | inl socket ↦ (
          constant_set (tag_socket ∷ []),
          rw (tags_from_path, e, not_dir, not_link, socket) refl,
          single-IsKindOf m tag_socket refl (ground arith)
              (λ i. rw (not_dir, not_link, socket) refl),
        )
        | inr not_socket ↦
            let (t, run, kinds, has) = file_tags-HasKinds (is_executable m) path in
            (
              t,
              plain_path path m e not_dir not_link not_socket (identified t) (ap or_panicked run),
              record {
                valid = kinds.valid;
                kind = λ i k. rw (not_dir, not_link, not_socket) (kinds.same i k);
                content = has ∙ rw (not_dir, not_link, not_socket) refl;
              },
            )
      ]
    ]
  ]

  no_metadata : (path : File) → path.metadata ≡ none → tags_from_path split is_utf8 path ≡ io_failed
  unfolding tags_from_path
  no_metadata path e = rw (tags_from_path, e) refl

  -- If the metadata of a path are read, then tags_from_path does not panic and returns a set
  -- that says exactly one of directory, symlink, socket and file, whatever the tables give; a
  -- file is executable exactly if a bit of its mode says so and non-executable otherwise, and
  -- it is text or binary, which the others are not. If the metadata fail to be read, the
  -- result is that error.
  pub tags_from_path-IdentifiedAs :
      (path : File) → IdentifiedAs path.metadata (tags_from_path split is_utf8 path)
  tags_from_path-IdentifiedAs path = elim (Option-cases path.metadata) [
    | inl missing ↦
        subst (λ o. IdentifiedAs o (tags_from_path split is_utf8 path)) (sym missing)
          (no_metadata path missing)
    | inr (m, found) ↦
        subst (λ o. IdentifiedAs o (tags_from_path split is_utf8 path)) (sym found)
          (some_metadata path m found)
  ]
