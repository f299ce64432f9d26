-- ===== src/Hooks/TrailingWhitespace/Runs.antt =====
-- crates/prek/src/hooks/pre_commit_hooks/fix_trailing_whitespace.rs: a run, from the file to the
-- file.
use prek.Prelude.{
  ℕ, suc, ◌+◌, ◌-◌, ◌≤◌, ◌<◌, ◌≡◌, ◌⊎◌, inl, inr, refl, sym, ap, ap₂, ◌∙◌, subst, Bytes, [], ◌++◌,
  true, false, Option, none, some, length, take, drop, ◌==◌, if◌then◌else◌, arith, length-take,
  Bool-cases, Option-cases, length-drop, take-length, ==_iff, eq_bytes, eq_bytes_iff, length-append,
}
use prek.Hooks.Output.{FileRun, unchanged}
use prek.Hooks.Bytes.{Memchr, copy_within}
use prek.Hooks.Bytes.CopyWithin.{copy_within-take}
use prek.Hooks.TrailingWhitespace.{
  Options, State, fix_lines, finished, finish, start_line, fix_file,
  first_line_with_trailing_whitespace,
}
use prek.Hooks.TrailingWhitespace.Lines.{KeepsFront, fixed_content}
use prek.Hooks.TrailingWhitespace.Loop.{Inv, out}
use prek.Hooks.TrailingWhitespace.Skip.{Passed, first_line-Passed}
use prek.Hooks.TrailingWhitespace.Fixes.{fix_lines-Ends}

abbrev initial : Bytes → ℕ → State
initial content start = record { content = content; line_start = start; copied = 0; written = 0 }

initial-Inv :
    (content : Bytes) (start : ℕ) → start ≤ length content → Inv content (initial content start)
initial-Inv content start h = record {
  same = refl;
  written_le = omega arith;
  copied_le = omega arith;
  inside = h;
  gained = λ h'. absurd (omega arith);
  intact = refl;
}

-- A file that the hook leaves, or one that it rewrites.
abbrev pub status_of : Bytes → Bytes → ℕ
status_of before after = if eq_bytes before after then 0 else 1

module _ (m : Memchr) (o : Options) (display_path original : Bytes) (s : State) (i : Inv original s)
    (end : length original ≤ s.line_start) where
  abbrev result : FileRun
  result = finish m o display_path original (finished s)

  out-untouched : s.copied ≡ 0 → out original s ≡ original
  out-untouched h =
      let w : s.written ≡ 0 = omega (arith, i.written_le) in
      let l : length original ≤ s.line_start - s.copied = omega arith in
      ap₂ (λ w c. take w s.content ++ take (s.line_start - s.copied) (drop c original)) w h
      ∙ take-length (s.line_start - s.copied) original l

  out-compacted :
      take
        (s.written + length s.content - s.copied)
        (copy_within s.copied (length s.content) s.written s.content)
      ≡ out original s
  out-compacted =
      let e : s.written + length s.content - s.copied ≡ s.written + (length s.content - s.copied) =
        omega (arith, i.copied_le, i.inside, i.same) in
      let e' : length s.content - s.copied ≡ s.line_start - s.copied =
        omega (arith, i.inside, i.same) in
      ap (λ k. take k (copy_within s.copied (length s.content) s.written s.content)) e
      ∙ copy_within-take s.copied (length s.content) s.written s.content
          (omega (arith, i.copied_le, i.inside, i.same)) (omega arith) i.written_le
      ∙ ap₂ (λ k l. take s.written s.content ++ take k l) e' i.intact

  shorter : 0 < s.copied → length (out original s) < length original
  shorter h = omega (
    arith,
    i.gained h,
    i.inside,
    i.copied_le,
    length-append (take s.written s.content)
        (take (s.line_start - s.copied) (drop s.copied original)),
    length-take s.written s.content,
    length-take (s.line_start - s.copied) (drop s.copied original),
    length-drop s.copied original,
  )

  finish-content : result.content ≡ out original s
  unfolding finish
  finish-content = elim (Bool-cases (s.copied == 0)) [
    | inl none_cut ↦ rw none_cut (sym (out-untouched ((==_iff s.copied 0).0 none_cut)))
    | inr some_cut ↦ rw some_cut out-compacted
  ]

  finish-status : result.result.exit_status ≡ status_of original (out original s)
  unfolding finish
  finish-status = elim (Bool-cases (s.copied == 0)) [
    | inl none_cut ↦ rw (
      none_cut,
      (eq_bytes_iff original (out original s)).1
          (sym (out-untouched ((==_iff s.copied 0).0 none_cut))),
    )
    | inr some_cut ↦
        let pos : 0 < s.copied = ground arith in
        let lt = shorter pos in
        let ne : eq_bytes original (out original s) ≡ false =
          elim (Bool-cases (eq_bytes original (out original s))) [
            | inl same ↦
                absurd
                  (omega (arith, ap length ((eq_bytes_iff original (out original s)).0 same), lt))
            | inr differ ↦ differ
          ] in
        rw (some_cut, ne)
  ]

-- The loop may begin at `start`: what is before it stays.
abbrev Begins : Options → Bytes → Option ℕ → Type 0
Begins o content none = fixed_content o content ≡ content
Begins o content (some start) =
    (start ≤ length content)
    × (fixed_content o content ≡ take start content ++ fixed_content o (drop start content))

Passed-Begins :
    (o : Options) (plain : o.chars ≡ none) (text : o.is_markdown ≡ false) (content : Bytes)
    (r : Option ℕ)
    → Passed o plain text content 0 r
    → Begins o content r
Passed-Begins o plain text content none p = p
Passed-Begins o plain text content (some start) (j, at, le, p) =
    let e : j ≡ start = omega arith in
    (
      omega arith,
      subst (λ k. fixed_content o content ≡ take k content ++ fixed_content o (drop k content)) e p,
    )

module _ (m : Memchr) (o : Options) (content : Bytes) where
  start-kept : (kept : Bytes → ℕ) → o.chars ≡ some kept → start_line m o content ≡ some 0
  unfolding start_line
  start-kept kept e = ground arith

  start-markdown : o.chars ≡ none → o.is_markdown ≡ true → start_line m o content ≡ some 0
  unfolding start_line
  start-markdown e h = ground arith

  start-text :
      o.chars ≡ none
      → o.is_markdown ≡ false
      → start_line m o content ≡ first_line_with_trailing_whitespace content
  unfolding start_line
  start-text e h = ground arith

  start_line-Begins : Begins o content (start_line m o content)
  start_line-Begins = go o.chars refl (Bool-cases o.is_markdown)
    where
      go :
          (c : Option (Bytes → ℕ))
          → o.chars ≡ c
          → (o.is_markdown ≡ true) ⊎ (o.is_markdown ≡ false)
          → Begins o content (start_line m o content)
      go (some kept) e _ = subst (Begins o content) (sym (start-kept kept e)) (omega arith, refl)
      go none e (inl markdown) =
          subst (Begins o content) (sym (start-markdown e markdown)) (omega arith, refl)
      go none e (inr text) = subst (Begins o content) (sym (start-text e text)) (
          Passed-Begins o e text content (first_line_with_trailing_whitespace content)
            (first_line-Passed o e text content))

  -- What a run promises of the file and of its status.
  abbrev pub Fixes : Bytes → Type 0
  Fixes display_path =
      (r : FileRun) × (fix_file m o display_path content ≡ some r)
      × (r.content ≡ fixed_content o content)
      × (r.result.exit_status ≡ status_of content (fixed_content o content))

  Fixes-none : (display_path : Bytes) → start_line m o content ≡ none → Fixes display_path
  unfolding fix_file
  Fixes-none display_path h =
      let same : fixed_content o content ≡ content = subst (Begins o content) h start_line-Begins in
      (
        record { result = unchanged 0 []; content = content },
        ground arith,
        sym same,
        rw ((eq_bytes_iff content (fixed_content o content)).1 (sym same)),
      )

  fix_file-finish :
      (display_path : Bytes) (start : ℕ) (s : State)
      → start_line m o content ≡ some start
      → fix_lines m o (suc (length content)) (initial content start) ≡ some (finished s)
      → fix_file m o display_path content ≡ some (finish m o display_path content (finished s))
  unfolding fix_file
  fix_file-finish display_path start s h k = ground arith

  Fixes-some :
      (display_path : Bytes) (start : ℕ)
      → KeepsFront o
      → o.check ≡ false
      → start_line m o content ≡ some start
      → Fixes display_path
  Fixes-some display_path start front fixing h =
      let (inside, split) = subst (Begins o content) h start_line-Begins in
      let (s, ran, i, end, total) =
        fix_lines-Ends m o front fixing content (suc (length content)) (initial content start)
          (initial-Inv content start inside) (omega arith) in
      let at_start : start - 0 ≡ start = omega arith in
      let all : out content s ≡ fixed_content o content =
        total
        ∙ ap (λ k. take k content ++ fixed_content o (drop start content)) at_start
        ∙ sym split in
      (
        finish m o display_path content (finished s),
        fix_file-finish display_path start s h ran,
        finish-content m o display_path content s i end ∙ all,
        finish-status m o display_path content s i end ∙ ap (status_of content) all,
      )

-- If --chars keeps a front of each body, a fixing run of trailing-whitespace returns; the file
-- then holds every line without the whitespace behind its body, as --chars and Markdown breaks
-- have it and with its ending kept, and the exit status is 1 exactly if that differs from what
-- the file held.
pub fix_file_lem :
    (m : Memchr) (o : Options) (display_path content : Bytes)
    → KeepsFront o
    → o.check ≡ false
    → (r : FileRun) × (fix_file m o display_path content ≡ some r)
      × (r.content ≡ fixed_content o content)
      × (r.result.exit_status ≡ status_of content (fixed_content o content))
fix_file_lem m o display_path content front fixing = elim (Option-cases (start_line m o content)) [
  | inl h ↦ Fixes-none m o content display_path h
  | inr (start, h) ↦ Fixes-some m o content display_path start front fixing h
]
