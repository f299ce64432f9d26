-- ===== src/Hooks/MergeConflict/Stream.antt =====
-- crates/prek/src/hooks/pre_commit_hooks/check_merge_conflict.rs, `check_file`: the reads against one visit of the lines
-- of the whole file.
use prek.Prelude.{
  ℕ, zero, suc, ◌+◌, ◌-◌, ◌≤◌, ◌≡◌, refl, sym, ap, ap₂, ◌∙◌, ◌⊎◌, inl, inr, Bool, true, ◌&&◌, List,
  [], ◌∷◌, ◌++◌, append_assoc, append-nil, arith, ltb, leb, if◌then◌else◌, leb→le, Bool-cases,
  Bytes, codes, length, take, drop, length-append, length-drop, All,
}
use prek.Hooks.Output.{HookOutput, unchanged}
use prek.Hooks.Bytes.{lf}
use prek.Hooks.MergeConflict.{
  State, Finders, start, check_line, next_at_line_start, may_conflict, check_content, check_reads,
  check_file, check_newlines,
}
use prek.Hooks.MergeConflict.Lines.{walk, starts_line, walk-split, walk-check_newlines}
use prek.Hooks.MergeConflict.Window.{
  walk-quiet, walk-append, starts_line-append, next_at_line_start-starts_line,
}

-- What the reads return, in order.
abbrev pub contents : List Bytes → Bytes
contents [] = []
contents (read ∷ reads) = read ++ contents reads

-- A read that returns bytes.
abbrev pub IsRead : Bytes → Type 0
IsRead [] = ⊥
IsRead (b ∷ read) = Unit

drop-append : (n : ℕ) (xs ys : Bytes) → n ≤ length xs → drop n (xs ++ ys) ≡ drop n xs ++ ys
drop-append zero xs ys h = refl
drop-append (suc n) [] ys h = absurd (omega arith)
drop-append (suc n) (x ∷ xs) ys h = drop-append n xs ys (omega arith)

ahead_of : (n : ℕ) → (n - 8 ≡ 0) ⊎ (n - 8 + 8 ≤ n)
ahead_of n = elim (Bool-cases (leb 8 n)) [
  | inl e ↦ inr (omega (arith, leb→le 8 n e))
  | inr e ↦ inl (ground arith)
]

-- One visit of the lines of a whole file.
unfoldable pub reference : Bytes → Bytes → HookOutput
reference display_path text =
    let s = walk display_path (length text) true text start in unchanged s.code s.output

module _ (f : Finders) (display_path : Bytes) where
  check_content-walk :
      (t : Bool) (content : Bytes) (consumed : ℕ) (s : State)
      → consumed ≤ length content
      → check_content f display_path t content consumed s ≡ walk display_path consumed t content s
  unfolding check_content may_conflict
  check_content-walk t content consumed s h =
      let found = f.memchr_iter_positions lf (take consumed content) in
      elim (Bool-cases (may_conflict f display_path t content s)) [
        | inl e ↦ rw e (
            ap
              (λ l.
                check_newlines display_path content consumed l
                  (if ltb 0 consumed && t then check_line display_path content s else s))
              found
            ∙ sym (
                walk-check_newlines display_path content consumed consumed 0 content t s refl h
                  (omega arith)))
        | inr e ↦
            let quiet =
              walk-quiet display_path consumed t content s (ground arith) (ground arith)
                (ground (arith, f.find_occurs (codes "\n<<<<<<< ") content))
                (ground (arith, f.find_occurs (codes "\n>>>>>>> ") content)) in
            rw e (ap (λ l. record s { line_number = s.line_number + length l }) found ∙ sym quiet)
      ]

  check_reads-walk :
      (t : Bool) (carry : Bytes) (reads : List Bytes) (s : State)
      → All IsRead reads
      → check_reads f display_path t carry reads s
        ≡ walk display_path (length (carry ++ contents reads)) t (carry ++ contents reads) s
  unfolding check_reads
  check_reads-walk t carry [] s h =
      check_content-walk t carry (length carry) s (omega arith)
      ∙ ap (λ l. walk display_path (length l) t l s) (sym (append-nil carry))
  check_reads-walk t carry ([] ∷ reads) s (r, h) = absurd r
  check_reads-walk t carry ((b ∷ read) ∷ reads) s (r, h) =
      let content = carry ++ (b ∷ read) in
      let more = contents reads in
      let n = length content - 8 in
      let m = length (drop n content ++ more) in
      let inside : n ≤ length content = omega arith in
      let ahead : (n ≡ 0) ⊎ (n + 8 ≤ length content) = ahead_of (length content) in
      let size : n + m ≡ length (content ++ more) = omega (
        arith,
        length-append content more,
        length-append (drop n content) more,
        length-drop n content,
      ) in
      let first : check_content f display_path t content n s
          ≡ walk display_path n t (content ++ more) s =
        check_content-walk t content n s inside
        ∙ sym (walk-append display_path n t content more s ahead) in
      let flag : next_at_line_start t content n ≡ starts_line n t (content ++ more) =
        next_at_line_start-starts_line n t content inside
        ∙ sym (starts_line-append n t content more inside) in
      check_reads-walk (next_at_line_start t content n) (drop n content) reads
        (check_content f display_path t content n s) h
      ∙ ap₂ (λ u q. walk display_path m u (drop n content ++ more) q) flag first
      ∙ ap
          (λ l.
            walk display_path m (starts_line n t (content ++ more)) l
              (walk display_path n t (content ++ more) s))
          (sym (drop-append n content more inside))
      ∙ sym (walk-split display_path n m t (content ++ more) s)
      ∙ ap (λ k. walk display_path k t (content ++ more) s) size
      ∙ ap (λ l. walk display_path (length l) t l s) (append_assoc carry (b ∷ read) more)

  -- However its reads cut a file, as long as each but the last returns bytes,
  -- check-merge-conflict reports what one visit of the lines of the whole file reports, with
  -- the same line numbers; the bytes read ahead and the search for markers make no difference.
  pub check_file-reference :
      (reads : List Bytes)
      → All IsRead reads
      → check_file f display_path reads ≡ reference display_path (contents reads)
  unfolding check_file reference
  check_file-reference reads h =
      ap (λ s. unchanged s.code s.output) (check_reads-walk true [] reads start h)
