-- ===== src/Hooks/ContentsSorter/Again.antt =====
-- crates/prek/src/hooks/pre_commit_hooks/file_contents_sorter.rs, `sort_file`: a second run over a sorted file.
use prek.Prelude.{
  ◌≡◌, refl, sym, ap, subst, ◌∙◌, inl, inr, Bool, true, false, List, [], if◌then◌else◌, Bool-cases,
  Bytes, all,
}
use prek.Hooks.Output.{FileRun, unchanged}
use prek.Hooks.ContentsSorter.{
  Bstr, key, sort, dedup, split_lines, normalize_lines, sorted_lines, sort_file, joined,
  contents_equal, chunks_of,
}
use prek.Hooks.ContentsSorter.Order.{
  sort-is_sorted, sort-same, dedup-is_distinct, dedup-is_sorted, dedup-same, sort-all, dedup-all,
}
use prek.Hooks.ContentsSorter.Lines.{
  is_kept, split_lines-is_line, normalize_lines-is_kept, normalize_lines-joined,
  contents_equal-joined,
}

abbrev pub passed_run : Bytes → FileRun
passed_run content = record { result = unchanged 0 []; content = content }

-- The order of the lines, which is the whole of it on lines that are kept.
abbrev arranged : Bool → Bool → List Bytes → List Bytes
arranged ignore_case unique lines =
    if ignore_case
    then sort (key true) lines
    else (if unique then dedup (sort (key false) lines) else sort (key false) lines)

arranged_idem :
    (i u : Bool) (lines : List Bytes) → arranged i u (arranged i u lines) ≡ arranged i u lines
arranged_idem true u lines =
    sort-same (key true) (sort (key true) lines) (sort-is_sorted (key true) lines)
arranged_idem false false lines =
    sort-same (key false) (sort (key false) lines) (sort-is_sorted (key false) lines)
arranged_idem false true lines =
    let sorted = sort (key false) lines in
    ap dedup (
      sort-same (key false) (dedup sorted)
        (dedup-is_sorted (key false) sorted (sort-is_sorted (key false) lines)))
    ∙ dedup-same (dedup sorted) (dedup-is_distinct sorted)

arranged-all :
    (p : Bytes → Bool) (i u : Bool) (lines : List Bytes)
    → all p lines ≡ true
    → all p (arranged i u lines) ≡ true
arranged-all p true u lines h = sort-all p (key true) lines h
arranged-all p false false lines h = sort-all p (key false) lines h
arranged-all p false true lines h =
    dedup-all p (sort (key false) lines) (sort-all p (key false) lines h)

module _ (m : Bstr) (ignore_case unique : Bool) where
  abbrev lines_of : Bytes → List Bytes
  lines_of text = sorted_lines m text ignore_case unique

  lines_of-arranged :
      (text : Bytes)
      → lines_of text ≡ arranged ignore_case unique (normalize_lines m (split_lines text))
  unfolding sorted_lines
  lines_of-arranged text =
      ap (λ l. arranged ignore_case unique (normalize_lines m l))
        (m.lines_with_terminator_split text)

  lines_of-joined : (text : Bytes) → lines_of (joined (lines_of text)) ≡ lines_of text
  lines_of-joined text =
      let kept = normalize_lines m (split_lines text) in
      let fine =
        arranged-all is_kept ignore_case unique kept
          (normalize_lines-is_kept m (split_lines text) (split_lines-is_line text)) in
      ap (λ l. lines_of (joined l)) (lines_of-arranged text)
      ∙ lines_of-arranged (joined (arranged ignore_case unique kept))
      ∙ ap (arranged ignore_case unique)
          (normalize_lines-joined m (arranged ignore_case unique kept) fine)
      ∙ arranged_idem ignore_case unique kept
      ∙ sym (lines_of-arranged text)

  sort_file-passes :
      (check : Bool) (display_path text : Bytes)
      → contents_equal text (chunks_of (lines_of text)) ≡ true
      → sort_file m check ignore_case unique display_path text ≡ passed_run text
  unfolding sort_file
  sort_file-passes check display_path text h = rw h refl

  -- Whatever the options, a second run of file-contents-sorter with the same ones, with or
  -- without --check, passes over the file that a fixing run leaves, and leaves it as it is.
  pub sort_file-again :
      (check : Bool) (display_path before : Bytes)
      → let first = sort_file m false ignore_case unique display_path before in
        sort_file m check ignore_case unique display_path first.content ≡ passed_run first.content
  sort_file-again check display_path before =
      elim (Bool-cases (contents_equal before (chunks_of (lines_of before)))) [
        | inl e ↦
            let passes = sort_file-passes false display_path before e in
            subst
              (λ r.
                sort_file m check ignore_case unique display_path r.content ≡ passed_run r.content)
              (sym passes) (sort_file-passes check display_path before e)
        | inr e ↦
            subst (λ l. sort_file m check ignore_case unique display_path l ≡ passed_run l)
              (sym (sorted e))
              (sort_file-passes check display_path (joined (lines_of before)) (
                ap (λ l. contents_equal (joined (lines_of before)) (chunks_of l))
                  (lines_of-joined before)
                ∙ contents_equal-joined (lines_of before)))
      ]
    where
      sorted :
          contents_equal before (chunks_of (lines_of before)) ≡ false
          → (sort_file m false ignore_case unique display_path before).content
            ≡ joined (lines_of before)
      sorted h = unfold sort_file in rw h refl
