-- ===== src/Hooks/ContentsSorter/Tests.antt =====
-- crates/prek/src/hooks/pre_commit_hooks/file_contents_sorter.rs, at concrete files.
use prek.Prelude.{◌≡◌, refl, true, false, [], ◌∷◌, Bytes, codes, eq_bytes}
use prek.Hooks.Bytes.{trim_end}
use prek.Hooks.ContentsSorter.{
  Bstr, split_lines, is_line_end, sort, insert, le_bytes, dedup, key, sort_file,
}
use prek.Hooks.ContentsSorter.Again.{passed_run, sort_file-again}

abbrev bstr : Bstr
bstr = record {
  lines_with_terminator = split_lines;
  trim_end_with = trim_end is_line_end;
  lines_with_terminator_split = λ text. refl;
  trim_end_with_line_ends = λ line. refl;
}

sorted_lem :
    dedup (sort (key false) (codes "b" ∷ codes "a" ∷ codes "b" ∷ [])) ≡ codes "a" ∷ codes "b" ∷ []
unfolding sort dedup insert le_bytes eq_bytes
sorted_lem = refl

abbrev unsorted : Bytes
unsorted = codes "b\r\n\na\nb"

sort_file-again_example :
    let first = sort_file bstr false false true (codes "x.txt") unsorted in
    sort_file bstr true false true (codes "x.txt") first.content ≡ passed_run first.content
sort_file-again_example = sort_file-again bstr false true true (codes "x.txt") unsorted
