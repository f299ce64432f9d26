-- ===== src/Hooks/TrailingWhitespace/Tests.antt =====
-- crates/prek/src/hooks/pre_commit_hooks/fix_trailing_whitespace.rs: runs over concrete files.
use prek.Prelude.{◌≡◌, refl, true, false, none, some, codes, arith, eq_bytes}
use prek.Hooks.Output.{FileRun}
use prek.Hooks.Bytes.{Memchr, position, trim_end, trim_start}
use prek.Hooks.TrailingWhitespace.{
  Options, fix_file, cut_line, detect_line_ending, needs_markdown_break,
  first_line_with_trailing_whitespace,
}
use prek.Hooks.TrailingWhitespace.Lines.{fixed_content, lines}
use prek.Hooks.TrailingWhitespace.Runs.{fix_file_lem, status_of}

abbrev search_bytes : Memchr
search_bytes = record { memchr = position; memchr_position = λ needle hay. refl }

abbrev plain : Options
plain = record { chars = none; is_markdown = false; check = false }

abbrev markdown : Options
markdown = record { chars = none; is_markdown = true; check = false }

two_lines : fixed_content plain (codes "a \nb\t\r\n") ≡ codes "a\nb\r\n"
unfolding fixed_content lines cut_line detect_line_ending needs_markdown_break trim_end trim_start
    eq_bytes
two_lines = refl

line_break : fixed_content markdown (codes "a   \n") ≡ codes "a  \n"
unfolding fixed_content lines cut_line detect_line_ending needs_markdown_break trim_end trim_start
    eq_bytes
line_break = refl

fix_file_lem_example :
    (r : FileRun) × (fix_file search_bytes plain (codes "f") (codes "a \nb\t\r\n") ≡ some r)
    × (r.content ≡ fixed_content plain (codes "a \nb\t\r\n"))
    × (r.result.exit_status
        ≡ status_of (codes "a \nb\t\r\n") (fixed_content plain (codes "a \nb\t\r\n")))
fix_file_lem_example =
    fix_file_lem search_bytes plain (codes "f") (codes "a \nb\t\r\n") (λ kept e body. ground arith)
      refl

clean_front : first_line_with_trailing_whitespace (codes "a\nb \n") ≡ some 2
unfolding first_line_with_trailing_whitespace eq_bytes
clean_front = refl
