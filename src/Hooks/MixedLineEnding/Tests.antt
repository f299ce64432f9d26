-- ===== src/Hooks/MixedLineEnding/Tests.antt =====
-- crates/prek/src/hooks/pre_commit_hooks/mixed_line_ending.rs, at concrete files.
use prek.Prelude.{◌≡◌, refl, some, Bytes, codes}
use prek.Hooks.Output.{FileRun}
use prek.Hooks.Bytes.{Memchr, position}
use prek.Hooks.MixedLineEnding.{auto, to_crlf, count_line_endings}
use prek.Hooks.MixedLineEnding.Count.{tally, count_line_endings_lem}
use prek.Hooks.MixedLineEnding.Fix.{Memchr2, position2, fix_file, passed_run}
use prek.Hooks.MixedLineEnding.Fix.Reference.{converted}
use prek.Hooks.MixedLineEnding.Fix.Runs.{reference_run, fix_file-reference}
use prek.Hooks.MixedLineEnding.Fix.Again.{fix_file-again}

abbrev memchr : Memchr
memchr = record { memchr = position; memchr_position = λ needle hay. refl }

abbrev memchr2 : Memchr2
memchr2 = record { memchr2 = position2; memchr2_position = λ a b hay. refl }

abbrev mixed : Bytes
mixed = codes "a\r\nb\nc\rd\n\n"

mixed_lem : converted (codes "\r\n") (codes "a\nb") ≡ codes "a\r\nb\r\n"
unfolding converted
mixed_lem = refl

count_line_endings_lem_example : count_line_endings mixed ≡ tally mixed
count_line_endings_lem_example = count_line_endings_lem mixed

fix_file-reference_example :
    fix_file memchr memchr2 auto (codes "x.txt") mixed
    ≡ some (reference_run auto (codes "x.txt") mixed)
fix_file-reference_example = fix_file-reference memchr memchr2 auto (codes "x.txt") mixed

fix_file-again_example :
    (first : FileRun) × (fix_file memchr memchr2 to_crlf (codes "x.txt") mixed ≡ some first)
    × (fix_file memchr memchr2 to_crlf (codes "x.txt") first.content
        ≡ some (passed_run first.content))
fix_file-again_example = fix_file-again memchr memchr2 to_crlf refl (codes "x.txt") mixed
