-- ===== src/Hooks/MergeConflict/Tests.antt =====
-- crates/prek/src/hooks/pre_commit_hooks/check_merge_conflict.rs, at concrete files.
use prek.Prelude.{
  ℕ, suc, ◌≡◌, refl, ◌||◌, Option, none, some, List, [], ◌∷◌, arith, if◌then◌else◌, Bytes, codes,
}
use prek.Hooks.MergeConflict.{Finders, is_some, starts_with, occurs, positions, check_file, digits}
use prek.Hooks.MergeConflict.Window.{begins_marker}
use prek.Hooks.MergeConflict.Stream.{contents, reference, check_file-reference}
use prek.Hooks.MergeConflict.ExitStatus.{marker_behind, check_file-exit_status}

abbrev next_index : Option ℕ → Option ℕ
next_index none = none
next_index (some i) = some (suc i)

abbrev find : Bytes → Bytes → Option ℕ
find needle [] = if starts_with needle [] then some 0 else none
find needle (b ∷ hay) =
    let rest = next_index (find needle hay) in if starts_with needle (b ∷ hay) then some 0 else rest

find-occurs : (needle hay : Bytes) → is_some (find needle hay) ≡ occurs needle hay
unfolding occurs
find-occurs needle [] = ground arith
find-occurs needle (b ∷ hay) = ground (arith, find-occurs needle hay)

abbrev finders : Finders
finders = record {
  find = find;
  memchr_iter = λ needle hay. positions needle 0 hay;
  find_occurs = find-occurs;
  memchr_iter_positions = λ needle hay. refl;
}

number_lem : digits 1001 1000 ≡ codes "1000"
unfolding digits
number_lem = refl

abbrev reads : List Bytes
reads = codes "a\n<<<<<" ∷ codes "<< HEAD\nb\n====" ∷ codes "===\nc\n>>>>>>> x" ∷ []

check_file-reference_example :
    check_file finders (codes "x.txt") reads ≡ reference (codes "x.txt") (contents reads)
check_file-reference_example =
    check_file-reference finders (codes "x.txt") reads (tt, (tt, (tt, tt)))

check_file-exit_status_example :
    (check_file finders (codes "x.txt") reads).exit_status
    ≡ (if begins_marker (contents reads) || marker_behind (contents reads) then 1 else 0)
check_file-exit_status_example =
    check_file-exit_status finders (codes "x.txt") reads (tt, (tt, (tt, tt)))
