-- ===== src/Identify/Tests.antt =====
-- crates/prek-identify/src/lib.rs, at concrete sets and files.
use prek.Prelude.{
  ℕ, suc, ◌≡◌, refl, ◌↔◌, true, false, ◌&&◌, ◌||◌, some, List, [], ◌∷◌, map, ◌==◌, Bytes, codes,
  any,
}
use prek.Identify.Tags.{all_tags, all_tags_len, tag_file, tag_text, tag_executable}
use prek.Identify.Bits.{trailing_zeros}
use prek.Identify.Interpreter.{constant_set, base_name, fronts, first_match, tags_from_interpreter}
use prek.Identify.Interpreter.Fronts.{IsBaseName, tags_from_interpreter-first_match}
use prek.Identify.Shebang.{line}
use prek.Identify.Files.{File, tags_from_path}
use prek.Identify.Sets.{empty_set-IsTagSet, empty_set_members}
use prek.Identify.Refine.{Represents, Inserted, operations-Represents}
use prek.Identify.Reading.{ReadAs, first_unknown, visit_seq-first_unknown}
use prek.Identify.Iter.{ids, collect-iter}
use prek.Identify.RoundTrip.{visit_seq-collect}
use prek.Identify.Ordinary.{constant_set-Represents}
use prek.Identify.Kinds.{IdentifiedAs, tags_from_path-IdentifiedAs}
use prek.Identify.{
  TagSet, empty_set, is_disjoint, is_subset, is_empty, bitor_assign, insert, insert_all, set_bit,
  or_at, iter, collect, next, name_at, visit_seq, read,
}

abbrev file_text : TagSet
file_text = constant_set (tag_file ∷ (tag_text ∷ []))

file_text-Represents : Represents file_text (λ i. any (λ id. i == id) (tag_file ∷ (tag_text ∷ [])))
file_text-Represents = constant_set-Represents (tag_file ∷ (tag_text ∷ [])) refl

listed : collect 5 (iter file_text) ≡ some (codes "file" ∷ (codes "text" ∷ []))
unfolding collect next constant_set insert_all insert set_bit or_at trailing_zeros all_tags
listed = refl

operations-Represents_example :
    Inserted file_text (λ i. any (λ id. i == id) (tag_file ∷ (tag_text ∷ []))) tag_executable
    × Represents
        (bitor_assign file_text empty_set)
        (λ i. any (λ id. i == id) (tag_file ∷ (tag_text ∷ [])) || false)
    × ((is_disjoint file_text empty_set ≡ true)
        ↔ ((i : ℕ) → any (λ id. i == id) (tag_file ∷ (tag_text ∷ [])) && false ≡ false))
    × ((is_subset file_text empty_set ≡ true)
        ↔ ((i : ℕ) → any (λ id. i == id) (tag_file ∷ (tag_text ∷ [])) && true ≡ false))
    × ((is_empty file_text ≡ true)
        ↔ ((i : ℕ) → any (λ id. i == id) (tag_file ∷ (tag_text ∷ [])) ≡ false))
operations-Represents_example =
    operations-Represents file_text empty_set
      (λ i. any (λ id. i == id) (tag_file ∷ (tag_text ∷ []))) (λ _. false) tag_executable
      file_text-Represents (record { valid = empty_set-IsTagSet; same = empty_set_members })

collect-iter_example :
    collect (suc all_tags_len) (iter file_text) ≡ some (map name_at (ids file_text))
collect-iter_example = collect-iter file_text file_text-Represents.valid

visit_seq-collect_example :
    (tags : List Bytes) × (collect (suc all_tags_len) (iter file_text) ≡ some tags)
    × (visit_seq empty_set tags ≡ read file_text)
visit_seq-collect_example = visit_seq-collect file_text file_text-Represents.valid

visit_seq-first_unknown_example :
    ReadAs
      (λ _. false)
      (codes "text" ∷ (codes "txet" ∷ []))
      (first_unknown (codes "text" ∷ (codes "txet" ∷ [])))
      (visit_seq empty_set (codes "text" ∷ (codes "txet" ∷ [])))
visit_seq-first_unknown_example = visit_seq-first_unknown (codes "text" ∷ (codes "txet" ∷ []))

abbrev python : Bytes
python = codes "/usr/bin/python3.12"

tags_from_interpreter-first_match_example :
    IsBaseName python (base_name python)
    × (tags_from_interpreter python
        ≡ some (first_match (base_name python ∷ fronts (base_name python))))
tags_from_interpreter-first_match_example = tags_from_interpreter-first_match python

abbrev script : File
script = record {
  metadata = some (record { is_dir = false; is_symlink = false; is_socket = false; mode = 493 });
  file_name = some (codes "run");
  reader = some (line (codes "#!/bin/bash\n") ∷ []);
  content = record { opened = true; bytes_read = some (codes "#!/bin/bash\n") };
}

tags_from_path-IdentifiedAs_example :
    IdentifiedAs script.metadata (tags_from_path (λ text. some (text ∷ [])) (λ _. true) script)
tags_from_path-IdentifiedAs_example =
    tags_from_path-IdentifiedAs (λ text. some (text ∷ [])) (λ _. true) script
