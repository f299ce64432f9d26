-- ===== src/Paths/Tests.antt =====
-- crates/prek/src/fs.rs, `clean_path`, at concrete values.
use prek.Prelude.{◌≡◌, refl, List, [], ◌∷◌, codes}
use prek.Paths.{Component, cur_dir, parent_dir, normal, clean_path}

abbrev messy : List Component
messy = parent_dir ∷ normal (codes "a") ∷ cur_dir ∷ parent_dir ∷ normal (codes "b") ∷ []

messy_lem : clean_path messy ≡ parent_dir ∷ normal (codes "b") ∷ []
unfolding clean_path
messy_lem = refl
