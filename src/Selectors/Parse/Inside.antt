-- ===== src/Selectors/Parse/Inside.antt =====
-- crates/prek/src/cli/run/selector.rs, `normalize_path`: where the path of a selector leads.
use prek.Prelude.{
  ◌≡◌, refl, sym, ap, subst, ◌∙◌, ◌↔◌, ◌⊎◌, inl, inr, Bool, true, false, none, some, List, [], ◌∷◌,
  ◌++◌, map, arith, ◌==◌, if◌then◌else◌, Bool-cases, Bytes, codes, eq_bytes, eq_bytes_iff, All,
  All-append,
}
use prek.Filter.{FilePath}
use prek.Paths.{Component, root_dir, parent_dir, normal, strip_base, eq_component, names}
use prek.Paths.Text.{absolute, parts_of, component_of, split, slash}
use prek.Paths.Clean.{IsRelative, clean_path-normal, clean_path-root_dir}
use prek.Selectors.Parse.{stripped, made_relative, real_absolute, normalize_path}

pub names-normal : (ns : FilePath) → names (map normal ns) ≡ ns
names-normal [] = refl
names-normal (n ∷ ns) = ap (λ l. n ∷ l) (names-normal ns)

-- Behind the root of the workspace, and nowhere else, a path is stripped.
stripped_iff :
    (path : Bytes) (ns ws p : FilePath)
    → (stripped path (strip_base (map normal ns) (map normal ws)) ≡ inr p) ↔ (ns ≡ ws ++ p)
unfolding strip_base eq_component
stripped_iff path ns [] p = ground (arith, names-normal ns)
stripped_iff path [] (w ∷ ws) p = ground arith
stripped_iff path (n ∷ ns) (w ∷ ws) p = ground (arith, eq_bytes_iff n w, stripped_iff path ns ws p)

All-if :
    (b : Bool) (xs ys : List Component)
    → All IsRelative xs
    → All IsRelative ys
    → All IsRelative (if b then xs else ys)
All-if true xs ys hx hy = hx
All-if false xs ys hx hy = hy

component_of-IsRelative : (part : Bytes) → All IsRelative (component_of part)
unfolding component_of
component_of-IsRelative part = All-if (eq_bytes part []) [] _ tt (
    All-if (eq_bytes part (codes ".")) [] _ tt
      (All-if (eq_bytes part (codes "..")) (parent_dir ∷ []) (normal part ∷ []) (tt, tt) (tt, tt)))

parts_of-IsRelative : (parts : List Bytes) → All IsRelative (parts_of parts)
unfolding parts_of
parts_of-IsRelative [] = tt
parts_of-IsRelative (part ∷ parts) =
    All-append IsRelative (component_of part) (parts_of parts) (component_of-IsRelative part)
      (parts_of-IsRelative parts)

-- The absolute path, where there is one, is cleaned to names behind the root.
pub real_absolute-cases :
    (cwd : List Component)
    → All IsRelative cwd
    → (path : Bytes)
    → (real_absolute (root_dir ∷ cwd) path ≡ none)
      ⊎ ((ns : FilePath) × (real_absolute (root_dir ∷ cwd) path ≡ some (root_dir ∷ map normal ns)))
unfolding real_absolute
real_absolute-cases cwd h [] = inl (unfold absolute in refl)
real_absolute-cases cwd h (c ∷ text) = elim (Bool-cases (c == slash)) [
  | inl e ↦
      let parts = parts_of (split slash text) in
      let (ns, k) = clean_path-root_dir parts (parts_of-IsRelative (split slash text)) in
      inr (ns, unfold absolute in ground arith)
  | inr e ↦
      let parts = parts_of (split slash (c ∷ text)) in
      let (ns, k) =
        clean_path-root_dir (cwd ++ parts)
          (All-append IsRelative cwd parts h (parts_of-IsRelative (split slash (c ∷ text)))) in
      inr (ns, unfold absolute in ground arith)
]

map-normal_inj : (ns ms : FilePath) → (map normal ns ≡ map normal ms) ↔ (ns ≡ ms)
map-normal_inj ns ms = (λ e. sym (names-normal ns) ∙ ap names e ∙ names-normal ms, ap (map normal))

made_relative_iff :
    (ws : FilePath) (path : Bytes) (p ns : FilePath)
    → (made_relative (root_dir ∷ map normal ws) path (some (root_dir ∷ map normal ns)) ≡ inr p)
      ↔ (some (root_dir ∷ map normal ns) ≡ some (root_dir ∷ map normal (ws ++ p)))
unfolding strip_base eq_component
made_relative_iff ws path p ns =
    ground (arith, clean_path-normal ns, stripped_iff path ns ws p, map-normal_inj ns (ws ++ p))

-- In an absolute working directory, the path of a selector is read as a project's path exactly
-- if the absolute path, made clean, is that project's path behind the root of the workspace,
-- all of names; any path that leads elsewhere is refused.
pub normalize_path_iff :
    (cwd : List Component)
    → All IsRelative cwd
    → (ws : FilePath) (path : Bytes) (p : FilePath)
    → (normalize_path (real_absolute (root_dir ∷ cwd)) path (root_dir ∷ map normal ws) ≡ inr p)
      ↔ (real_absolute (root_dir ∷ cwd) path ≡ some (root_dir ∷ map normal (ws ++ p)))
unfolding normalize_path
normalize_path_iff cwd h ws path p = elim (real_absolute-cases cwd h path) [
  | inl e ↦ ground (arith, e)
  | inr (ns, e) ↦
      subst
        (λ r.
          (made_relative (root_dir ∷ map normal ws) path r ≡ inr p)
          ↔ (r ≡ some (root_dir ∷ map normal (ws ++ p))))
        (sym e) (made_relative_iff ws path p ns)
]
