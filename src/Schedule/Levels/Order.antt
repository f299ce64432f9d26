-- ===== src/Schedule/Levels/Order.antt =====
-- The levels of projects.
use mathlib.Core.List.{flatten}
use prek.Prelude.{
  ℕ, zero, suc, ◌≤◌, ◌<◌, ◌≡◌, refl, sym, ap, subst, ◌∙◌, ◌≢◌, inl, inr, some, List, [], ◌∷◌, ◌++◌,
  arith, ◌==◌, Bool-cases, length, take, drop, take-append-drop, length-take, length-drop, All,
}
use prek.Schedule.Levels.{LevelProject, same_depth, next_level, project_levels}

abbrev HasDepth : ℕ → LevelProject → Type 0
HasDepth depth p = p.depth ≡ depth

-- No project, or a first one of another depth.
abbrev pub BeginsApart : ℕ → List LevelProject → Type 0
BeginsApart depth [] = Unit
BeginsApart depth (p ∷ projects) = p.depth ≢ depth

-- Levels that are not empty, each of one depth, and as long as that goes.
abbrev pub AreLevels : List (List LevelProject) → Type 0
AreLevels [] = Unit
AreLevels (level ∷ levels) =
    (depth : ℕ) × (0 < length level)
    × All (HasDepth depth) level
    × BeginsApart depth (flatten levels)
    × AreLevels levels

same_depth-All :
    (depth : ℕ) (projects : List LevelProject)
    → All (HasDepth depth) (take (same_depth depth projects) projects)
unfolding same_depth
same_depth-All depth [] = tt
same_depth-All depth (p ∷ projects) = ground (arith, same_depth-All depth projects)

same_depth-BeginsApart :
    (depth : ℕ) (projects : List LevelProject)
    → BeginsApart depth (drop (same_depth depth projects) projects)
unfolding same_depth
same_depth-BeginsApart depth [] = tt
same_depth-BeginsApart depth (p ∷ projects) = elim (Bool-cases (p.depth == depth)) [
  | inl same ↦ rw same (same_depth-BeginsApart depth projects)
  | inr other ↦ rw other (λ e. ground arith)
]

same_depth_pos :
    (p : LevelProject) (projects : List LevelProject) → 0 < same_depth p.depth (p ∷ projects)
unfolding same_depth
same_depth_pos p projects = ground arith

same_depth_le :
    (depth : ℕ) (projects : List LevelProject) → same_depth depth projects ≤ length projects
unfolding same_depth
same_depth_le depth [] = omega arith
same_depth_le depth (p ∷ projects) = ground (arith, same_depth_le depth projects)

levels_nil : (n : ℕ) → project_levels (suc n) [] ≡ some []
unfolding project_levels next_level
levels_nil n = refl

levels_cons :
    (n : ℕ) (p : LevelProject) (projects : List LevelProject) {levels : List (List LevelProject)}
    → let k = same_depth p.depth (p ∷ projects) in
      project_levels n (drop k (p ∷ projects)) ≡ some levels
      → project_levels (suc n) (p ∷ projects) ≡ some (take k (p ∷ projects) ∷ levels)
unfolding project_levels next_level
levels_cons n p projects e = rw e refl

pub project_levels-AreLevels :
    (n : ℕ) (projects : List LevelProject)
    → length projects < n
    → (levels : List (List LevelProject)) × (project_levels n projects ≡ some levels)
      × (flatten levels ≡ projects)
      × AreLevels levels
unfolding flatten
project_levels-AreLevels zero projects h = absurd (omega arith)
project_levels-AreLevels (suc n) [] h = ([], levels_nil n, refl, tt)
project_levels-AreLevels (suc n) (p ∷ projects) h =
    let k = same_depth p.depth (p ∷ projects) in
    let level = take k (p ∷ projects) in
    let pos = same_depth_pos p projects in
    let fits = same_depth_le p.depth (p ∷ projects) in
    let (levels, run, flat, are) =
      project_levels-AreLevels n (drop k (p ∷ projects))
        (omega (arith, length-drop k (p ∷ projects))) in
    (
      level ∷ levels,
      levels_cons n p projects run,
      ap (λ rest. level ++ rest) flat ∙ take-append-drop k (p ∷ projects),
      (
        p.depth,
        omega (arith, length-take k (p ∷ projects)),
        same_depth-All p.depth (p ∷ projects),
        subst (BeginsApart p.depth) (sym flat) (same_depth-BeginsApart p.depth (p ∷ projects)),
        are,
      ),
    )
