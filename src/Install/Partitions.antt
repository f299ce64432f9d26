-- ===== src/Install/Partitions.antt =====
-- The partitions of the hooks that are to be installed.
use mathlib.Core.List.{flatten, Perm, perm_middle}
use mathlib.Core.List.Perm
use prek.Prelude.{
  ◌≡◌, sym, subst, inl, inr, true, false, List, [], ◌∷◌, ◌++◌, append_assoc, append-nil, arith,
  Bool-cases, All, All-append, All-append_inv,
}
use prek.Install.Agree.{
  SharesPartition, same_install_partition_sound, same_install_partition_complete,
}
use prek.Install.{Hook, belongs, add_hook, add_hooks, partition_hooks}

-- A partition is not empty, and its hooks share it with the first of them.
abbrev IsPartition : List Hook → Type 0
IsPartition [] = ⊥
IsPartition (first ∷ hooks) = All (SharesPartition first) hooks

abbrev SharesFirst : List Hook → Hook → Type 0
SharesFirst [] h = ⊥
SharesFirst (first ∷ hooks) h = SharesPartition first h

-- No hook of a later partition shares an earlier one.
abbrev pub ArePartitions : List (List Hook) → Type 0
ArePartitions [] = Unit
ArePartitions (p ∷ partitions) =
    IsPartition p × All (λ h. ¬ SharesFirst p h) (flatten partitions) × ArePartitions partitions

add_hook-Perm :
    (hook : Hook) (partitions : List (List Hook))
    → Perm (flatten (add_hook hook partitions)) (hook ∷ flatten partitions)
unfolding add_hook flatten
add_hook-Perm hook [] = Perm.rfl
add_hook-Perm hook (p ∷ partitions) = elim (Bool-cases (belongs p hook)) [
  | inl here ↦ rw here (
      subst (λ l. Perm l (hook ∷ (p ++ flatten partitions)))
        (sym (append_assoc p (hook ∷ []) (flatten partitions)))
        (perm_middle p (flatten partitions)))
  | inr later ↦ rw later (
      Perm.trans (Perm.append_left p (add_hook-Perm hook partitions))
        (perm_middle p (flatten partitions)))
]

add_hooks-Perm :
    (hooks : List Hook) (partitions : List (List Hook))
    → Perm (flatten (add_hooks hooks partitions)) (hooks ++ flatten partitions)
unfolding add_hooks
add_hooks-Perm [] partitions = Perm.rfl
add_hooks-Perm (hook ∷ hooks) partitions =
    Perm.trans (add_hooks-Perm hooks (add_hook hook partitions)) (
      Perm.trans (Perm.append_left hooks (add_hook-Perm hook partitions))
        (perm_middle hooks (flatten partitions)))

module _ (P : Hook → Type 0) where
  add_hook-All :
      (hook : Hook) (partitions : List (List Hook))
      → P hook
      → All P (flatten partitions)
      → All P (flatten (add_hook hook partitions))
  unfolding add_hook flatten
  add_hook-All hook [] h hs = (h, tt)
  add_hook-All hook (p ∷ partitions) h hs =
      let (here, rest) = All-append_inv P p (flatten partitions) hs in
      elim (Bool-cases (belongs p hook)) [
        | inl found ↦ rw found (
            All-append P (p ++ (hook ∷ [])) (flatten partitions)
              (All-append P p (hook ∷ []) here (h, tt)) rest)
        | inr missing ↦ rw missing (
            All-append P p (flatten (add_hook hook partitions)) here
              (add_hook-All hook partitions h rest))
      ]

  add_hooks-All :
      (hooks : List Hook) (partitions : List (List Hook))
      → All P hooks
      → All P (flatten partitions)
      → All P (flatten (add_hooks hooks partitions))
  unfolding add_hooks
  add_hooks-All [] partitions hs ps = ps
  add_hooks-All (hook ∷ hooks) partitions (h, hs) ps =
      add_hooks-All hooks (add_hook hook partitions) hs (add_hook-All hook partitions h ps)

  pub partition_hooks-All :
      (hooks : List Hook) → All P hooks → All P (flatten (partition_hooks hooks))
  unfolding flatten
  partition_hooks-All hooks hs = add_hooks-All hooks [] hs tt

extended :
    (p : List Hook) (hook : Hook) (others : List Hook)
    → belongs p hook ≡ true
    → IsPartition p
    → All (λ h. ¬ SharesFirst p h) others
    → IsPartition (p ++ (hook ∷ [])) × All (λ h. ¬ SharesFirst (p ++ (hook ∷ [])) h) others
extended [] hook others e h apart = absurd h
extended (first ∷ p) hook others e h apart = (
  All-append (SharesPartition first) p (hook ∷ []) h
      (same_install_partition_sound first hook e, tt),
  apart,
)

not_shared : (p : List Hook) (hook : Hook) → belongs p hook ≡ false → ¬ SharesFirst p hook
not_shared [] hook e = λ s. s
not_shared (first ∷ p) hook e =
    λ s. absurd (ground (arith, same_install_partition_complete first hook s))

add_hook-ArePartitions :
    (hook : Hook) (partitions : List (List Hook))
    → ArePartitions partitions
    → ArePartitions (add_hook hook partitions)
unfolding add_hook flatten
add_hook-ArePartitions hook [] h = (tt, tt, tt)
add_hook-ArePartitions hook (p ∷ partitions) (is, apart, are) = elim (Bool-cases (belongs p hook)) [
  | inl here ↦
      let (more, still) = extended p hook (flatten partitions) here is apart in
      rw here (more, still, are)
  | inr later ↦ rw later (
    is,
    add_hook-All (λ h. ¬ SharesFirst p h) hook partitions (not_shared p hook later) apart,
    add_hook-ArePartitions hook partitions are,
  )
]

add_hooks-ArePartitions :
    (hooks : List Hook) (partitions : List (List Hook))
    → ArePartitions partitions
    → ArePartitions (add_hooks hooks partitions)
unfolding add_hooks
add_hooks-ArePartitions [] partitions h = h
add_hooks-ArePartitions (hook ∷ hooks) partitions h =
    add_hooks-ArePartitions hooks (add_hook hook partitions)
      (add_hook-ArePartitions hook partitions h)

-- The partitions hold every hook once; no partition is empty, and each hook of a partition has
-- the language of the first, or both use Python or pygrep, the same remote repository at the
-- same revision, or both are of none, and the same dependencies; no hook of a later partition
-- agrees so with the first of an earlier one.
pub partition_hooks-ArePartitions :
    (hooks : List Hook)
    → ArePartitions (partition_hooks hooks) × Perm (flatten (partition_hooks hooks)) hooks
unfolding flatten
partition_hooks-ArePartitions hooks = (
  add_hooks-ArePartitions hooks [] tt,
  subst (λ l. Perm (flatten (partition_hooks hooks)) l) (append-nil hooks)
      (add_hooks-Perm hooks []),
)
