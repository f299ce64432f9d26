-- ===== src/Hooks/Bytes/CopyWithin.antt =====
-- `copy_within` towards the front of a slice.
use prek.Prelude.{
  ℕ, ◌+◌, ◌-◌, ◌≤◌, ◌≡◌, sym, Bytes, ◌++◌, length, take, drop, arith, length-append, length-take,
  length-drop, take-append, drop-append_add, append_assoc, subst,
}
use prek.Hooks.Bytes.{copy_within}

module _ (start end dest : ℕ) (content : Bytes) (ordered : start ≤ end)
    (inside : end ≤ length content) (front : dest ≤ start) where
  abbrev moved : Bytes
  moved = take dest content ++ take (end - start) (drop start content)

  length-moved : length moved ≡ dest + (end - start)
  length-moved = omega (
    arith,
    length-append (take dest content) (take (end - start) (drop start content)),
    length-take dest content,
    length-take (end - start) (drop start content),
    length-drop start content,
  )

  copy_within-moved :
      copy_within start end dest content ≡ moved ++ drop (dest + (end - start)) content
  unfolding copy_within
  copy_within-moved = sym (append_assoc (take dest content) _ _)

  pub copy_within-take : take (dest + (end - start)) (copy_within start end dest content) ≡ moved
  copy_within-take = rw copy_within-moved (
      subst (λ k. take k (moved ++ drop (dest + (end - start)) content) ≡ moved) length-moved
        (take-append moved _))

  pub copy_within-drop :
      (j : ℕ)
      → drop (dest + (end - start) + j) (copy_within start end dest content)
        ≡ drop j (drop (dest + (end - start)) content)
  copy_within-drop j = rw copy_within-moved (
      subst
        (λ k.
          drop (k + j) (moved ++ drop (dest + (end - start)) content)
          ≡ drop j (drop (dest + (end - start)) content))
        length-moved (drop-append_add moved _ j))

  pub length-copy_within : length (copy_within start end dest content) ≡ length content
  length-copy_within = rw copy_within-moved (
      omega (
        arith,
        length-append moved (drop (dest + (end - start)) content),
        length-moved,
        length-drop (dest + (end - start)) content,
      ))
