-- ===== src/Hooks/EndOfFile/Blocks.antt =====
-- crates/prek/src/hooks/pre_commit_hooks/fix_end_of_file.rs: the scan by blocks against one scan
-- of the reversed file.
use mathlib.Core.List.{reverse, reverse-append}
use prek.Prelude.{
  ℕ, zero, suc, ◌+◌, ◌-◌, ◌≤◌, ◌<◌, ◌≡◌, refl, sym, ap, ◌∙◌, subst, Bytes, [], ◌∷◌, ◌++◌, ◌&&◌, max,
  min, Option, some, length, take, drop, ◌==◌, if◌then◌else◌, arith, length-append, length-take,
  take-split, length-reverse,
}
use prek.Hooks.EndOfFile.{
  is_newline, is_some_lf, cr, Scan, return, continue, scan_block, scan_blocks,
}

-- The fixed length, by one scan over all the bytes in reverse.
unfoldable pub whole : Bytes → ℕ → Option ℕ → ℕ
whole [] ending_len next_byte = 0
whole (byte ∷ before) ending_len next_byte =
    let rest = whole before (if byte == cr && is_some_lf next_byte then 2 else 1) (some byte) in
    if is_newline byte then rest else length before + 1 + max ending_len 1

abbrev resume : Scan → Bytes → ℕ
resume (return len) before = len
resume (continue e n) before = whole before e n

whole-append :
    (xs ys : Bytes) (e : ℕ) (n : Option ℕ)
    → resume (scan_block xs (length ys) e n) ys ≡ whole (xs ++ ys) e n
unfolding whole scan_block
whole-append [] ys e n = refl
whole-append (x ∷ xs) ys e n = ground (
  arith,
  whole-append xs ys (if x == cr && is_some_lf n then 2 else 1) (some x),
  length-append xs ys,
)

-- The rest of the loop after a block.
abbrev after : ℕ → ℕ → Bytes → ℕ → Scan → Option ℕ
after fuel block_len file start (return len) = some len
after fuel block_len file start (continue e n) = scan_blocks fuel block_len file start e n

abbrev block_at : ℕ → ℕ → Bytes → Bytes
block_at offset size file = take size (drop (offset - size) file)

scan_blocks-after :
    (fuel block_len : ℕ) (file : Bytes) (offset e : ℕ) (n : Option ℕ)
    → 0 < offset
    → scan_blocks (suc fuel) block_len file offset e n
      ≡ after fuel block_len file (offset - min offset block_len) (
          scan_block
            (reverse (block_at offset (min offset block_len) file))
            (offset - min offset block_len)
            e
            n)
unfolding scan_blocks
scan_blocks-after fuel block_len file offset e n h = ground arith

whole-block :
    (offset size : ℕ) (file : Bytes) (e : ℕ) (n : Option ℕ)
    → size ≤ offset
    → offset ≤ length file
    → whole (reverse (take offset file)) e n
      ≡ resume
          (scan_block (reverse (block_at offset size file)) (offset - size) e n)
          (reverse (take (offset - size) file))
whole-block offset size file e n within inside =
    let start = offset - size in
    let block = block_at offset size file in
    let before = reverse (take start file) in
    let e' : offset ≡ start + size = omega arith in
    let parts : reverse (take offset file) ≡ reverse block ++ before =
      ap (λ k. reverse (take k file)) e'
      ∙ ap reverse (take-split start size file)
      ∙ reverse-append (take start file) block in
    let long : length before ≡ start =
      omega (arith, length-reverse (take start file), length-take start file) in
    rw parts (
      sym (
        subst
          (λ k.
            resume (scan_block (reverse block) k e n) before ≡ whole (reverse block ++ before) e n)
          long (whole-append (reverse block) before e n)))

after-resume :
    (fuel block_len : ℕ) (file : Bytes) (start : ℕ)
    → ((e : ℕ) (n : Option ℕ)
        → scan_blocks fuel block_len file start e n ≡ some (whole (reverse (take start file)) e n))
    → (s : Scan) → after fuel block_len file start s ≡ some (resume s (reverse (take start file)))
after-resume fuel block_len file start ih (return len) = refl
after-resume fuel block_len file start ih (continue e n) = ih e n

pub scan_blocks-whole :
    (fuel block_len : ℕ) (file : Bytes) (offset e : ℕ) (n : Option ℕ)
    → 0 < block_len
    → offset < fuel
    → offset ≤ length file
    → scan_blocks fuel block_len file offset e n ≡ some (whole (reverse (take offset file)) e n)
scan_blocks-whole zero block_len file offset e n pos enough within = absurd (omega arith)
scan_blocks-whole (suc fuel) block_len file zero e n pos enough within =
    unfold scan_blocks whole in refl
scan_blocks-whole (suc fuel) block_len file (suc offset) e n pos enough within =
    let size = min (suc offset) block_len in
    rw
      (
        scan_blocks-after fuel block_len file (suc offset) e n (omega arith),
        whole-block (suc offset) size file e n (omega arith) within,
      )
      (after-resume fuel block_len file (suc offset - size)
        (λ e' n'.
          scan_blocks-whole fuel block_len file (suc offset - size) e' n' pos (omega arith)
            (omega arith))
        (scan_block (reverse (block_at (suc offset) size file)) (suc offset - size) e n))
