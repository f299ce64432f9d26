-- ===== src/Hooks/EndOfFile/Fixed.antt =====
-- crates/prek/src/hooks/pre_commit_hooks/fix_end_of_file.rs: the fixed length of a file.
use mathlib.Core.List.{reverse, reverse-append, head?}
use prek.Prelude.{
  ℕ, suc, ◌+◌, ◌<◌, ◌≡◌, refl, sym, ap, ◌∙◌, Bytes, [], ◌∷◌, ◌++◌, true, false, ◌&&◌, none, some,
  length, take, ◌==◌, if◌then◌else◌, arith, All, append_assoc, take-length, length-reverse,
  append-nil,
}
use prek.Hooks.EndOfFile.{is_newline, is_some_lf, cr, lf, fixed_file_len, fix_file_sync, buffer_len}
use prek.Hooks.EndOfFile.Blocks.{whole, scan_blocks-whole}

-- The first line ending of the line endings that end a file; a file without one gets an LF.
abbrev pub first_ending : Bytes → Bytes
first_ending [] = lf ∷ []
first_ending (b ∷ rest) = if b == cr && is_some_lf (head? rest) then cr ∷ lf ∷ [] else b ∷ []

abbrev pub IsNewline : ℕ → Type 0
IsNewline b = is_newline b ≡ true

abbrev ending_len : Bytes → ℕ
ending_len [] = 0
ending_len (b ∷ rest) = length (first_ending (b ∷ rest))

whole-tail :
    (tail before : Bytes)
    → All IsNewline tail
    → whole (reverse tail ++ before) 0 none ≡ whole before (ending_len tail) (head? tail)
whole-tail [] before h = refl
whole-tail (b ∷ tail) before (hb, h) =
    ap (λ l. whole (l ++ before) 0 none) (reverse-append (b ∷ []) tail)
    ∙ ap (λ l. whole l 0 none) (append_assoc (reverse tail) (b ∷ []) before)
    ∙ whole-tail tail (b ∷ before) h
    ∙ (unfold whole in ground arith)

fixed_file_len-whole : (file : Bytes) → fixed_file_len file ≡ some (whole (reverse file) 0 none)
unfolding fixed_file_len
fixed_file_len-whole file =
    scan_blocks-whole (suc (length file)) buffer_len file (length file) 0 none (omega arith)
      (omega arith) (omega arith)
    ∙ ap (λ l. some (whole (reverse l) 0 none)) (take-length (length file) file (omega arith))

-- A file of line endings only is cut to nothing.
pub fixed_file_len-newlines : (tail : Bytes) → All IsNewline tail → fixed_file_len tail ≡ some 0
fixed_file_len-newlines tail h =
    fixed_file_len-whole tail
    ∙ ap (λ l. some (whole l 0 none)) (sym (append-nil (reverse tail)))
    ∙ ap some (whole-tail tail [] h)
    ∙ (unfold whole in refl)

-- The fixed length of a file whose last byte that is no line ending is at some index counts
-- the bytes up to it and the first line ending behind it, or one byte if there is none.
pub fixed_file_len-body :
    (body : Bytes) (x : ℕ) (tail : Bytes)
    → is_newline x ≡ false
    → All IsNewline tail
    → fixed_file_len (body ++ x ∷ tail) ≡ some (length body + 1 + length (first_ending tail))
fixed_file_len-body body x tail hx h =
    fixed_file_len-whole (body ++ x ∷ tail)
    ∙ ap (λ l. some (whole l 0 none)) reversed
    ∙ ap some (whole-tail tail (x ∷ reverse body) h)
    ∙ ap some (last_byte tail)
  where
    reversed : reverse (body ++ x ∷ tail) ≡ reverse tail ++ x ∷ reverse body
    reversed =
        reverse-append body (x ∷ tail)
        ∙ ap (λ l. l ++ reverse body) (reverse-append (x ∷ []) tail)
        ∙ append_assoc (reverse tail) (x ∷ []) (reverse body)

    last_byte :
        (t : Bytes)
        → whole (x ∷ reverse body) (ending_len t) (head? t)
          ≡ length body + 1 + length (first_ending t)
    last_byte [] = unfold whole in ground (arith, length-reverse body)
    last_byte (b ∷ t) = unfold whole in ground (arith, length-reverse body)

pub sync-append :
    (file : Bytes) (n : ℕ)
    → fixed_file_len file ≡ some n
    → 0 < length file
    → n ≡ length file + 1
    → fix_file_sync false file ≡ some (true, file ++ lf ∷ [])
unfolding fix_file_sync
sync-append file n h pos e = ground arith

pub sync-cut :
    (file : Bytes) (n : ℕ)
    → fixed_file_len file ≡ some n
    → 0 < length file
    → n < length file
    → fix_file_sync false file ≡ some (true, take n file)
unfolding fix_file_sync
sync-cut file n h pos e = ground arith

pub sync-same :
    (file : Bytes) (n : ℕ)
    → fixed_file_len file ≡ some n
    → n ≡ length file
    → fix_file_sync false file ≡ some (false, file)
unfolding fix_file_sync
sync-same file n h e = ground arith
