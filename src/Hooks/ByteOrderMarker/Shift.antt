-- ===== src/Hooks/ByteOrderMarker/Shift.antt =====
-- crates/prek/src/hooks/pre_commit_hooks/fix_byte_order_marker.rs: the shift of the file in place, and the runs.
use prek.Prelude.{
  ℕ, zero, suc, ◌+◌, ◌-◌, ◌≤◌, ◌<◌, ◌≡◌, refl, sym, ap, ap₂, ◌∙◌, min, Bytes, [], ◌++◌, Bool, true,
  false, not, ◌&&◌, some, length, take, drop, ltb, if◌then◌else◌, eq_bytes, eq_bytes_iff, arith,
  length-take, length-drop, take-append, drop-append_add, drop-drop, take-split, take-length,
  Bool-cases, inl, inr, ltb→lt, ltb→le, append_assoc, ◌⊎◌, codes,
}
use prek.Hooks.Output.{FileRun, known, unchanged, modified, not_changed}
use prek.Hooks.ByteOrderMarker.{
  utf8_bom, buffer_len, overwrite, shift_blocks, fix_file_sync, action, fix_file,
}

module _ (original : Bytes) (long : 3 ≤ length original) where
  abbrev payload : Bytes
  payload = drop 3 original

  -- The file when the first `k` bytes of the payload are in place.
  abbrev moved : ℕ → Bytes
  moved k = take k payload ++ drop k original

  length-front : (k : ℕ) → k + 3 ≤ length original → length (take k payload) ≡ k
  length-front k h = omega (arith, length-take k payload, length-drop 3 original)

  drop-moved : (k n : ℕ) → k + 3 ≤ length original → drop (k + n) (moved k) ≡ drop (k + n) original
  drop-moved k n h =
      ap (λ l. drop (l + n) (moved k)) (sym (length-front k h))
      ∙ drop-append_add (take k payload) (drop k original) n
      ∙ drop-drop k n original

  take-moved : (k : ℕ) → k + 3 ≤ length original → take k (moved k) ≡ take k payload
  take-moved k h =
      ap (λ l. take l (moved k)) (sym (length-front k h))
      ∙ take-append (take k payload) (drop k original)

  chunk-moved :
      (k n : ℕ)
      → k + 3 ≤ length original
      → take n (drop (k + 3) (moved k)) ≡ take n (drop k payload)
  chunk-moved k n h =
      let e : k + 3 ≡ 3 + k = omega arith in
      ap (take n) (drop-moved k 3 h ∙ ap (λ m. drop m original) e ∙ sym (drop-drop 3 k original))

  overwrite-moved :
      (k n : ℕ)
      → k + 3 + n ≤ length original
      → overwrite k (take n (drop (k + 3) (moved k))) (moved k) ≡ moved (k + n)
  unfolding overwrite
  overwrite-moved k n h =
      let in_file : k + 3 ≤ length original = omega arith in
      let chunk = take n (drop (k + 3) (moved k)) in
      let same = chunk-moved k n in_file in
      let long_chunk : length chunk ≡ n = omega (
        arith,
        ap length same,
        length-take n (drop k payload),
        length-drop k payload,
        length-drop 3 original,
      ) in
      ap₂ (λ a b. a ++ b) (take-moved k in_file)
        (ap₂ (λ a b. a ++ b) same
          (ap (λ l. drop (k + l) (moved k)) long_chunk ∙ drop-moved k n in_file))
      ∙ sym (append_assoc (take k payload) (take n (drop k payload)) (drop (k + n) original))
      ∙ ap (λ l. l ++ drop (k + n) original) (sym (take-split k n payload))

shift_blocks-step :
    (fuel block_len len read_pos : ℕ) (file : Bytes)
    → ltb read_pos len ≡ true
    → shift_blocks (suc fuel) block_len len read_pos file
      ≡ shift_blocks fuel block_len len (read_pos + min (len - read_pos) block_len) (
          overwrite
            (read_pos - 3)
            (take (min (len - read_pos) block_len) (drop read_pos file))
            file)
unfolding shift_blocks
shift_blocks-step fuel block_len len read_pos file h = ground arith

shift_blocks-end :
    (fuel block_len len read_pos : ℕ) (file : Bytes)
    → ltb read_pos len ≡ false
    → shift_blocks (suc fuel) block_len len read_pos file ≡ some file
unfolding shift_blocks
shift_blocks-end fuel block_len len read_pos file h = ground arith

module _ (original : Bytes) (long : 3 ≤ length original) where
  shift_blocks-moved :
      (fuel block_len k : ℕ)
      → 0 < block_len
      → k + 3 ≤ length original
      → length original - (k + 3) < fuel
      → shift_blocks fuel block_len (length original) (k + 3) (moved original long k)
        ≡ some (moved original long (length original - 3))
  shift_blocks-moved zero block_len k pos h enough = absurd (omega arith)
  shift_blocks-moved (suc fuel) block_len k pos h enough =
      let n = min (length original - (k + 3)) block_len in
      elim (Bool-cases (ltb (k + 3) (length original))) [
        | inl more ↦
            let lt = ltb→lt _ _ more in
            let back : k + 3 - 3 ≡ k = omega arith in
            let on : k + 3 + n ≡ k + n + 3 = omega arith in
            let written =
              ap
                (λ p.
                  overwrite p (take n (drop (k + 3) (moved original long k)))
                    (moved original long k))
                back
              ∙ overwrite-moved original long k n (omega arith) in
            shift_blocks-step fuel block_len (length original) (k + 3) (moved original long k) more
            ∙ ap₂ (λ p f. shift_blocks fuel block_len (length original) p f) on written
            ∙ shift_blocks-moved fuel block_len (k + n) pos (omega arith) (omega arith)
        | inr none_left ↦
            let le = ltb→le _ _ none_left in
            let end : k ≡ length original - 3 = omega arith in
            shift_blocks-end fuel block_len (length original) (k + 3) (moved original long k)
              none_left
            ∙ ap (λ j. some (moved original long j)) end
      ]

  shift_blocks-all :
      shift_blocks (suc (length original)) buffer_len (length original) 3 original
      ≡ some (moved original long (length original - 3))
  shift_blocks-all =
      shift_blocks-moved (suc (length original)) buffer_len 0 (omega arith) (omega arith)
        (omega arith)

  cut-moved :
      take (length original - 3) (moved original long (length original - 3)) ≡ drop 3 original
  cut-moved =
      take-moved original long (length original - 3) (omega arith)
      ∙ take-length (length original - 3) (drop 3 original) (omega (arith, length-drop 3 original))

-- The file begins with a marker.
abbrev pub has_bom : Bytes → Bool
has_bom file = eq_bytes (take 3 file) utf8_bom

has_bom-long : (file : Bytes) → has_bom file ≡ true → 3 ≤ length file
has_bom-long file h =
    omega (arith, ap length ((eq_bytes_iff (take 3 file) utf8_bom).0 h), length-take 3 file)

sync-shifted :
    (file b : Bytes)
    → has_bom file ≡ true
    → 3 ≤ length file
    → shift_blocks (suc (length file)) buffer_len (length file) 3 file ≡ some b
    → fix_file_sync false file ≡ some (true, take (length file - 3) b)
unfolding fix_file_sync
sync-shifted file b h long e = ground arith

sync-checked :
    (file : Bytes)
    → has_bom file ≡ true
    → 3 ≤ length file
    → fix_file_sync true file ≡ some (true, file)
unfolding fix_file_sync
sync-checked file h long = ground arith

sync-unmarked :
    (check : Bool) (file : Bytes)
    → has_bom file ≡ false
    → fix_file_sync check file ≡ some (false, file)
unfolding fix_file_sync
sync-unmarked check file h = ground arith

-- What the file holds after a run.
abbrev pub without_bom : Bool → Bytes → Bytes
without_bom check file = if has_bom file && not check then drop 3 file else file

sync-without_bom :
    (check : Bool) (file : Bytes)
    → fix_file_sync check file ≡ some (has_bom file, without_bom check file)
sync-without_bom check file = go check (Bool-cases (has_bom file))
  where
    go :
        (c : Bool)
        → (has_bom file ≡ true) ⊎ (has_bom file ≡ false)
        → fix_file_sync c file ≡ some (has_bom file, without_bom c file)
    go false (inl h) =
        let long = has_bom-long file h in
        rw h (
          sync-shifted file _ h long (shift_blocks-all file long)
          ∙ ap (λ f. some (true, f)) (cut-moved file long))
    go true (inl h) = rw h (sync-checked file h (has_bom-long file h))
    go c (inr h) = rw h (sync-unmarked c file h)

abbrev run_of : Bool → Bytes → Bool → Bytes → FileRun
run_of check display_path needs_fix content = record {
  result =
      if needs_fix
      then known 1 (display_path ++ (codes ": " ++ (action check ++ codes " byte-order marker\n")))
          (not check)
      else unchanged 0 [];
  content = content;
}

fix_file-run_of :
    (check : Bool) (display_path file content : Bytes) (needs_fix : Bool)
    → fix_file_sync check file ≡ some (needs_fix, content)
    → fix_file check display_path file ≡ some (run_of check display_path needs_fix content)
unfolding fix_file
fix_file-run_of check display_path file content true h = ground arith
fix_file-run_of check display_path file content false h = ground arith

-- A run of fix-byte-order-marker returns. The status is 1 exactly if the file begins with a
-- UTF-8 marker; then a fixing run leaves what is behind the marker and reports the change, and
-- in every other case the file stays as it is and no change is reported.
pub fix_file-without_bom :
    (check : Bool) (display_path file : Bytes)
    → (r : FileRun) × (fix_file check display_path file ≡ some r)
      × (r.content ≡ without_bom check file)
      × (r.result.exit_status ≡ (if has_bom file then 1 else 0))
      × (r.result.file_changes ≡ (if has_bom file && not check then modified else not_changed))
fix_file-without_bom check display_path file = (
  run_of check display_path (has_bom file) (without_bom check file),
  fix_file-run_of check display_path file (without_bom check file) (has_bom file)
      (sync-without_bom check file),
  refl,
  ground arith,
  ground arith,
)
