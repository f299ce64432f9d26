-- ===== src/Hooks/EndOfFile/Fixes.antt =====
-- crates/prek/src/hooks/pre_commit_hooks/fix_end_of_file.rs: runs on each kind of file.
use prek.Prelude.{
  ℕ, suc, ◌+◌, ◌≤◌, ◌≡◌, ◌≢◌, inl, inr, refl, sym, ap, ◌∙◌, subst, Bytes, [], ◌∷◌, ◌++◌, Bool, true,
  false, not, some, length, take, ltb, if◌then◌else◌, arith, All, length-append, append_assoc,
  Bool-cases, take-length, eq_bytes, eq_bytes_iff, ltb→lt, ltb→le, take-append_add,
}
use prek.Hooks.Output
use prek.Hooks.Output.{FileRun, unchanged}
use prek.Hooks.EndOfFile.{is_newline, lf, fix_file_sync, fix_file, action}
use prek.Hooks.EndOfFile.Fixed.{
  first_ending, IsNewline, fixed_file_len-body, fixed_file_len-newlines, sync-append, sync-cut,
  sync-same,
}

-- The first ending is a prefix of the endings.
first_ending-take :
    (b : ℕ) (rest : Bytes)
    → take (length (first_ending (b ∷ rest))) (b ∷ rest) ≡ first_ending (b ∷ rest)
first_ending-take b [] = ground arith
first_ending-take b (c ∷ rest) = ground arith

first_ending-le : (b : ℕ) (rest : Bytes) → length (first_ending (b ∷ rest)) ≤ length (b ∷ rest)
first_ending-le b [] = ground arith
first_ending-le b (c ∷ rest) = ground arith

first_ending_idem : (tail : Bytes) → first_ending (first_ending tail) ≡ first_ending tail
first_ending_idem [] = refl
first_ending_idem (b ∷ []) = ground arith
first_ending_idem (b ∷ c ∷ rest) = ground arith

first_ending-IsNewline : (tail : Bytes) → All IsNewline tail → All IsNewline (first_ending tail)
first_ending-IsNewline [] h = (refl, tt)
first_ending-IsNewline (b ∷ []) h = ground arith
first_ending-IsNewline (b ∷ c ∷ rest) h = ground arith

eq_bytes-ne : (xs ys : Bytes) → xs ≢ ys → eq_bytes xs ys ≡ false
eq_bytes-ne xs ys h = ground (arith, eq_bytes_iff xs ys)

module _ (body : Bytes) (x : ℕ) where
  kept :
      (tail : Bytes)
      → take (length body + 1 + length (first_ending tail)) (body ++ x ∷ tail)
        ≡ body ++ x ∷ take (length (first_ending tail)) tail
  kept tail =
      let n = length (first_ending tail) in
      let e : length body + 1 + n ≡ length body + suc n = omega arith in
      rw e (take-append_add body (x ∷ tail) (suc n))

  -- In a file with a byte that is no line ending, the line endings behind the last such byte
  -- become the first of them, or an LF if there is none; the run reports a change exactly if
  -- that differs.
  pub sync-body :
      (tail : Bytes)
      → is_newline x ≡ false
      → All IsNewline tail
      → fix_file_sync false (body ++ x ∷ tail)
        ≡ some (not (eq_bytes tail (first_ending tail)), body ++ x ∷ first_ending tail)
  unfolding eq_bytes
  sync-body [] hx h =
      sync-append (body ++ x ∷ []) (length body + 1 + 1) (fixed_file_len-body body x [] hx h)
        (omega (arith, length-append body (x ∷ []))) (omega (arith, length-append body (x ∷ [])))
      ∙ ap (λ l. some (true, l)) (append_assoc body (x ∷ []) (lf ∷ []))
  sync-body (b ∷ rest) hx h =
      let tail : Bytes = b ∷ rest in
      let first = first_ending tail in
      let known_len = fixed_file_len-body body x tail hx h in
      let whole_len = length-append body (x ∷ tail) in
      let le = first_ending-le b rest in
      elim (Bool-cases (ltb (length first) (length tail))) [
        | inl shorter ↦
            let lt = ltb→lt _ _ shorter in
            sync-cut (body ++ x ∷ tail) (length body + 1 + length first) known_len (omega arith)
              (omega arith)
            ∙ (ap (λ l. some (true, l))
                (kept tail ∙ ap (λ l. body ++ x ∷ l) (first_ending-take b rest)))
            ∙ ap (λ t. some (not t, body ++ x ∷ first))
                (sym (eq_bytes-ne tail first (λ e. absurd (omega (arith, ap length e)))))
        | inr same ↦
            let ge = ltb→le _ _ same in
            let e : tail ≡ first =
              sym (take-length (length first) tail ge) ∙ first_ending-take b rest in
            sync-same (body ++ x ∷ tail) (length body + 1 + length first) known_len (omega arith)
            ∙ ap (λ l. some (false, body ++ x ∷ l)) e
            ∙ ap (λ t. some (not t, body ++ x ∷ first)) (sym ((eq_bytes_iff tail first).1 e))
      ]

-- A file that is not empty and holds line endings only becomes empty, and the run reports the
-- change.
sync-newlines :
    (b : ℕ) (tail : Bytes)
    → All IsNewline (b ∷ tail)
    → fix_file_sync false (b ∷ tail) ≡ some (true, [])
sync-newlines b tail h =
    sync-cut (b ∷ tail) 0 (fixed_file_len-newlines (b ∷ tail) h) (omega arith) (omega arith)

-- Every file is of one of the kinds.
pub data Kind : Bytes → Type 0 where
  newlines : {file : Bytes} → All IsNewline file → Kind file
  text :
      {file : Bytes} (body : Bytes) (x : ℕ) (tail : Bytes)
      → is_newline x ≡ false
      → All IsNewline tail
      → file ≡ body ++ x ∷ tail
      → Kind file

Kind-cons : (c : ℕ) (file : Bytes) → Kind file → Kind (c ∷ file)
Kind-cons c file (newlines h) = elim (Bool-cases (is_newline c)) [
  | inl yes_newline ↦ newlines (yes_newline, h)
  | inr other ↦ text [] c file other h refl
]
Kind-cons c file (text body x tail hx h e) = text (c ∷ body) x tail hx h (ap (λ l. c ∷ l) e)

pub kind : (file : Bytes) → Kind file
kind [] = newlines tt
kind (c ∷ file) = Kind-cons c file (kind file)

-- What a run leaves needs no fix.
abbrev Settles : Bytes → Type 0
Settles file =
    (needs_fix : Bool) × (content : Bytes) × (fix_file_sync false file ≡ some (needs_fix, content))
    × (fix_file_sync false content ≡ some (false, content))

Settles-Kind : (file : Bytes) → Kind file → Settles file
Settles-Kind [] (newlines h) =
    (false, [], unfold fix_file_sync in refl, unfold fix_file_sync in refl)
Settles-Kind (b ∷ rest) (newlines h) =
    (true, [], sync-newlines b rest h, unfold fix_file_sync in refl)
Settles-Kind file (text body x tail hx h e) =
    let first = first_ending tail in
    (
      not (eq_bytes tail first),
      body ++ x ∷ first,
      ap (fix_file_sync false) e ∙ sync-body body x tail hx h,
      sync-body body x first hx (first_ending-IsNewline tail h)
          ∙ ap (λ (l : Bytes). some (not (eq_bytes first l), body ++ x ∷ l))
              (first_ending_idem tail)
          ∙ ap (λ t. some (not t, body ++ x ∷ first)) ((eq_bytes_iff first first).1 refl),
    )

run-of :
    (check : Bool) (display file content : Bytes)
    → fix_file_sync check file ≡ some (false, content)
    → fix_file check display file ≡ some (record { result = unchanged 0 []; content = content })
unfolding fix_file
run-of check display file content h = ground arith

run-some :
    (check : Bool) (display file content : Bytes) (b : Bool)
    → fix_file_sync check file ≡ some (b, content)
    → (r : FileRun) × (fix_file check display file ≡ some r) × (r.content ≡ content)
unfolding fix_file
run-some check display file content true h = (
  record {
    result = Output.known 1 (action check ++ b' ' ∷ (display ++ lf ∷ [])) (not check);
    content = content;
  },
  ground arith,
  refl,
)
run-some check display file content false h =
    (record { result = unchanged 0 []; content = content }, ground arith, refl)

-- A fixing run of end-of-file-fixer returns, and a second run over what it wrote returns
-- status 0 with no output, reports no change and writes nothing new.
pub fix_file_idem :
    (display file : Bytes)
    → (r : FileRun) × (fix_file false display file ≡ some r)
      × (fix_file false display r.content
          ≡ some (record { result = unchanged 0 []; content = r.content }))
fix_file_idem display file =
    let (b, content, first, again) = Settles-Kind file (kind file) in
    let (r, ran, wrote) = run-some false display file content b first in
    (
      r,
      ran,
      subst (λ c. fix_file false display c ≡ some (record { result = unchanged 0 []; content = c }))
          (sym wrote) (run-of false display content content again),
    )

sync-check :
    (file content : Bytes) (b : Bool)
    → fix_file_sync false file ≡ some (b, content)
    → fix_file_sync true file ≡ some (b, file)
unfolding fix_file_sync
sync-check file content b h = ground arith

status :
    (check : Bool) (display file content : Bytes) (r : FileRun) (b : Bool)
    → fix_file_sync check file ≡ some (b, content)
    → fix_file check display file ≡ some r
    → r.result.exit_status ≡ (if b then 1 else 0)
unfolding fix_file
status check display file content r b h k = ground arith

-- A run of end-of-file-fixer with --check leaves the file as it is, and returns the status
-- that a fixing run returns.
pub fix_file_check :
    (display file : Bytes)
    → (r : FileRun) × (fixed : FileRun) × (fix_file true display file ≡ some r)
      × (fix_file false display file ≡ some fixed)
      × (r.content ≡ file)
      × (r.result.exit_status ≡ fixed.result.exit_status)
fix_file_check display file =
    let (b, content, fixes, _) = Settles-Kind file (kind file) in
    let (r, ran, same) = run-some true display file file b (sync-check file content b fixes) in
    let (fixed, ran', _) = run-some false display file content b fixes in
    (
      r,
      fixed,
      ran,
      ran',
      same,
      status true display file file r b (sync-check file content b fixes) ran
          ∙ sym (status false display file content fixed b fixes ran'),
    )
