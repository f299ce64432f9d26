-- ===== src/Hooks/MergeConflict/ExitStatus.antt =====
-- crates/prek/src/hooks/pre_commit_hooks/check_merge_conflict.rs: which files fail.
use prek.Prelude.{
  ℕ, ◌≡◌, refl, sym, ap, ◌∙◌, ◌⊎◌, inl, inr, Bool, true, false, ◌&&◌, ◌||◌, List, [], ◌∷◌, arith,
  ◌==◌, if◌then◌else◌, Bool-cases, Bytes, codes, length, any, All,
}
use prek.Hooks.Bytes.{lf}
use prek.Hooks.MergeConflict.{
  State, Finders, start, check_line, starts_with, occurs, check_file, report_conflict,
  start_pattern, ancestor_pattern, end_pattern, separator_patterns,
}
use prek.Hooks.MergeConflict.Lines.{arrive, leave, walk}
use prek.Hooks.MergeConflict.Window.{begins_marker}
use prek.Hooks.MergeConflict.Stream.{contents, IsRead, reference, check_file-reference}

-- A start or an end marker stands behind a newline.
abbrev pub marker_behind : Bytes → Bool
marker_behind text = occurs (codes "\n<<<<<<< ") text || occurs (codes "\n>>>>>>> ") text

-- A conflict that is open was reported.
abbrev Reported : State → Type 0
Reported s = (s.in_conflict ≡ false) ⊎ (s.code ≡ 1)

-- The choice between the four reports and none.
abbrev chosen : Bool → Bool → Bool → Bool → Bool → State → State → State → State → State → State
chosen p c q x y s1 s2 s3 s4 s =
    if p then s1 else if c && q then s2 else if c && x then s3 else if y then s4 else s

module _ (s1 s2 s3 s4 s : State) (h1 : s1.code ≡ 1) (h2 : s2.code ≡ 1) (h3 : s3.code ≡ 1)
    (h4 : s4.code ≡ 1) where
  chosen-Reported :
      (p c q x y : Bool)
      → s.in_conflict ≡ c
      → Reported s
      → Reported (chosen p c q x y s1 s2 s3 s4 s)
        × ((chosen p c q x y s1 s2 s3 s4 s).code ≡ (if p || y then 1 else s.code))
  chosen-Reported true c q x y e r = (inr h1, h1)
  chosen-Reported false true true x true e r = (inr h2, h2)
  chosen-Reported false true true x false e (inl n) = absurd (ground arith)
  chosen-Reported false true true x false e (inr n) = (inr h2, h2 ∙ sym n)
  chosen-Reported false true false true true e r = (inr h3, h3)
  chosen-Reported false true false true false e (inl n) = absurd (ground arith)
  chosen-Reported false true false true false e (inr n) = (inr h3, h3 ∙ sym n)
  chosen-Reported false true false false true e r = (inr h4, h4)
  chosen-Reported false true false false false e r = (r, refl)
  chosen-Reported false false q x true e r = (inr h4, h4)
  chosen-Reported false false q x false e r = (r, refl)

spread : (u p q x y : Bool) → ((u && p || x) || (u && q || y)) ≡ ((u && (p || q)) || (x || y))
spread u p q x y = ground arith

marker_behind-cons :
    (b : ℕ) (rest : Bytes)
    → marker_behind (b ∷ rest) ≡ ((b == lf && begins_marker rest) || marker_behind rest)
unfolding occurs starts_with
marker_behind-cons b rest =
    spread (b == lf) (starts_with (codes "<<<<<<< ") rest) (starts_with (codes ">>>>>>> ") rest)
      (occurs (codes "\n<<<<<<< ") rest) (occurs (codes "\n>>>>>>> ") rest)

if_or :
    (m k : Bool) (n c : ℕ)
    → n ≡ (if m then 1 else c)
    → (if k then 1 else n) ≡ (if m || k then 1 else c)
if_or m k n c h = ground arith

module _ (display_path : Bytes) where
  check_line-Reported :
      (text : Bytes) (s : State)
      → Reported s
      → Reported (check_line display_path text s)
        × ((check_line display_path text s).code ≡ (if begins_marker text then 1 else s.code))
  unfolding check_line report_conflict
  check_line-Reported text s r =
      chosen-Reported
        (record (report_conflict display_path (codes "<<<<<<< ") s) { in_conflict = true })
        (report_conflict display_path (codes "||||||| ") s)
        (report_conflict display_path (codes "=======") s)
        (record (report_conflict display_path (codes ">>>>>>> ") s) { in_conflict = false }) s refl
        refl refl refl (starts_with start_pattern text) s.in_conflict
        (starts_with ancestor_pattern text)
        (any (λ pattern. starts_with pattern text) separator_patterns)
        (starts_with end_pattern text) refl r

  arrive-Reported :
      (t : Bool) (text : Bytes) (s : State)
      → Reported s
      → Reported (arrive display_path t text s)
        × ((arrive display_path t text s).code ≡ (if t && begins_marker text then 1 else s.code))
  arrive-Reported true text s r = check_line-Reported text s r
  arrive-Reported false text s r = (r, refl)

  leave-Reported :
      (b : ℕ) (s : State) → Reported s → Reported (leave b s) × ((leave b s).code ≡ s.code)
  leave-Reported b s r = elim (Bool-cases (b == lf)) [
    | inl f ↦ rw f (r, refl)
    | inr f ↦ rw f (r, refl)
  ]

  walk-code :
      (t : Bool) (text : Bytes) (s : State)
      → Reported s
      → (walk display_path (length text) t text s).code
        ≡ (if (t && begins_marker text) || marker_behind text then 1 else s.code)
  unfolding walk occurs starts_with
  walk-code t [] s r = ground arith
  walk-code t (b ∷ rest) s r =
      let (r', c) = arrive-Reported t (b ∷ rest) s r in
      let (r'', c') = leave-Reported b (arrive display_path t (b ∷ rest) s) r' in
      let old = walk-code (b == lf) rest (leave b (arrive display_path t (b ∷ rest) s)) r'' in
      old
      ∙ if_or (t && begins_marker (b ∷ rest))
          ((b == lf && begins_marker rest) || marker_behind rest) _ s.code (c' ∙ c)
      ∙ ap (λ k. if (t && begins_marker (b ∷ rest)) || k then 1 else s.code)
          (sym (marker_behind-cons b rest))

-- If each read but the last returns bytes, the exit status of check-merge-conflict is 1
-- exactly if the file begins with a start or an end marker, or one stands behind a newline,
-- and 0 otherwise.
pub check_file-exit_status :
    (f : Finders) (display_path : Bytes) (reads : List Bytes)
    → All IsRead reads
    → (check_file f display_path reads).exit_status
      ≡ (if begins_marker (contents reads) || marker_behind (contents reads) then 1 else 0)
unfolding reference
check_file-exit_status f display_path reads h =
    ap (λ r. r.exit_status) (check_file-reference f display_path reads h)
    ∙ walk-code display_path true (contents reads) start (inl refl)
