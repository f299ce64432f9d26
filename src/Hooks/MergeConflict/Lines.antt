-- ===== src/Hooks/MergeConflict/Lines.antt =====
-- crates/prek/src/hooks/pre_commit_hooks/check_merge_conflict.rs: the lines of a file, visited one by one.
use prek.Prelude.{
  ℕ, zero, suc, ◌+◌, ◌≤◌, ◌≡◌, refl, sym, ap, ap₂, ◌∙◌, Bool, true, false, ◌&&◌, List, [], ◌∷◌,
  arith, ltb, ◌==◌, if◌then◌else◌, lt→ltb, Bytes, length, take, drop, drop-drop,
}
use prek.Hooks.Bytes.{lf}
use prek.Hooks.MergeConflict.{State, check_line, next_line, check_newlines, positions}

-- The state behind a byte.
abbrev pub leave : ℕ → State → State
leave b s = if b == lf then next_line s else s

-- Whether a line begins behind the first `n` bytes.
unfoldable pub starts_line : ℕ → Bool → Bytes → Bool
starts_line zero at_line_start text = at_line_start
starts_line (suc n) at_line_start [] = at_line_start
starts_line (suc n) at_line_start (b ∷ rest) = starts_line n (b == lf) rest

module _ (display_path : Bytes) where
  -- The state at a byte, where a line is checked if it begins there.
  abbrev pub arrive : Bool → Bytes → State → State
  arrive at_line_start text s = if at_line_start then check_line display_path text s else s

  -- Visit the lines that begin in the first `n` bytes of a text.
  unfoldable pub walk : ℕ → Bool → Bytes → State → State
  walk zero at_line_start text s = s
  walk (suc n) at_line_start [] s = s
  walk (suc n) at_line_start (b ∷ rest) s =
      walk n (b == lf) rest (leave b (arrive at_line_start (b ∷ rest) s))

  walk-nil : (k : ℕ) (t : Bool) (s : State) → walk k t [] s ≡ s
  unfolding walk
  walk-nil zero t s = refl
  walk-nil (suc k) t s = refl

  pub walk-split :
      (n m : ℕ) (t : Bool) (text : Bytes) (s : State)
      → walk (n + m) t text s ≡ walk m (starts_line n t text) (drop n text) (walk n t text s)
  unfolding walk starts_line
  walk-split zero m t text s = let e : 0 + m ≡ m = omega arith in ap (λ k. walk k t text s) e
  walk-split (suc n) m t [] s = walk-nil (suc n + m) t s ∙ sym (walk-nil m t s)
  walk-split (suc n) m t (b ∷ rest) s =
      let e : suc n + m ≡ suc (n + m) = omega arith in
      ap (λ k. walk k t (b ∷ rest) s) e
      ∙ walk-split n m (b == lf) rest (leave b (arrive t (b ∷ rest) s))

  drop-next :
      (off b : ℕ) (content rest : Bytes)
      → drop off content ≡ b ∷ rest
      → drop (off + 1) content ≡ rest
  drop-next off b content rest h = sym (drop-drop off 1 content) ∙ ap (drop 1) h

  module _ (content : Bytes) (consumed : ℕ) where
    -- A byte with the newline that it may be.
    newline-step :
        (newlines : List ℕ) (off n : ℕ) (rest : Bytes) (s : State) (u : Bool)
        → drop (off + 1) content ≡ rest
        → off + suc n ≡ consumed
        → check_newlines display_path content consumed newlines (
            if ltb 0 n && u
            then check_line display_path rest (if u then next_line s else s)
            else if u
            then next_line s
            else s)
          ≡ check_newlines display_path content consumed (if u then off ∷ newlines else newlines) s
    unfolding check_newlines
    newline-step newlines off n rest s true next k =
        let inside : (ltb 0 n && true) ≡ ltb (off + 1) consumed = ground arith in
        ap₂
          (λ t l.
            check_newlines display_path content consumed newlines
              (if t then check_line display_path l (next_line s) else next_line s))
          inside (sym next)
    newline-step newlines off n rest s false next k =
        let none_here : (ltb 0 n && false) ≡ false = ground arith in
        ap
          (λ t.
            check_newlines display_path content consumed newlines
              (if t then check_line display_path rest s else s))
          none_here

    -- The visit of the newlines is the visit of the lines, with the first line checked before.
    pub walk-check_newlines :
        (n off : ℕ) (text : Bytes) (t : Bool) (s : State)
        → drop off content ≡ text
        → n ≤ length text
        → off + n ≡ consumed
        → walk n t text s
          ≡ check_newlines display_path content consumed
              (positions lf off (take n text))
              (if ltb 0 n && t then check_line display_path text s else s)
    unfolding walk positions check_newlines
    walk-check_newlines zero off text t s e h k = refl
    walk-check_newlines (suc n) off [] t s e h k = absurd (omega arith)
    walk-check_newlines (suc n) off (b ∷ rest) t s e h k =
        let next = drop-next off b content rest e in
        let s' = leave b (arrive t (b ∷ rest) s) in
        let old =
          walk-check_newlines n (off + 1) rest (b == lf) s' next (omega arith) (omega arith) in
        let found = positions lf (off + 1) (take n rest) in
        old
        ∙ newline-step found off n rest (arrive t (b ∷ rest) s) (b == lf) next k
        ∙ ap
            (λ q.
              check_newlines display_path content consumed (if b == lf then off ∷ found else found)
                (if q && t then check_line display_path (b ∷ rest) s else s))
            (sym (lt→ltb 0 (suc n) (omega arith)))
