-- ===== src/Selectors/Usage.antt =====
-- crates/prek/src/cli/run/selector.rs, `FilterUsage`: which selectors stay unused in a run over hooks.
use prek.Prelude.{
  ℕ, ◌+◌, ◌≤◌, ◌<◌, ◌≡◌, refl, subst, ◌∙◌, ◌⊎◌, inl, inr, Bool, true, false, ◌&&◌, ◌||◌, List, [],
  ◌∷◌, arith, ◌==◌, if◌then◌else◌, ==_iff, Bool-cases, any,
}
use prek.Selectors.{
  Selector, Hook, FilterUsage, default_usage, has_index, use_index, scan, unused, Selectors,
  select_hook, matches_hook, is_empty,
}

has_index-use_index :
    (n m : ℕ) (used : List ℕ) → has_index n (use_index m used) ≡ ((m == n) || has_index n used)
has_index-use_index n m used = go (Bool-cases (has_index m used)) (Bool-cases (m == n))
  where
    go :
        (has_index m used ≡ true) ⊎ (has_index m used ≡ false)
        → ((m == n) ≡ true) ⊎ ((m == n) ≡ false)
        → has_index n (use_index m used) ≡ ((m == n) || has_index n used)
    go (inl old) (inl same) =
        rw (old, same) (subst (λ k. has_index k used ≡ true) ((==_iff m n).0 same) old)
    go (inl old) (inr other) = rw (old, other) refl
    go (inr new) _ = rw new refl

-- The selectors that a test marks, by index.
hits {ℓ} : {A : Type ℓ} → (A → Bool) → ℕ → List A → ℕ → Bool
hits uses k [] n = false
hits uses k (x ∷ xs) n = ((k == n) && uses x) || hits uses (k + 1) xs n

hits-below {ℓ} :
    {A : Type ℓ} (uses : A → Bool) (k : ℕ) (xs : List A) (n : ℕ) → n < k → hits uses k xs n ≡ false
unfolding hits
hits-below uses k [] n h = refl
hits-below uses k (x ∷ xs) n h = ground (arith, hits-below uses (k + 1) xs n (omega arith))

scan-used {ℓ} :
    {A : Type ℓ} (uses counts : A → Bool) (k : ℕ) (xs : List A) (used : List ℕ) (hit : Bool) (n : ℕ)
    → has_index n (scan uses counts k xs used hit).0 ≡ (has_index n used || hits uses k xs n)
unfolding scan hits
scan-used uses counts k [] used hit n = ground arith
scan-used uses counts k (x ∷ xs) used hit n = ground (
  arith,
  scan-used uses counts (k + 1) xs (if uses x then use_index k used else used) (hit || counts x) n,
  has_index-use_index n k used,
)

-- The loop finds a match exactly if there is one.
pub scan-hit {ℓ} :
    {A : Type ℓ} (uses counts : A → Bool) (k : ℕ) (xs : List A) (used : List ℕ) (hit : Bool)
    → (scan uses counts k xs used hit).1 ≡ (hit || any counts xs)
unfolding scan
scan-hit uses counts k [] used hit = ground arith
scan-hit uses counts k (x ∷ xs) used hit = ground (
  arith,
  scan-hit uses counts (k + 1) xs (if uses x then use_index k used else used) (hit || counts x),
)

any-ext {ℓ} :
    {A : Type ℓ} (p q : A → Bool) (xs : List A) → ((x : A) → p x ≡ q x) → any p xs ≡ any q xs
any-ext p q [] h = refl
any-ext p q (x ∷ xs) h = ground (arith, h x, any-ext p q xs h)

any-never {ℓ} : {A : Type ℓ} (xs : List A) → any (λ (x : A). false) xs ≡ false
any-never [] = refl
any-never (x ∷ xs) = any-never xs

module _ {A : Type 0} (f : Hook → A → Bool) (hooks : List Hook) where
  -- The selectors that match none of the hooks, with their indices.
  unfoldable pub unmatched : ℕ → List A → List (ℕ × A)
  unmatched k [] = []
  unmatched k (x ∷ xs) =
      let rest = unmatched (k + 1) xs in if any (λ h. f h x) hooks then rest else (k, x) ∷ rest

  hits-here :
      (k : ℕ) (x : A) (xs : List A)
      → any (λ h. hits (f h) k (x ∷ xs) k) hooks ≡ any (λ h. f h x) hooks
  unfolding hits
  hits-here k x xs =
      any-ext (λ h. hits (f h) k (x ∷ xs) k) (λ h. f h x) hooks
        (λ h. ground (arith, hits-below (f h) (k + 1) xs k))

  hits-above :
      (k : ℕ) (x : A) (xs : List A) (n : ℕ)
      → k < n
      → any (λ h. hits (f h) k (x ∷ xs) n) hooks ≡ any (λ h. hits (f h) (k + 1) xs n) hooks
  unfolding hits
  hits-above k x xs n lt =
      any-ext (λ h. hits (f h) k (x ∷ xs) n) (λ h. hits (f h) (k + 1) xs n) hooks
        (λ h. ground arith)

  unused-unmatched :
      (k : ℕ) (xs : List A) (used : List ℕ)
      → ((n : ℕ) → k ≤ n → has_index n used ≡ any (λ h. hits (f h) k xs n) hooks)
      → unused k used xs ≡ unmatched k xs
  unfolding unused unmatched
  unused-unmatched k [] used h = refl
  unused-unmatched k (x ∷ xs) used h =
      let rest =
        unused-unmatched (k + 1) xs used
          (λ n le. h n (omega arith) ∙ hits-above k x xs n (omega arith)) in
      ground (arith, rest, h k, hits-here k x xs)

-- A run over hooks.
pub select_all : Selectors → FilterUsage → List Hook → FilterUsage
unfolding select_hook
select_all s usage [] = usage
select_all s usage (hook ∷ hooks) = select_all s (select_hook s usage hook).0 hooks

abbrev by_hook : Hook → Selector → Bool
by_hook hook selector = matches_hook selector hook

select_hook-used :
    (s : Selectors) (usage : FilterUsage) (hook : Hook) (n : ℕ)
    → (has_index n (select_hook s usage hook).0.includes
        ≡ (has_index n usage.includes || hits (by_hook hook) 0 s.includes n))
      × (has_index n (select_hook s usage hook).0.excludes
          ≡ (has_index n usage.excludes || hits (by_hook hook) 0 s.skips n))
unfolding select_hook
select_hook-used s usage hook n = (
  scan-used (by_hook hook) (by_hook hook) 0 s.includes usage.includes (is_empty s.includes) n,
  scan-used (by_hook hook) (by_hook hook) 0 s.skips usage.excludes false n,
)

select_all-used :
    (s : Selectors) (hooks : List Hook) (usage : FilterUsage) (n : ℕ)
    → (has_index n (select_all s usage hooks).includes
        ≡ (has_index n usage.includes || any (λ h. hits (by_hook h) 0 s.includes n) hooks))
      × (has_index n (select_all s usage hooks).excludes
          ≡ (has_index n usage.excludes || any (λ h. hits (by_hook h) 0 s.skips n) hooks))
unfolding select_all
select_all-used s [] usage n = ground arith
select_all-used s (hook ∷ hooks) usage n =
    ground (
      arith,
      select_all-used s hooks (select_hook s usage hook).0 n,
      select_hook-used s usage hook n,
    )

-- After the selection over a list of hooks, the includes and the skips that count as unused,
-- with their indices, are exactly those that match none of the hooks.
pub select_all-unmatched :
    (s : Selectors) (hooks : List Hook)
    → (unused 0 (select_all s default_usage hooks).includes s.includes
        ≡ unmatched (λ h x. matches_hook x h) hooks 0 s.includes)
      × (unused 0 (select_all s default_usage hooks).excludes s.skips
          ≡ unmatched (λ h x. matches_hook x h) hooks 0 s.skips)
select_all-unmatched s hooks = (
  unused-unmatched by_hook hooks 0 s.includes (select_all s default_usage hooks).includes
      (λ n le. (select_all-used s hooks default_usage n).0),
  unused-unmatched by_hook hooks 0 s.skips (select_all s default_usage hooks).excludes
      (λ n le. (select_all-used s hooks default_usage n).1),
)
