-- ===== src/Selectors/Report.antt =====
-- crates/prek/src/cli/run/selector.rs, the two `report_unused`: what is said of selectors that matched nothing.
-- The style of a text is an argument.
use prek.Prelude.{
  ℕ, ◌+◌, ◌≡◌, refl, ap₂, ◌∙◌, Bool, true, false, not, ◌&&◌, List, [], ◌∷◌, ◌++◌, map, arith,
  if◌then◌else◌, Bytes, codes, any, all, eq_bytes,
}
use prek.Selectors.{
  SelectorExpr, by_hook_id, project_prefix, project_hook, Selector, Hook, FilterUsage,
  default_usage, unused, Selectors, matches_hook, is_empty,
}
use prek.Selectors.Usage.{select_all, unmatched, select_all-unmatched}
use prek.Selectors.Groups.{GroupSelector, GroupFilters, display_group}
use prek.Selectors.Parse.{as_flag, as_normalized_flag, kind_str}

abbrev is_project : SelectorExpr → Bool
is_project (by_hook_id hook_id) = false
is_project (project_prefix path) = true
is_project (project_hook path hook_id) = true

pub has_project_selectors : Selectors → Bool
has_project_selectors s = any (λ x. is_project x.expr) s.includes

abbrev is_hook_target : SelectorExpr → Bool
is_hook_target (by_hook_id hook_id) = true
is_hook_target (project_prefix path) = false
is_hook_target (project_hook path hook_id) = true

pub includes_only_hook_targets : Selectors → Bool
includes_only_hook_targets s =
    not (is_empty s.includes) && all (λ x. is_hook_target x.expr) s.includes

-- A warning, and what is printed below it.
pub data Report : Type 0 where
  silent : Report
  warning : Bytes → Report
  listing : Bytes → Bytes → Report

abbrev pub is_silent : Report → Bool
is_silent silent = true
is_silent (warning text) = false
is_silent (listing text lines) = false

-- `join("\n")`
abbrev pub join_lines : List Bytes → Bytes
join_lines [] = []
join_lines (line ∷ []) = line
join_lines (line ∷ (next ∷ lines)) = line ++ b'\n' ∷ join_lines (next ∷ lines)

-- What is said of a selector, with its normalized form where that is another text.
abbrev shown : (Bytes → Bytes) → Bytes → Selector → Bytes
shown dimmed start selector =
    let flag = as_flag selector in
    let normalized = as_normalized_flag selector in
    if eq_bytes flag normalized
    then start ++ codes "`" ++ flag ++ codes "`"
    else start
      ++ codes "`"
      ++ flag
      ++ codes "` ("
      ++ dimmed (codes "normalized to `" ++ normalized ++ codes "`")
      ++ codes ")"

abbrev listed : (Bytes → Bytes) → ℕ × Selector → Bytes
listed dimmed (idx, selector) = shown dimmed (codes "  - ") selector

abbrev report_of : (Bytes → Bytes) → List (ℕ × Selector) → Report
report_of dimmed [] = silent
report_of dimmed ((idx, selector) ∷ []) = warning (
    shown dimmed (codes "selector ") selector
    ++ codes " did not match any "
    ++ kind_str selector.expr)
report_of dimmed (a ∷ (b ∷ rest)) =
    listing (codes "the following selectors did not match any hooks or projects:")
      (join_lines (map (listed dimmed) (a ∷ (b ∷ rest))))

pub report_unused : (Bytes → Bytes) → FilterUsage → Selectors → Report
unfolding unused
report_unused dimmed usage s =
    report_of dimmed (unused 0 usage.includes s.includes ++ unused 0 usage.excludes s.skips)

abbrev flagged : Bytes → ℕ × GroupSelector → Bytes
flagged flag (idx, group) = flag ++ b'=' ∷ display_group group

abbrev group_line : Bytes → Bytes
group_line group = codes "  - `" ++ group ++ codes "`"

abbrev groups_report_of : List Bytes → Report
groups_report_of [] = silent
groups_report_of (group ∷ []) =
    warning (codes "group selector `" ++ group ++ codes "` did not match any hooks")
groups_report_of (a ∷ (b ∷ rest)) =
    listing (codes "the following group selectors did not match any hooks:")
      (join_lines (map group_line (a ∷ (b ∷ rest))))

pub report_unused_groups : FilterUsage → GroupFilters → Report
unfolding unused
report_unused_groups usage f = groups_report_of (
    map (flagged (codes "--group")) (unused 0 usage.includes f.include_any)
    ++ map (flagged (codes "--require-group")) (unused 0 usage.requirements f.require_all)
    ++ map (flagged (codes "--no-group")) (unused 0 usage.excludes f.exclude_any))

-- A selector that matches one of the hooks.
abbrev pub has_match : List Hook → Selector → Bool
has_match hooks selector = any (λ h. matches_hook selector h) hooks

unmatched-is_empty :
    (hooks : List Hook) (k : ℕ) (xs : List Selector)
    → is_empty (unmatched (λ h x. matches_hook x h) hooks k xs) ≡ all (has_match hooks) xs
unfolding unmatched
unmatched-is_empty hooks k [] = refl
unmatched-is_empty hooks k (x ∷ xs) = ground (arith, unmatched-is_empty hooks (k + 1) xs)

is_silent-report_of :
    (dimmed : Bytes → Bytes) (xs ys : List (ℕ × Selector))
    → is_silent (report_of dimmed (xs ++ ys)) ≡ (is_empty xs && is_empty ys)
is_silent-report_of dimmed [] [] = refl
is_silent-report_of dimmed [] (a ∷ []) = refl
is_silent-report_of dimmed [] (a ∷ (b ∷ ys)) = refl
is_silent-report_of dimmed (a ∷ []) [] = refl
is_silent-report_of dimmed (a ∷ []) (b ∷ ys) = refl
is_silent-report_of dimmed (a ∷ (b ∷ xs)) ys = refl

pub report_unused-silent :
    (dimmed : Bytes → Bytes) (s : Selectors) (hooks : List Hook)
    → is_silent (report_unused dimmed (select_all s default_usage hooks) s)
      ≡ (all (has_match hooks) s.includes && all (has_match hooks) s.skips)
unfolding report_unused
report_unused-silent dimmed s hooks =
    let (i, e) = select_all-unmatched s hooks in
    let usage = select_all s default_usage hooks in
    is_silent-report_of dimmed (unused 0 usage.includes s.includes)
      (unused 0 usage.excludes s.skips)
    ∙ ap₂ (λ a b. is_empty a && is_empty b) i e
    ∙ ap₂ (λ a b. a && b) (unmatched-is_empty hooks 0 s.includes)
        (unmatched-is_empty hooks 0 s.skips)
