-- ===== src/Treehash/Ignore/Verdict.antt =====
-- The verdict of a list of rules.
use linux_utilities.Common.{
  ◌≡◌, refl, ap, sym, Bool, true, false, not, List, [], ◌∷◌, ◌++◌, All, if◌then◌else◌, arith, Bytes,
  subst,
}
use linux_utilities.Treehash.Ignore.{
  IgnoreRule, IgnoreRuleArray, match_rule, judge, is_path_ignored,
}

module _ (fnmatch : Bytes → Bytes → Bool → Bool) (path : Bytes) (is_dir : Bool) where
  abbrev DoesNotMatch : IgnoreRule → Type 0
  DoesNotMatch r = match_rule fnmatch r path is_dir ≡ false

  -- The verdict that a list of rules gives.
  pub data IsVerdict (rules : List IgnoreRule) : Bool → Type 0 where
    no_rule : All DoesNotMatch rules → IsVerdict rules false
    last_rule :
        (before : List IgnoreRule) (r : IgnoreRule) (after : List IgnoreRule) (verdict : Bool)
        → rules ≡ before ++ r ∷ after
        → match_rule fnmatch r path is_dir ≡ true
        → All DoesNotMatch after
        → verdict ≡ not r.is_negated
        → IsVerdict rules verdict

  -- Any start, and no match.
  data IsJudged (rules : List IgnoreRule) (ignored : Bool) : Bool → Type 0 where
    as_before :
        (verdict : Bool)
        → All DoesNotMatch rules
        → verdict ≡ ignored
        → IsJudged rules ignored verdict
    by_last :
        (before : List IgnoreRule) (r : IgnoreRule) (after : List IgnoreRule) (verdict : Bool)
        → rules ≡ before ++ r ∷ after
        → match_rule fnmatch r path is_dir ≡ true
        → All DoesNotMatch after
        → verdict ≡ not r.is_negated
        → IsJudged rules ignored verdict

  judge-IsJudged :
      (rules : List IgnoreRule) (ignored : Bool)
      → IsJudged rules ignored (judge fnmatch rules path is_dir ignored)
  unfolding judge
  judge-IsJudged [] ignored = as_before ignored tt refl
  judge-IsJudged (r ∷ rules) ignored = go (match_rule fnmatch r path is_dir) refl (
      judge-IsJudged rules (if match_rule fnmatch r path is_dir then not r.is_negated else ignored))
    where
      go :
          (b : Bool)
          → match_rule fnmatch r path is_dir ≡ b
          → IsJudged rules
              (if match_rule fnmatch r path is_dir then not r.is_negated else ignored)
              (judge fnmatch rules path is_dir
                (if match_rule fnmatch r path is_dir then not r.is_negated else ignored))
          → IsJudged (r ∷ rules) ignored (
              judge fnmatch rules path is_dir
                (if match_rule fnmatch r path is_dir then not r.is_negated else ignored))
      go b e (by_last before s after verdict eq m rest v) =
          by_last (r ∷ before) s after verdict (ap (◌∷◌ r) eq) m rest v
      go true e (as_before verdict rest v) = by_last [] r rules verdict refl e rest (ground arith)
      go false e (as_before verdict rest v) = as_before verdict (e, rest) (ground arith)

  -- Whatever the rules: if one matches the path, the last that does decides, and the path is ignored
  -- unless that rule is negated; if none matches, the path is not ignored.
  pub is_path_ignored-IsVerdict :
      (arr : IgnoreRuleArray) → IsVerdict arr.items (is_path_ignored fnmatch arr path is_dir)
  unfolding is_path_ignored
  is_path_ignored-IsVerdict arr = from (judge-IsJudged arr.items false)
    where
      from : {b : Bool} → IsJudged arr.items false b → IsVerdict arr.items b
      from (as_before verdict rest v) = subst (IsVerdict arr.items) (sym v) (no_rule rest)
      from (by_last before r after verdict eq m rest v) =
          last_rule before r after verdict eq m rest v
