-- ===== src/Treehash/Ignore/Loading.antt =====
-- What loading a `.gitignore` adds to the rules.
use linux_utilities.Common.{
  ℕ, zero, suc, ◌≡◌, refl, ap, sym, ◌∙◌, subst, Bool, true, false, List, [], ◌∷◌, ◌++◌, All,
  All-append, Option, none, some, arith, Bytes, append_assoc, append-nil,
}
use linux_utilities.Common.Memory.{Memory, allocate}
use linux_utilities.Treehash.Ignore.{
  IgnoreRule, IgnoreRuleArray, add_ignore_rule, load_kept, load_pattern, load_line, load_lines,
  load_gitignore, Opened, not_opened, lines_read, loaded, is_skipped, trim_end, until_nul, negation,
  final_slash, anchor,
}

-- A rule of the directory at this depth.
pub record IsOf (rel_dir : Bytes) (depth : ℕ) (r : IgnoreRule) : Type 0 where
  pub in_directory : r.dir_rel ≡ rel_dir
  pub at_depth : r.depth ≡ depth

-- The array with some rules of the directory added at its end.
pub record IsLonger (rel_dir : Bytes) (depth : ℕ) (items longer : List IgnoreRule) : Type 0 where
  pub own : List IgnoreRule
  pub added : longer ≡ items ++ own
  pub all_own : All (IsOf rel_dir depth) own

pub IsLonger-refl :
    {rel_dir : Bytes} {depth : ℕ} (items : List IgnoreRule) → IsLonger rel_dir depth items items
IsLonger-refl items = record { own = []; added = sym (append-nil items); all_own = tt }

IsLonger-trans :
    {rel_dir : Bytes} {depth : ℕ} {a b c : List IgnoreRule}
    → IsLonger rel_dir depth a b
    → IsLonger rel_dir depth b c
    → IsLonger rel_dir depth a c
IsLonger-trans {rel_dir} {depth} {a} f g = record {
  own = f.own ++ g.own;
  added = g.added ∙ ap (λ t. t ++ g.own) f.added ∙ append_assoc a f.own g.own;
  all_own = All-append (IsOf rel_dir depth) f.own g.own f.all_own g.all_own;
}

add_ignore_rule_items :
    (arr longer : IgnoreRuleArray) (rule : IgnoreRule) (memory left : Memory)
    → add_ignore_rule arr rule memory ≡ some (longer, left)
    → longer.items ≡ arr.items ++ rule ∷ []
unfolding add_ignore_rule
add_ignore_rule_items arr longer rule memory left e = ground arith

add_own :
    (arr longer : IgnoreRuleArray) (rule : IgnoreRule) (memory left : Memory)
    → add_ignore_rule arr rule memory ≡ some (longer, left)
    → IsLonger rule.dir_rel rule.depth arr.items longer.items
add_own arr longer rule memory left e = record {
  own = rule ∷ [];
  added = add_ignore_rule_items arr longer rule memory left e;
  all_own = (record { in_directory = refl; at_depth = refl }, tt);
}

load_kept-IsLonger :
    (negated dir_only : Bool) (kept rel_dir : Bytes) (depth : ℕ) (rules longer : IgnoreRuleArray)
    (memory left : Memory)
    → load_kept negated dir_only kept rel_dir depth rules memory ≡ some (longer, left)
    → IsLonger rel_dir depth rules.items longer.items
unfolding load_kept
load_kept-IsLonger negated dir_only [] rel_dir depth rules longer memory left e =
    let same : rules ≡ longer = ground arith in
    subst (λ r. IsLonger rel_dir depth rules.items r.items) same (IsLonger-refl rules.items)
load_kept-IsLonger negated dir_only (c ∷ kept) rel_dir depth rules longer memory left e =
    add_own rules longer
      (record {
        pattern = (anchor (c ∷ kept)).1;
        dir_rel = rel_dir;
        depth = depth;
        is_negated = negated;
        is_dir_only = dir_only;
        is_anchored = (anchor (c ∷ kept)).0;
      })
      memory left e

load_pattern-IsLonger :
    (negated : Bool) (pat rel_dir : Bytes) (depth : ℕ) (rules longer : IgnoreRuleArray)
    (memory left : Memory)
    → load_pattern negated pat rel_dir depth rules memory ≡ some (longer, left)
    → IsLonger rel_dir depth rules.items longer.items
unfolding load_pattern allocate
load_pattern-IsLonger negated [] rel_dir depth rules longer memory left e =
    let same : rules ≡ longer = ground arith in
    subst (λ r. IsLonger rel_dir depth rules.items r.items) same (IsLonger-refl rules.items)
load_pattern-IsLonger negated (c ∷ pat) rel_dir depth rules longer zero left e =
    absurd (ground arith)
load_pattern-IsLonger negated (c ∷ pat) rel_dir depth rules longer (suc memory) left e =
    load_kept-IsLonger negated (final_slash (c ∷ pat)).0 (final_slash (c ∷ pat)).1 rel_dir depth
      rules longer memory left (opened e)
  where
    opened :
        load_pattern negated (c ∷ pat) rel_dir depth rules (suc memory) ≡ some (longer, left)
        → load_kept negated
            (final_slash (c ∷ pat)).0
            (final_slash (c ∷ pat)).1
            rel_dir
            depth
            rules
            memory
          ≡ some (longer, left)
    opened f = ground (arith, allocate)

load_line_kept :
    (line rel_dir : Bytes) (depth : ℕ) (rules : IgnoreRuleArray) (memory : Memory)
    → is_skipped (until_nul (trim_end line)) ≡ false
    → load_line line rel_dir depth rules memory
      ≡ load_pattern
          (negation (until_nul (trim_end line))).0
          (negation (until_nul (trim_end line))).1
          rel_dir
          depth
          rules
          memory
unfolding load_line load_pattern
load_line_kept line rel_dir depth rules memory kept = rw kept refl

load_line_skipped :
    (line rel_dir : Bytes) (depth : ℕ) (rules : IgnoreRuleArray) (memory : Memory)
    → is_skipped (until_nul (trim_end line)) ≡ true
    → load_line line rel_dir depth rules memory ≡ some (rules, memory)
unfolding load_line
load_line_skipped line rel_dir depth rules memory skipped = rw skipped refl

same_rules :
    (rules longer : IgnoreRuleArray) (memory left : Memory) (o : Option (IgnoreRuleArray × Memory))
    → o ≡ some (rules, memory)
    → o ≡ some (longer, left)
    → rules ≡ longer
same_rules rules longer memory left o e f = ground arith

load_line-IsLonger :
    (line rel_dir : Bytes) (depth : ℕ) (rules longer : IgnoreRuleArray) (memory left : Memory)
    → load_line line rel_dir depth rules memory ≡ some (longer, left)
    → IsLonger rel_dir depth rules.items longer.items
load_line-IsLonger line rel_dir depth rules longer memory left e =
    go (is_skipped (until_nul (trim_end line))) refl
  where
    go :
        (b : Bool)
        → is_skipped (until_nul (trim_end line)) ≡ b
        → IsLonger rel_dir depth rules.items longer.items
    go true skipped =
        let same =
          same_rules rules longer memory left (load_line line rel_dir depth rules memory)
            (load_line_skipped line rel_dir depth rules memory skipped) e in
        subst (λ r. IsLonger rel_dir depth rules.items r.items) same (IsLonger-refl rules.items)
    go false kept =
        load_pattern-IsLonger (negation (until_nul (trim_end line))).0
          (negation (until_nul (trim_end line))).1 rel_dir depth rules longer memory left
          (sym (load_line_kept line rel_dir depth rules memory kept) ∙ e)

load_lines-IsLonger :
    (lines : List Bytes) (rel_dir : Bytes) (depth : ℕ) (rules longer : IgnoreRuleArray)
    (memory left : Memory)
    → load_lines lines rel_dir depth rules memory ≡ loaded longer left
    → IsLonger rel_dir depth rules.items longer.items
unfolding load_lines
load_lines-IsLonger [] rel_dir depth rules longer memory left e =
    let same : rules ≡ longer = ground arith in
    subst (λ r. IsLonger rel_dir depth rules.items r.items) same (IsLonger-refl rules.items)
load_lines-IsLonger (line ∷ more) rel_dir depth rules longer memory left e =
    go (load_line line rel_dir depth rules memory) refl
      (λ next rest. load_lines-IsLonger more rel_dir depth next longer rest left)
  where
    go :
        (o : Option (IgnoreRuleArray × Memory))
        → load_line line rel_dir depth rules memory ≡ o
        → ((next : IgnoreRuleArray) (rest : Memory)
            → load_lines more rel_dir depth next rest ≡ loaded longer left
            → IsLonger rel_dir depth next.items longer.items)
        → IsLonger rel_dir depth rules.items longer.items
    go none f above = absurd (ground (arith, load_lines))
    go (some (next, rest)) f above =
        IsLonger-trans (load_line-IsLonger line rel_dir depth rules next memory rest f)
          (above next rest (ground (arith, load_lines)))

pub load_gitignore-IsLonger :
    (file : Opened) (rel_dir : Bytes) (depth : ℕ) (rules longer : IgnoreRuleArray)
    (memory left : Memory)
    → load_gitignore file rel_dir depth rules memory ≡ loaded longer left
    → IsLonger rel_dir depth rules.items longer.items
unfolding load_gitignore
load_gitignore-IsLonger (lines_read lines) rel_dir depth rules longer memory left e =
    load_lines-IsLonger lines rel_dir depth rules longer memory left e
load_gitignore-IsLonger (not_opened errno) rel_dir depth rules longer memory left e =
    let same : rules ≡ longer = ground arith in
    subst (λ r. IsLonger rel_dir depth rules.items r.items) same (IsLonger-refl rules.items)
