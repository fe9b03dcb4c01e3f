-- ===== src/Treehash/Ignore/Popping.antt =====
-- The rules of a directory, when the walk leaves it.
use linux_utilities.Common.{
  ℕ, zero, suc, ◌<◌, ◌==◌, ==_iff, ◌≡◌, refl, ap, sym, ◌∙◌, true, false, List, [], ◌∷◌, ◌++◌, All,
  arith, Bytes, length, length-append, take, drop, append_assoc, append-nil,
}
use linux_utilities.Common.Memory.{Memory}
use linux_utilities.Treehash.Ignore.{
  IgnoreRule, IgnoreRuleArray, pop_loop, pop_rules, load_gitignore, Opened, loaded,
}
use linux_utilities.Treehash.Ignore.Loading.{IsOf, IsLonger, load_gitignore-IsLonger}

-- One more item at the end.
drop_snoc :
    (items : List IgnoreRule) (r : IgnoreRule) → drop (length items) (items ++ r ∷ []) ≡ r ∷ []
drop_snoc [] r = refl
drop_snoc (s ∷ items) r = drop_snoc items r

take_snoc :
    (items : List IgnoreRule) (r : IgnoreRule) → take (length items) (items ++ r ∷ []) ≡ items
take_snoc [] r = refl
take_snoc (s ∷ items) r = ap (◌∷◌ s) (take_snoc items r)

length_snoc :
    (items : List IgnoreRule) (r : IgnoreRule) → length (items ++ r ∷ []) ≡ suc (length items)
length_snoc items r = omega (arith, length-append items (r ∷ []))

pop_loop_snoc :
    (depth : ℕ) (items : List IgnoreRule) (r : IgnoreRule)
    → r.depth ≡ depth
    → pop_loop (length (items ++ r ∷ [])) depth (items ++ r ∷ [])
      ≡ pop_loop (length items) depth items
unfolding pop_loop
pop_loop_snoc depth items r e =
    let same : (r.depth == depth) ≡ true = ((==_iff r.depth depth).1 e) in
    rw (length_snoc items r, pop_loop, drop_snoc items r, same, take_snoc items r) refl

pop_loop_own :
    (rel_dir : Bytes) (depth : ℕ) (items own : List IgnoreRule)
    → All (IsOf rel_dir depth) own
    → pop_loop (length (items ++ own)) depth (items ++ own) ≡ pop_loop (length items) depth items
pop_loop_own rel_dir depth items [] all_own =
    ap (λ t. pop_loop (length t) depth t) (append-nil items)
pop_loop_own rel_dir depth items (r ∷ own) (is_of, all_own) =
    ap (λ t. pop_loop (length t) depth t) (sym (append_assoc items (r ∷ []) own))
    ∙ pop_loop_own rel_dir depth (items ++ r ∷ []) own all_own
    ∙ pop_loop_snoc depth items r is_of.at_depth

-- The rules are all of smaller depth.
abbrev pub AreOuter : ℕ → List IgnoreRule → Type 0
AreOuter depth items = All (λ r. r.depth < depth) items

drop-AreOuter :
    (depth i : ℕ) (items : List IgnoreRule) → AreOuter depth items → AreOuter depth (drop i items)
drop-AreOuter depth zero items outer = outer
drop-AreOuter depth (suc i) [] outer = tt
drop-AreOuter depth (suc i) (r ∷ items) (o, outer) = drop-AreOuter depth i items outer

pop_loop_outer :
    (depth i : ℕ) (items : List IgnoreRule) → AreOuter depth items → pop_loop i depth items ≡ items
unfolding pop_loop
pop_loop_outer depth zero items outer = refl
pop_loop_outer depth (suc i) items outer =
    go (drop i items) refl (drop-AreOuter depth i items outer)
  where
    go :
        (found : List IgnoreRule)
        → drop i items ≡ found
        → AreOuter depth found
        → pop_loop (suc i) depth items ≡ items
    go [] e o = rw (pop_loop, e) refl
    go (r ∷ more) e (o, _) =
        let other : (r.depth == depth) ≡ false = ground (arith, ==_iff r.depth depth) in
        rw (pop_loop, e, other) refl

pub pop_rules_longer :
    (rel_dir : Bytes) (depth : ℕ) (items : List IgnoreRule) (arr : IgnoreRuleArray)
    → AreOuter depth items
    → IsLonger rel_dir depth items arr.items
    → (pop_rules arr depth).items ≡ items
unfolding pop_rules
pop_rules_longer rel_dir depth items arr outer longer =
    ap (λ t. pop_loop (length t) depth t) longer.added
    ∙ pop_loop_own rel_dir depth items longer.own longer.all_own
    ∙ pop_loop_outer depth (length items) items outer

-- Where all rules so far are of smaller depth, as they are when a directory is entered, loading its
-- file and then popping the rules of its depth gives the rules back as they were, whatever the file
-- holds.
pub pop_rules-load_gitignore :
    (file : Opened) (rel_dir : Bytes) (depth : ℕ) (rules longer : IgnoreRuleArray)
    (memory left : Memory)
    → AreOuter depth rules.items
    → load_gitignore file rel_dir depth rules memory ≡ loaded longer left
    → (pop_rules longer depth).items ≡ rules.items
pop_rules-load_gitignore file rel_dir depth rules longer memory left outer e =
    pop_rules_longer rel_dir depth rules.items longer outer
      (load_gitignore-IsLonger file rel_dir depth rules longer memory left e)
