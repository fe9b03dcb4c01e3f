-- ===== src/Treehash/Walk/Context.antt =====
-- Contexts before and after a part of the walk.
use linux_utilities.Common.{
  ℕ, suc, ◌<◌, ◌≡◌, refl, ap, sym, ◌∙◌, subst, Bool, true, false, List, [], ◌∷◌, ◌++◌, All,
  All-append, Option, none, some, arith, Bytes, append_assoc, append-nil,
}
use linux_utilities.Treehash.Ignore.{IgnoreRule}
use linux_utilities.Treehash.Ignore.Loading.{IsOf, IsLonger}
use linux_utilities.Treehash.Ignore.Popping.{AreOuter}
use linux_utilities.Treehash.Merkle.{FileEntry}
use linux_utilities.Treehash.Walk.{
  Report, TreehashContext, Walked, walked, failed, ◌>>=◌, or_fail, fail_if, skip_if,
}

-- A chain that ends well has walked each of its parts.
pub record Chained (w : Walked) (f : TreehashContext → Walked) (after : TreehashContext)
    : Type 0 where
  pub middle : TreehashContext
  pub before_it : w ≡ walked middle
  pub after_it : f middle ≡ walked after

pub chained :
    (w : Walked) (f : TreehashContext → Walked) (after : TreehashContext)
    → (w >>= f) ≡ walked after
    → Chained w f after
chained (walked ctx) f after e = record { middle = ctx; before_it = refl; after_it = e }
chained (failed r) f after e = absurd (ground arith)

pub record Given {A : Type 0} (o : Option A) (f : A → Walked) (after : TreehashContext)
    : Type 0 where
  pub value : A
  pub is_given : o ≡ some value
  pub goes_on : f value ≡ walked after

pub given :
    {A : Type 0} (o : Option A) (r : Report) (f : A → Walked) (after : TreehashContext)
    → or_fail o r f ≡ walked after
    → Given o f after
given none r f after e = absurd (ground arith)
given (some a) r f after e = record { value = a; is_given = refl; goes_on = e }

pub not_failed :
    (b : Bool) (r : Report) (w : Walked) (after : TreehashContext)
    → fail_if b r w ≡ walked after
    → w ≡ walked after
not_failed true r w after e = absurd (ground arith)
not_failed false r w after e = e

pub walked_inj : (a b : TreehashContext) → walked a ≡ walked b → a ≡ b
walked_inj a b e = ground arith

-- From one context to a later one: the same rules and ancestors, and some more entries.
pub record Keeps (IsNew : FileEntry → Type 0) (before after : TreehashContext) : Type 0 where
  pub same_rules : after.rules.items ≡ before.rules.items
  pub same_ancestors : after.ancestors ≡ before.ancestors
  pub found : List FileEntry
  pub entries_added : after.entries.items ≡ before.entries.items ++ found
  pub all_new : All IsNew found

pub Keeps-refl : {IsNew : FileEntry → Type 0} (ctx : TreehashContext) → Keeps IsNew ctx ctx
Keeps-refl ctx = record {
  same_rules = refl;
  same_ancestors = refl;
  found = [];
  entries_added = sym (append-nil ctx.entries.items);
  all_new = tt;
}

pub Keeps-trans :
    {IsNew : FileEntry → Type 0} {a b c : TreehashContext}
    → Keeps IsNew a b
    → Keeps IsNew b c
    → Keeps IsNew a c
Keeps-trans {IsNew} {a} f g = record {
  same_rules = g.same_rules ∙ f.same_rules;
  same_ancestors = g.same_ancestors ∙ f.same_ancestors;
  found = f.found ++ g.found;
  entries_added =
      g.entries_added
      ∙ ap (λ t. t ++ g.found) f.entries_added
      ∙ append_assoc a.entries.items f.found g.found;
  all_new = All-append IsNew f.found g.found f.all_new g.all_new;
}

pub Keeps-skip_if :
    {IsNew : FileEntry → Type 0} (b : Bool) (ctx after : TreehashContext) (w : Walked)
    → skip_if b ctx w ≡ walked after
    → (b ≡ false → w ≡ walked after → Keeps IsNew ctx after)
    → Keeps IsNew ctx after
Keeps-skip_if {IsNew} true ctx after w e keeps =
    subst (λ c. Keeps IsNew ctx c) (walked_inj ctx after e) (Keeps-refl ctx)
Keeps-skip_if false ctx after w e keeps = keeps refl e

All-map :
    {P Q : FileEntry → Type 0}
    → ((e : FileEntry) → P e → Q e)
    → (es : List FileEntry) → All P es
    → All Q es
All-map f [] h = tt
All-map f (e ∷ es) (p, h) = (f e p, All-map f es h)

pub Keeps-weaken :
    {P Q : FileEntry → Type 0} {a b : TreehashContext}
    → ((e : FileEntry) → P e → Q e)
    → Keeps P a b
    → Keeps Q a b
Keeps-weaken f k = record {
  same_rules = k.same_rules;
  same_ancestors = k.same_ancestors;
  found = k.found;
  entries_added = k.entries_added;
  all_new = All-map f k.found k.all_new;
}

deeper : (depth : ℕ) (items : List IgnoreRule) → AreOuter depth items → AreOuter (suc depth) items
deeper depth [] outer = tt
deeper depth (r ∷ items) (o, outer) = (omega arith, deeper depth items outer)

own_deeper :
    (rel : Bytes) (depth : ℕ) (own : List IgnoreRule)
    → All (IsOf rel depth) own
    → AreOuter (suc depth) own
own_deeper rel depth [] all_own = tt
own_deeper rel depth (r ∷ own) (is_of, all_own) =
    let at = is_of.at_depth in (omega arith, own_deeper rel depth own all_own)

pub longer_outer :
    (rel : Bytes) (depth : ℕ) (items longer : List IgnoreRule)
    → AreOuter depth items
    → IsLonger rel depth items longer
    → AreOuter (suc depth) longer
longer_outer rel depth items longer outer l = subst (AreOuter (suc depth)) (sym l.added) (
    All-append (λ r. r.depth < suc depth) items l.own (deeper depth items outer)
      (own_deeper rel depth l.own l.all_own))
