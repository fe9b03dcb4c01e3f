-- ===== src/Sysdiff/Diff/Order.antt =====
-- The order of a report, and when it is empty.
use linux_utilities.Common.{
  ◌≡◌, ◌↔◌, refl, sym, subst, List, [], ◌∷◌, strcmp, strcmp_refl, eq-strcmp, strcmp_flip,
  Ordering-cases, inl, inr, All, Bytes, arith,
}
use linux_utilities.Sysdiff.Snapshot.{Entry}
use linux_utilities.Sysdiff.Snapshot.Ascending.{Below, Above, IsAscending, Above-Below}
use linux_utilities.Sysdiff.Diff.Changes.{
  Change, change_key, diff, diff-lt, diff-gt, diff-same, diff-changed,
}

-- All changes of a report are of keys above `k`.
abbrev pub ChangesAbove : Bytes → List Change → Type 0
ChangesAbove k = All (λ c. Below k (change_key c))

abbrev pub IsReport : List Change → Type 0
IsReport [] = Unit
IsReport (c ∷ cs) = ChangesAbove (change_key c) cs × IsReport cs

ChangesAbove-diff :
    (k : Bytes) (before after : List Entry)
    → Above k before
    → Above k after
    → ChangesAbove k (diff before after)
unfolding diff
ChangesAbove-diff k [] [] p q = tt
ChangesAbove-diff k [] (a ∷ after) p q = (q.0, ChangesAbove-diff k [] after p q.1)
ChangesAbove-diff k (b ∷ before) [] p q = (p.0, ChangesAbove-diff k before [] p.1 q)
ChangesAbove-diff k (b ∷ before) (a ∷ after) p q = elim (Ordering-cases (strcmp b.key a.key)) [
  | inl e ↦ elim (Ordering-cases (strcmp b.value a.value)) [
    | inl f ↦ rw (diff-same b a before after e f) (ChangesAbove-diff k before after p.1 q.1)
    | inr f ↦
        rw (diff-changed b a before after e (λ g. ground arith))
          (p.0, ChangesAbove-diff k before after p.1 q.1)
  ]
  | inr (inl e) ↦
      rw (diff-lt b a before after e) (p.0, ChangesAbove-diff k before (a ∷ after) p.1 q)
  | inr (inr e) ↦
      rw (diff-gt b a before after e) (q.0, ChangesAbove-diff k (b ∷ before) after p q.1)
]

-- For ascending snapshots the report has strictly ascending keys: no key is reported twice.
pub diff-IsReport :
    (before after : List Entry)
    → IsAscending before
    → IsAscending after
    → IsReport (diff before after)
unfolding diff
diff-IsReport [] [] p q = tt
diff-IsReport [] (a ∷ after) p q =
    (ChangesAbove-diff a.key [] after tt q.0, diff-IsReport [] after p q.1)
diff-IsReport (b ∷ before) [] p q =
    (ChangesAbove-diff b.key before [] p.0 tt, diff-IsReport before [] p.1 q)
diff-IsReport (b ∷ before) (a ∷ after) p q = elim (Ordering-cases (strcmp b.key a.key)) [
  | inl e ↦ elim (Ordering-cases (strcmp b.value a.value)) [
    | inl f ↦ rw (diff-same b a before after e f) (diff-IsReport before after p.1 q.1)
    | inr f ↦
        let above = subst (λ j. Above j after) (sym (eq-strcmp b.key a.key e)) q.0 in
        rw (diff-changed b a before after e (λ g. ground arith))
          (ChangesAbove-diff b.key before after p.0 above, diff-IsReport before after p.1 q.1)
  ]
  | inr (inl e) ↦ rw (diff-lt b a before after e) (
    ChangesAbove-diff b.key before (a ∷ after) p.0 (e, Above-Below b.key a.key after e q.0),
    diff-IsReport before (a ∷ after) p.1 q,
  )
  | inr (inr e) ↦
      let below = strcmp_flip b.key a.key e in
      rw (diff-gt b a before after e) (
        ChangesAbove-diff a.key (b ∷ before) after (below, Above-Below a.key b.key before below p.0)
            q.0,
        diff-IsReport (b ∷ before) after p q.1,
      )
]

-- A snapshot does not differ from itself.
diff_self : (es : List Entry) → diff es es ≡ []
unfolding diff
diff_self [] = refl
diff_self (e ∷ es) = ground (arith, strcmp_refl e.key, strcmp_refl e.value, diff_self es)

diff-nil : (before after : List Entry) → diff before after ≡ [] → before ≡ after
unfolding diff
diff-nil [] [] h = refl
diff-nil [] (a ∷ after) h = cc
diff-nil (b ∷ before) [] h = cc
diff-nil (b ∷ before) (a ∷ after) h =
    ground (arith, eq-strcmp b.key a.key, eq-strcmp b.value a.value, diff-nil before after)

-- The report is empty exactly when the snapshots are equal.
pub diff-nil_iff : (before after : List Entry) → (diff before after ≡ []) ↔ (before ≡ after)
diff-nil_iff before after =
    (diff-nil before after, λ e. subst (λ x. diff before x ≡ []) e (diff_self before))
