-- ===== src/Sysdiff/Diff/Changes.antt =====
-- The report as data: the changes between two snapshots, and what they are.
use linux_utilities.Common.{
  ◌≡◌, refl, ◌≢◌, subst, List, [], ◌∷◌, Option, none, some, Ordering, strcmp, eq-strcmp,
  strcmp_flip, Ordering-cases, inl, inr, Bytes, arith,
}
use linux_utilities.Sysdiff.Snapshot.{Entry}
use linux_utilities.Sysdiff.Snapshot.Ascending.{
  Below, Above, IsAscending, find, find-Above, Above-Below,
}

pub data Change : Type 0 where
  added removed : Bytes → Bytes → Change
  changed : Bytes → Bytes → Bytes → Change

abbrev pub change_key : Change → Bytes
change_key (added k v) = k
change_key (removed k v) = k
change_key (changed k v w) = k

unfoldable pub diff : List Entry → List Entry → List Change
diff [] [] = []
diff [] (a ∷ after) = added a.key a.value ∷ diff [] after
diff (b ∷ before) [] = removed b.key b.value ∷ diff before []
diff (b ∷ before) (a ∷ after) = elim (strcmp b.key a.key) [
  | Ordering.eq ↦ elim (strcmp b.value a.value) [
    | Ordering.eq ↦ diff before after
    | _ ↦ changed b.key b.value a.value ∷ diff before after
  ]
  | Ordering.lt ↦ removed b.key b.value ∷ diff before (a ∷ after)
  | Ordering.gt ↦ added a.key a.value ∷ diff (b ∷ before) after
]

-- The change that is reported of a key.
unfoldable pub change_at : Bytes → List Change → Option Change
change_at k [] = none
change_at k (c ∷ cs) =
    let rest = change_at k cs in elim (strcmp (change_key c) k) [ Ordering.eq ↦ some c | _ ↦ rest ]

-- The change between a key's old and new value.
abbrev pub compared : Bytes → Option Bytes → Option Bytes → Option Change
compared k none none = none
compared k none (some w) = some (added k w)
compared k (some v) none = some (removed k v)
compared k (some v) (some w) = elim (strcmp v w) [ Ordering.eq ↦ none | _ ↦ some (changed k v w) ]

module _ (b a : Entry) (before after : List Entry) where
  pub diff-lt :
      strcmp b.key a.key ≡ Ordering.lt
      → diff (b ∷ before) (a ∷ after) ≡ removed b.key b.value ∷ diff before (a ∷ after)
  unfolding diff
  diff-lt h = ground arith

  pub diff-gt :
      strcmp b.key a.key ≡ Ordering.gt
      → diff (b ∷ before) (a ∷ after) ≡ added a.key a.value ∷ diff (b ∷ before) after
  unfolding diff
  diff-gt h = ground arith

  pub diff-same :
      strcmp b.key a.key ≡ Ordering.eq
      → strcmp b.value a.value ≡ Ordering.eq
      → diff (b ∷ before) (a ∷ after) ≡ diff before after
  unfolding diff
  diff-same h k = ground arith

  pub diff-changed :
      strcmp b.key a.key ≡ Ordering.eq
      → strcmp b.value a.value ≢ Ordering.eq
      → diff (b ∷ before) (a ∷ after) ≡ changed b.key b.value a.value ∷ diff before after
  unfolding diff
  diff-changed h k = ground arith

-- The key of a head is above nothing that follows it.
find-head :
    (k : Bytes) (e : Entry) (es : List Entry) → Above e.key es → e.key ≡ k → find k es ≡ none
find-head k e es h p = find-Above k es (subst (λ j. Above j es) p h)

find-nil : (k : Bytes) → find k [] ≡ none
unfolding find
find-nil k = refl

-- A key below the head is not there.
find-under :
    (k j : Bytes) (e : Entry) (es : List Entry)
    → Below j e.key
    → Above e.key es
    → j ≡ k
    → find k (e ∷ es) ≡ none
find-under k j e es h above p =
    find-Above k (e ∷ es) (subst (λ i. Above i (e ∷ es)) p (h, Above-Below j e.key es h above))

-- A key that is not the head's is looked up in the rest.
find-tail :
    (k : Bytes) (e : Entry) (es : List Entry)
    → strcmp e.key k ≢ Ordering.eq
    → find k (e ∷ es) ≡ find k es
unfolding find
find-tail k e es h = ground arith

find-here :
    (k : Bytes) (e : Entry) (es : List Entry)
    → strcmp e.key k ≡ Ordering.eq
    → find k (e ∷ es) ≡ some e.value
unfolding find
find-here k e es h = ground arith

change_at-here :
    (k : Bytes) (c : Change) (cs : List Change)
    → strcmp (change_key c) k ≡ Ordering.eq
    → change_at k (c ∷ cs) ≡ some c
unfolding change_at
change_at-here k c cs h = ground arith

change_at-tail :
    (k : Bytes) (c : Change) (cs : List Change)
    → strcmp (change_key c) k ≢ Ordering.eq
    → change_at k (c ∷ cs) ≡ change_at k cs
unfolding change_at
change_at-tail k c cs h = ground arith

-- The step at a key that both snapshots have.
change_at_both :
    (k : Bytes) (b a : Entry) (before after : List Entry)
    → strcmp b.key a.key ≡ Ordering.eq
    → IsAscending (b ∷ before)
    → IsAscending (a ∷ after)
    → change_at k (diff before after) ≡ compared k (find k before) (find k after)
    → change_at k (diff (b ∷ before) (a ∷ after))
      ≡ compared k (find k (b ∷ before)) (find k (a ∷ after))
change_at_both k b a before after e p q ih =
    let c = changed b.key b.value a.value in
    let ds = diff before after in
    ground (
      arith,
      diff-same b a before after e,
      diff-changed b a before after e,
      eq-strcmp b.key a.key e,
      eq-strcmp b.key k,
      find-head k b before p.0,
      find-head k a after q.0,
      find-here k b before,
      find-tail k b before,
      find-here k a after,
      find-tail k a after,
      change_at-here k c ds,
      change_at-tail k c ds,
    )

-- For ascending snapshots, the report says of every key exactly what became of its value.
pub change_at-diff :
    (k : Bytes) (before after : List Entry)
    → IsAscending before
    → IsAscending after
    → change_at k (diff before after) ≡ compared k (find k before) (find k after)
unfolding diff
change_at-diff k [] [] p q = unfold change_at find in refl
change_at-diff k [] (a ∷ after) p q =
    let c = added a.key a.value in
    ground (
      arith,
      find-nil k,
      change_at-diff k [] after p q.1,
      eq-strcmp a.key k,
      find-head k a after q.0,
      find-here k a after,
      find-tail k a after,
      change_at-here k c (diff [] after),
      change_at-tail k c (diff [] after),
    )
change_at-diff k (b ∷ before) [] p q =
    let c = removed b.key b.value in
    ground (
      arith,
      find-nil k,
      change_at-diff k before [] p.1 q,
      eq-strcmp b.key k,
      find-head k b before p.0,
      find-here k b before,
      find-tail k b before,
      change_at-here k c (diff before []),
      change_at-tail k c (diff before []),
    )
change_at-diff k (b ∷ before) (a ∷ after) p q = elim (Ordering-cases (strcmp b.key a.key)) [
  | inl e ↦ change_at_both k b a before after e p q (change_at-diff k before after p.1 q.1)
  | inr (inl e) ↦
      let c = removed b.key b.value in
      rw (diff-lt b a before after e) (
        ground (
          arith,
          change_at-diff k before (a ∷ after) p.1 q,
          eq-strcmp b.key k,
          find-under k b.key a after e q.0,
          find-here k b before,
          find-tail k b before,
          change_at-here k c (diff before (a ∷ after)),
          change_at-tail k c (diff before (a ∷ after)),
        ))
  | inr (inr e) ↦
      let c = added a.key a.value in
      rw (diff-gt b a before after e) (
        ground (
          arith,
          change_at-diff k (b ∷ before) after p q.1,
          eq-strcmp a.key k,
          find-under k a.key b before (strcmp_flip b.key a.key e) p.0,
          find-here k a after,
          find-tail k a after,
          change_at-here k c (diff (b ∷ before) after),
          change_at-tail k c (diff (b ∷ before) after),
        ))
]
