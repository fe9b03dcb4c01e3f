-- ===== src/Sysdiff/Snapshot/Sorted.antt =====
-- Sorting, and the search for duplicates.
use mathlib.Core.List.{Perm}
use mathlib.Core.List.Perm
use linux_utilities.Common.{
  suc, length, ◌≡◌, ◌⊎◌, inl, inr, refl, ap, ◌∙◌, List, [], ◌∷◌, ◌++◌, none, some, Ordering, strcmp,
  strcmp_trans, eq-strcmp, strcmp_flip, Ordering-cases, All, Bytes, arith,
}
use linux_utilities.Sysdiff.Snapshot.{
  Entry, compare_entries_by_key, insert_entry, sort_entries, find_duplicate,
}
use linux_utilities.Sysdiff.Snapshot.Ascending.{Below, IsAscending, Above-Below}

-- Not below: the key may stand again.
abbrev pub AtMost : Bytes → Bytes → Type 0
AtMost j k = (strcmp j k ≡ Ordering.eq) ⊎ (strcmp j k ≡ Ordering.lt)

AtMost-trans : (a b c : Bytes) → AtMost a b → AtMost b c → AtMost a c
AtMost-trans a b c (inl e) q = rw (eq-strcmp a b e) q
AtMost-trans a b c (inr h) (inl e) = inr (rw (eq-strcmp b c e) at h)
AtMost-trans a b c (inr h) (inr k) = inr (strcmp_trans a b c h k)

abbrev pub IsSorted : List Entry → Type 0
IsSorted [] = Unit
IsSorted (e ∷ es) = All (λ f. AtMost e.key f.key) es × IsSorted es

All-AtMost :
    (j k : Bytes) (es : List Entry)
    → AtMost j k
    → All (λ f. AtMost k f.key) es
    → All (λ f. AtMost j f.key) es
All-AtMost j k [] p h = tt
All-AtMost j k (e ∷ es) p (q, h) = (AtMost-trans j k e.key p q, All-AtMost j k es p h)

-- A predicate of all entries survives the insertion.
All-insert_entry :
    (P : Entry → Type 0) (e : Entry) (es : List Entry) → P e → All P es → All P (insert_entry e es)
unfolding insert_entry compare_entries_by_key
All-insert_entry P e [] p h = (p, tt)
All-insert_entry P e (x ∷ es) p h = elim (Ordering-cases (strcmp e.key x.key)) [
  | inl c ↦ rw (c, insert_entry) (p, h)
  | inr (inl c) ↦ rw (c, insert_entry) (p, h)
  | inr (inr c) ↦ rw (c, insert_entry) (h.0, All-insert_entry P e es p h.1)
]

pub All-sort_entries : (P : Entry → Type 0) (es : List Entry) → All P es → All P (sort_entries es)
unfolding sort_entries
All-sort_entries P [] h = tt
All-sort_entries P (e ∷ es) h =
    All-insert_entry P e (sort_entries es) h.0 (All-sort_entries P es h.1)

insert_entry-IsSorted : (e : Entry) (es : List Entry) → IsSorted es → IsSorted (insert_entry e es)
unfolding insert_entry compare_entries_by_key
insert_entry-IsSorted e [] s = (tt, tt)
insert_entry-IsSorted e (x ∷ es) s = elim (Ordering-cases (strcmp e.key x.key)) [
  | inl c ↦ rw (c, insert_entry) ((inl c, All-AtMost e.key x.key es (inl c) s.0), s)
  | inr (inl c) ↦ rw (c, insert_entry) ((inr c, All-AtMost e.key x.key es (inr c) s.0), s)
  | inr (inr c) ↦
      rw (c, insert_entry)
        (
          All-insert_entry (λ f. AtMost x.key f.key) e es (inr (strcmp_flip e.key x.key c)) s.0,
          insert_entry-IsSorted e es s.1,
        )
]

pub sort_entries-IsSorted : (es : List Entry) → IsSorted (sort_entries es)
unfolding sort_entries
sort_entries-IsSorted [] = tt
sort_entries-IsSorted (e ∷ es) =
    insert_entry-IsSorted e (sort_entries es) (sort_entries-IsSorted es)

insert_entry-perm : (e : Entry) (es : List Entry) → Perm (insert_entry e es) (e ∷ es)
unfolding insert_entry compare_entries_by_key
insert_entry-perm e [] = Perm.rfl
insert_entry-perm e (x ∷ es) = elim (Ordering-cases (strcmp e.key x.key)) [
  | inl c ↦ rw (c, insert_entry) Perm.rfl
  | inr (inl c) ↦ rw (c, insert_entry) Perm.rfl
  | inr (inr c) ↦
      rw (c, insert_entry) (Perm.trans (Perm.cons x (insert_entry-perm e es)) (Perm.swap e x es))
]

length-insert_entry : (e : Entry) (es : List Entry) → length (insert_entry e es) ≡ suc (length es)
unfolding insert_entry
length-insert_entry e [] = refl
length-insert_entry e (x ∷ es) = ground (arith, length-insert_entry e es)

pub length-sort_entries : (es : List Entry) → length (sort_entries es) ≡ length es
unfolding sort_entries
length-sort_entries [] = refl
length-sort_entries (e ∷ es) =
    omega (arith, length-insert_entry e (sort_entries es), length-sort_entries es)

pub sort_entries-perm : (es : List Entry) → Perm (sort_entries es) es
unfolding sort_entries
sort_entries-perm [] = Perm.rfl
sort_entries-perm (e ∷ es) =
    Perm.trans (insert_entry-perm e (sort_entries es)) (Perm.cons e (sort_entries-perm es))

find_duplicate-rest :
    (e f : Entry) (es : List Entry)
    → AtMost e.key f.key
    → find_duplicate (e ∷ f ∷ es) ≡ none
    → Below e.key f.key × (find_duplicate (f ∷ es) ≡ none)
unfolding find_duplicate
find_duplicate-rest e f es (inl c) h = absurd (ground arith)
find_duplicate-rest e f es (inr c) h = (c, ground arith)

-- Sorted entries with no duplicate next to one another have none at all.
pub find_duplicate-IsAscending :
    (es : List Entry) → IsSorted es → find_duplicate es ≡ none → IsAscending es
find_duplicate-IsAscending [] s h = tt
find_duplicate-IsAscending (e ∷ []) s h = (tt, tt)
find_duplicate-IsAscending (e ∷ f ∷ es) s h =
    let (below, h') = find_duplicate-rest e f es s.0.0 h in
    let rest = find_duplicate-IsAscending (f ∷ es) s.1 h' in
    ((below, Above-Below e.key f.key es below rest.0), rest)

-- A duplicate that is reported stands twice in the sorted entries, side by side.
pub find_duplicate-found :
    (es : List Entry) {k : Bytes}
    → find_duplicate es ≡ some k
    → (xs ys : List Entry) × (e f : Entry) × (es ≡ xs ++ (e ∷ f ∷ ys)) × (e.key ≡ k) × (f.key ≡ k)
unfolding find_duplicate
find_duplicate-found [] h = absurd (ground arith)
find_duplicate-found (e ∷ []) h = absurd (ground arith)
find_duplicate-found (e ∷ f ∷ es) {k} h = elim (Ordering-cases (strcmp e.key f.key)) [
  | inl c ↦
      let found : f.key ≡ k = ground arith in
      ([], es, e, f, refl, eq-strcmp e.key f.key c ∙ found, found)
  | inr c ↦
      let (xs, ys, a, b, split, p, q) = find_duplicate-found (f ∷ es) {k = k} (ground arith) in
      (e ∷ xs, ys, a, b, ap (◌∷◌ e) split, p, q)
]
