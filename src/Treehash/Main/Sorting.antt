-- ===== src/Treehash/Main/Sorting.antt =====
-- The sort of the entries.
use mathlib.Core.List.{Perm}
use mathlib.Core.List.Perm
use linux_utilities.Common.{
  ◌≡◌, ◌≢◌, refl, sym, subst, List, [], ◌∷◌, All, Ordering, strcmp, strcmp_flip, Ordering-cases,
  ◌⊎◌, inl, inr, arith,
}
use linux_utilities.Treehash.Main.{insert_entry, sort_entries}
use linux_utilities.Treehash.Merkle.{FileEntry}

-- The first of the entries, if there is one, is not before this one.
abbrev pub StartsAfter : FileEntry → List FileEntry → Type 0
StartsAfter e [] = Unit
StartsAfter e (f ∷ entries) = strcmp e.rel_path f.rel_path ≢ Ordering.gt

-- In the order of their paths.
abbrev pub IsOrdered : List FileEntry → Type 0
IsOrdered [] = Unit
IsOrdered (e ∷ entries) = StartsAfter e entries × IsOrdered entries

insert_after :
    (e f : FileEntry) (entries : List FileEntry)
    → strcmp e.rel_path f.rel_path ≡ Ordering.gt
    → insert_entry e (f ∷ entries) ≡ f ∷ insert_entry e entries
unfolding insert_entry
insert_after e f entries c = rw (insert_entry, c) refl

insert_before :
    (e f : FileEntry) (entries : List FileEntry)
    → (strcmp e.rel_path f.rel_path ≡ Ordering.eq) ⊎ (strcmp e.rel_path f.rel_path ≡ Ordering.lt)
    → insert_entry e (f ∷ entries) ≡ e ∷ f ∷ entries
unfolding insert_entry
insert_before e f entries (inl c) = rw (insert_entry, c) refl
insert_before e f entries (inr c) = rw (insert_entry, c) refl

-- Where an entry goes: at the front, or behind the first.
record IsFirst (e f : FileEntry) (entries : List FileEntry) : Type 0 where
  placed : insert_entry e (f ∷ entries) ≡ e ∷ f ∷ entries
  before : strcmp e.rel_path f.rel_path ≢ Ordering.gt

record IsLater (e f : FileEntry) (entries : List FileEntry) : Type 0 where
  placed : insert_entry e (f ∷ entries) ≡ f ∷ insert_entry e entries
  after : strcmp f.rel_path e.rel_path ≢ Ordering.gt

placing : (e f : FileEntry) (entries : List FileEntry) → IsFirst e f entries ⊎ IsLater e f entries
placing e f entries = elim (Ordering-cases (strcmp e.rel_path f.rel_path)) [
  | inl c ↦ inl (record {
    placed = insert_before e f entries (inl c);
    before = λ g. absurd (ground (arith, c, g));
  })
  | inr (inl c) ↦ inl (record {
    placed = insert_before e f entries (inr c);
    before = λ g. absurd (ground (arith, c, g));
  })
  | inr (inr c) ↦ inr (record {
    placed = insert_after e f entries c;
    after = λ g. absurd (ground (arith, g, strcmp_flip e.rel_path f.rel_path c));
  })
]

insert_entry-StartsAfter :
    (f e : FileEntry) (entries : List FileEntry)
    → StartsAfter f entries
    → strcmp f.rel_path e.rel_path ≢ Ordering.gt
    → StartsAfter f (insert_entry e entries)
unfolding insert_entry
insert_entry-StartsAfter f e [] starts least = least
insert_entry-StartsAfter f e (g ∷ entries) starts least = elim (placing e g entries) [
  | inl p ↦ subst (StartsAfter f) (sym p.placed) least
  | inr p ↦ subst (StartsAfter f) (sym p.placed) starts
]

insert_entry-IsOrdered :
    (e : FileEntry) (entries : List FileEntry)
    → IsOrdered entries
    → IsOrdered (insert_entry e entries)
unfolding insert_entry
insert_entry-IsOrdered e [] ordered = (tt, tt)
insert_entry-IsOrdered e (f ∷ entries) (starts, ordered) =
    let rest = insert_entry-IsOrdered e entries ordered in
    elim (placing e f entries) [
      | inl p ↦ subst IsOrdered (sym p.placed) (p.before, (starts, ordered))
      | inr p ↦
          subst IsOrdered (sym p.placed) (insert_entry-StartsAfter f e entries starts p.after, rest)
    ]

pub sort_entries-IsOrdered : (entries : List FileEntry) → IsOrdered (sort_entries entries)
unfolding sort_entries
sort_entries-IsOrdered [] = tt
sort_entries-IsOrdered (e ∷ entries) =
    insert_entry-IsOrdered e (sort_entries entries) (sort_entries-IsOrdered entries)

insert_entry-All :
    (P : FileEntry → Type 0) (e : FileEntry) (entries : List FileEntry)
    → P e
    → All P entries
    → All P (insert_entry e entries)
unfolding insert_entry
insert_entry-All P e [] p all = (p, tt)
insert_entry-All P e (f ∷ entries) p (q, all) =
    let rest = insert_entry-All P e entries p all in
    elim (placing e f entries) [
      | inl place ↦ subst (All P) (sym place.placed) (p, (q, all))
      | inr place ↦ subst (All P) (sym place.placed) (q, rest)
    ]

pub sort_entries-All :
    (P : FileEntry → Type 0) (entries : List FileEntry)
    → All P entries
    → All P (sort_entries entries)
unfolding sort_entries
sort_entries-All P [] all = tt
sort_entries-All P (e ∷ entries) (p, all) =
    insert_entry-All P e (sort_entries entries) p (sort_entries-All P entries all)

insert_entry-perm :
    (e : FileEntry) (entries : List FileEntry) → Perm (insert_entry e entries) (e ∷ entries)
unfolding insert_entry
insert_entry-perm e [] = Perm.refl (e ∷ [])
insert_entry-perm e (f ∷ entries) =
    let rest = insert_entry-perm e entries in
    elim (placing e f entries) [
      | inl place ↦
          subst (λ t. Perm t (e ∷ f ∷ entries)) (sym place.placed) (Perm.refl (e ∷ f ∷ entries))
      | inr place ↦
          subst (λ t. Perm t (e ∷ f ∷ entries)) (sym place.placed)
            (Perm.trans (Perm.cons f rest) (Perm.swap e f entries))
    ]

pub sort_entries-perm : (entries : List FileEntry) → Perm (sort_entries entries) entries
unfolding sort_entries
sort_entries-perm [] = Perm.refl []
sort_entries-perm (e ∷ entries) =
    Perm.trans (insert_entry-perm e (sort_entries entries))
      (Perm.cons e (sort_entries-perm entries))
