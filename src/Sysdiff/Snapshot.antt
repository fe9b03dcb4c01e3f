-- ===== src/Sysdiff/Snapshot.antt =====
-- src/sysdiff.c: the entries of a snapshot, the growing array that holds them, the sort and the
-- search for duplicates.
pub mod Ascending
pub mod Append
pub mod Sorted
use linux_utilities.Common.{
  ℕ, ◌*◌, ◌/◌, Bool, List, [], ◌∷◌, ◌++◌, Option, none, some, ltb, leb, ◌==◌, not, ◌&&◌,
  if◌then◌else◌, Ordering, strcmp, length, Bytes,
}
use linux_utilities.Common.Memory.{Memory, size_max, allocate, checked_size_mul}

abbrev pub max_snapshot_entries : ℕ
max_snapshot_entries = 65536

pub record Entry : Type 0 where
  pub key : Bytes
  pub value : Bytes

-- `len` is the length of `items`.
pub record Snapshot : Type 0 where
  pub items : List Entry
  pub cap : ℕ

pub data AppendResult : Type 0 where
  append_ok : Snapshot → Memory → AppendResult
  append_entry_limit append_alloc_error : AppendResult

-- `sizeof(struct Entry)`: two pointers.
abbrev sizeof_entry : ℕ
sizeof_entry = 16

-- The capacity behind the reallocation, none if it cannot be had.
grow_items : ℕ → Memory → Option (ℕ × Memory)
unfolding allocate checked_size_mul
grow_items cap memory =
    let doubled : ℕ = if cap == 0 then 8 else cap * 2 in
    let new_cap : ℕ = if ltb max_snapshot_entries doubled then max_snapshot_entries else doubled in
    if not (cap == 0) && ltb (size_max / 2) cap
    then none
    else if leb new_cap cap
    then none
    else elim (checked_size_mul new_cap sizeof_entry) [
      | none ↦ none
      | some size ↦ elim (allocate memory) [ none ↦ none | some m ↦ some (new_cap, m) ]
    ]

unfoldable pub snapshot_append : Snapshot → Bytes → Bytes → Memory → AppendResult
unfolding grow_items
snapshot_append snapshot key value memory =
    let stored : ℕ → Memory → AppendResult = λ cap m.
      append_ok
        (record { items = snapshot.items ++ (record { key = key; value = value }) ∷ []; cap = cap })
        m in
    if leb max_snapshot_entries (length snapshot.items)
    then append_entry_limit
    else if length snapshot.items == snapshot.cap
    then elim (grow_items snapshot.cap memory) [
      | none ↦ append_alloc_error
      | some (cap, m) ↦ stored cap m
    ]
    else stored snapshot.cap memory

unfoldable pub compare_entries_by_key : Entry → Entry → Ordering
unfolding strcmp
compare_entries_by_key left right = strcmp left.key right.key

-- `qsort` by that comparison. Which of two entries with one key comes first is left open in C, and
-- such a snapshot is refused.
insert_entry : Entry → List Entry → List Entry
unfolding compare_entries_by_key
insert_entry e [] = e ∷ []
insert_entry e (x ∷ items) =
    let rest = insert_entry e items in
    elim (compare_entries_by_key e x) [ Ordering.gt ↦ x ∷ rest | _ ↦ e ∷ x ∷ items ]

unfoldable pub sort_entries : List Entry → List Entry
unfolding insert_entry
sort_entries [] = []
sort_entries (e ∷ items) = insert_entry e (sort_entries items)

-- The key of the first entry that has the key of the one before it.
unfoldable pub find_duplicate : List Entry → Option Bytes
unfolding strcmp
find_duplicate [] = none
find_duplicate (e ∷ []) = none
find_duplicate (e ∷ f ∷ items) =
    let rest = find_duplicate (f ∷ items) in
    elim (strcmp e.key f.key) [ Ordering.eq ↦ some f.key | _ ↦ rest ]
