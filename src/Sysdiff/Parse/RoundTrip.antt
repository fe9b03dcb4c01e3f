-- ===== src/Sysdiff/Parse/RoundTrip.antt =====
-- The parse of a snapshot that is written out record by record, in any order.
pub mod Loops
pub mod Records
use mathlib.Core.List.{Perm}
use mathlib.Core.List.Perm
use linux_utilities.Common.{
  ℕ, suc, ◌+◌, ◌*◌, ◌≤◌, ◌<◌, ◌≡◌, ◌⊎◌, inl, inr, refl, sym, ap, ◌∙◌, Bool, false, List, [], ◌∷◌,
  ◌++◌, Option, none, some, All, Option-cases, length, length-append, arith, Bytes,
}
use linux_utilities.Common.Memory.{Memory}
use linux_utilities.Sysdiff.Diagnostic.{duplicate_key}
use linux_utilities.Sysdiff.Line.{Reader, max_snapshot_bytes}
use linux_utilities.Sysdiff.Snapshot.{
  Entry, Snapshot, sort_entries, find_duplicate, max_snapshot_entries,
}
use linux_utilities.Sysdiff.Snapshot.Ascending.{IsAscending}
use linux_utilities.Sysdiff.Snapshot.Sorted.{
  sort_entries-IsSorted, sort_entries-perm, find_duplicate-IsAscending, find_duplicate-found,
}
use linux_utilities.Sysdiff.Parse.{
  opened, Loop, ended, stopped, parse_loop, finish_parse, parse_snapshot, empty_snapshot,
}
use linux_utilities.Sysdiff.Parse.Sound.{IsRecord}
use linux_utilities.Sysdiff.Parse.RoundTrip.Records.{Row, IsRow, render}
use linux_utilities.Sysdiff.Parse.RoundTrip.Loops.{
  Ready, Ended, entries, parse_loop-Ended, length-render,
}

-- The parse of some records: all of them in ascending order, or a key that two of them share.
abbrev pub Reads : Bytes → List Entry → Loop → Type 0
Reads path es l =
    ((s : Snapshot) × (l ≡ ended s) × IsAscending s.items × Perm s.items es)
    ⊎ ((k : Bytes) × (l ≡ stopped (duplicate_key path k))
        × (xs ys : List Entry) × (e f : Entry) × Perm (xs ++ (e ∷ f ∷ ys)) es
        × (e.key ≡ k)
        × (f.key ≡ k))

length-le-render : (rows : List Row) → length rows ≤ length (render rows)
length-le-render [] = omega arith
length-le-render (r ∷ rows) = omega (arith, length-le-render rows, length-render r rows)

finish_parse-Reads :
    (path : Bytes) (es : List Entry) (l : Loop)
    → Ended es l
    → Reads path es (finish_parse path none l)
unfolding finish_parse
finish_parse-Reads path es l h = elim (Option-cases (find_duplicate (sort_entries es))) [
  | inl unique ↦ inl (
    record h.stored { items = sort_entries es },
    rw (h.ended_is) (ground (arith, h.items_are)),
    find_duplicate-IsAscending (sort_entries es) (sort_entries-IsSorted es) unique,
    sort_entries-perm es,
  )
  | inr (k, twice) ↦
      let (xs, ys, e, f, split, p, q) = find_duplicate-found (sort_entries es) {k = k} twice in
      inr (
        k,
        rw (h.ended_is) (ground (arith, h.items_are)),
        xs,
        ys,
        e,
        f,
        rw split at (sort_entries-perm es),
        p,
        q,
      )
]

-- A file that holds valid records, in any order, one to a line that ends in a newline or in a
-- carriage return and a newline, the latter where the value ends in a carriage return, within the
-- limits and with enough memory, is read as exactly these records in ascending order of their keys,
-- or it is refused for a key that two of its records share.
pub parse_snapshot-render :
    (path : Bytes) (rows : List Row) (memory : Memory)
    → All IsRow rows
    → length rows ≤ max_snapshot_entries
    → length (render rows) ≤ max_snapshot_bytes
    → 2 * length (render rows) ≤ memory
    → Reads path (entries rows) (parse_snapshot path (opened (render rows) false none) memory)
unfolding parse_snapshot
parse_snapshot-render path rows memory valid few small enough =
    let start : Reader = record {
      unread = render rows;
      failing = false;
      total_bytes = 0;
      memory = memory;
    } in
    finish_parse-Reads path (entries rows) _ (
      parse_loop-Ended rows (suc (length (render rows))) path 0 empty_snapshot start
        (omega (arith, length-le-render rows)) valid
        (record {
          unread_is = refl;
          no_failure = refl;
          within_total = omega arith;
          enough = omega arith;
        })
        (omega arith) (omega arith) (omega arith))
