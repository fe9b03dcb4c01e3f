-- ===== src/Sysdiff/Diff/Semantics.antt =====
-- What the report of two finite maps says.
use linux_utilities.Common.{◌-◌, ◌≤◌, ◌≡◌, refl, ◌++◌, List, some, true, length, Bytes}
use linux_utilities.Common.Stdio.{Stream}
use linux_utilities.Sysdiff.Snapshot.{Entry}
use linux_utilities.Sysdiff.Snapshot.Ascending.{IsAscending, find}
use linux_utilities.Sysdiff.Diff.{emit_diff}
use linux_utilities.Sysdiff.Diff.Changes.{Change, diff, change_at, compared, change_at-diff}
use linux_utilities.Sysdiff.Diff.Order.{IsReport, diff-IsReport}
use linux_utilities.Sysdiff.Diff.Report.{diff_text, emit_diff_reports}

-- A list of changes that tells two snapshots apart: in strictly ascending order of the keys, and of
-- every key it says exactly whether it was added, was removed or has another value.
pub record Tells (before after : List Entry) (cs : List Change) : Type 0 where
  pub ordered : IsReport cs
  pub exact : (k : Bytes) → change_at k cs ≡ compared k (find k before) (find k after)

-- For two snapshots with strictly ascending keys, and a standard output that takes the report,
-- `emit_diff` appends to it the text of changes that are in strictly ascending order of their keys
-- and that say of every key exactly whether it was added, was removed or has another value.
pub emit_diff-Tells :
    (before after : List Entry) (s : Stream)
    → IsAscending before
    → IsAscending after
    → length (diff_text (diff before after)) ≤ s.room
    → s.flushes ≡ true
    → (cs : List Change) × (s' : Stream) × ((emit_diff before after s).out ≡ some s')
      × (s'.written ≡ s.written ++ diff_text cs)
      × Tells before after cs
emit_diff-Tells before after s p q fits ok = (
  diff before after,
  record s {
    written = s.written ++ diff_text (diff before after);
    room = s.room - length (diff_text (diff before after));
  },
  (emit_diff_reports before after s fits ok).1,
  refl,
  record {
    ordered = diff-IsReport before after p q;
    exact = λ k. change_at-diff k before after p q;
  },
)
