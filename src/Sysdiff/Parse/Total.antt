-- ===== src/Sysdiff/Parse/Total.antt =====
-- The fuel of `parse_snapshot`.
use linux_utilities.Common.{
  ℕ, zero, suc, ◌+◌, ◌≤◌, ◌<◌, ◌≡◌, ◌≢◌, refl, Option, none, some, length, arith, Bytes,
}
use linux_utilities.Common.Memory.{Memory}
use linux_utilities.Sysdiff.Line.{LineStatus, line_ok, Reader, read_line, max_snapshot_bytes}
use linux_utilities.Sysdiff.Line.Sound.{read_line_shortens}
use linux_utilities.Sysdiff.Snapshot.{Snapshot}
use linux_utilities.Sysdiff.Parse.{
  File, missing, opened, Loop, ended, stopped, out_of_fuel, Parsed, going, failed, parse_line,
  parse_loop, finish_parse, parse_snapshot, empty_snapshot,
}

pub parse_loop_total :
    (fuel : ℕ) (path : Bytes) (line_no : ℕ) (s : Snapshot) (r : Reader)
    → r.total_bytes ≤ max_snapshot_bytes
    → length r.unread < fuel
    → parse_loop fuel path line_no s r ≢ out_of_fuel
unfolding parse_loop
parse_loop_total zero path line_no s r room enough h = absurd (omega arith)
parse_loop_total (suc fuel) path line_no s r room enough h = go (read_line r).status refl (λ s1 m.
    parse_loop_total fuel path (line_no + 1) s1 (record (read_line r).reader { memory = m }))
  where
    next : Reader
    next = (read_line r).reader

    Later : Type 0
    Later =
        (s1 : Snapshot) (m : ℕ)
        → next.total_bytes ≤ max_snapshot_bytes
        → length next.unread < fuel
        → parse_loop fuel path (line_no + 1) s1 (record next { memory = m }) ≢ out_of_fuel

    stored :
        (p : Parsed)
        → (read_line r).status ≡ line_ok
        → parse_line path (line_no + 1) s (read_line r).line next.memory ≡ p
        → Later
        → ⊥
    stored (going s1 m) e f ih =
        let (shorter, total) = read_line_shortens r room e in
        ih s1 m total (omega arith) (ground arith)
    stored (failed d) e f ih = absurd (ground arith)

    go : (st : LineStatus) → (read_line r).status ≡ st → Later → ⊥
    go line_ok e ih =
        stored (parse_line path (line_no + 1) s (read_line r).line next.memory) e refl ih
    go _ e ih = absurd (ground arith)

finish_parse_total :
    (path : Bytes) (closes : Option ℕ) (loop : Loop)
    → loop ≢ out_of_fuel
    → finish_parse path closes loop ≢ out_of_fuel
unfolding finish_parse
finish_parse_total path closes (stopped d) ne h = cc
finish_parse_total path closes out_of_fuel ne h = ne refl
finish_parse_total path (some e) (ended s) ne h = cc
finish_parse_total path none (ended s) ne h = ground arith

-- Every parse ends, with a snapshot or with a diagnostic, whatever the file, its length and the
-- allocator.
pub parse_snapshot_total :
    (path : Bytes) (file : File) (memory : Memory) → parse_snapshot path file memory ≢ out_of_fuel
unfolding parse_snapshot
parse_snapshot_total path (missing e) memory h = cc
parse_snapshot_total path (opened bytes failing closes) memory h =
    finish_parse_total path closes _
      (parse_loop_total (suc (length bytes)) path 0 empty_snapshot
        (record { unread = bytes; failing = failing; total_bytes = 0; memory = memory })
        (omega arith) (omega arith))
      h
