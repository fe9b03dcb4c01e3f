-- ===== src/Sysdiff/Parse/RoundTrip/Loops.antt =====
-- The loop on records that are written out.
use linux_utilities.Common.{
  ℕ, zero, suc, ◌+◌, ◌*◌, ◌≤◌, ◌<◌, ◌≡◌, refl, sym, ap, ◌∙◌, false, List, [], ◌∷◌, ◌++◌, All,
  length, length-append, append_assoc, append-nil, arith, Bytes,
}
use linux_utilities.Common.Memory.{Memory}
use linux_utilities.Sysdiff.Line.{line_ok, line_eof, Reader, read_line, max_snapshot_bytes}
use linux_utilities.Sysdiff.Line.Complete.{read_line-Read, read_line_end}
use linux_utilities.Sysdiff.Snapshot.{Entry, Snapshot, max_snapshot_entries}
use linux_utilities.Sysdiff.Parse.{going, Loop, ended, parse_line, parse_loop}
use linux_utilities.Sysdiff.Parse.RoundTrip.Records.{
  Row, row_body, render, IsRow, row_length, record-IsClean, valid_key_length, parse_line-Added,
}

-- The reader before some records, with enough left to read them.
pub record Ready (rows : List Row) (r : Reader) : Type 0 where
  pub unread_is : r.unread ≡ render rows
  pub no_failure : r.failing ≡ false
  pub within_total : r.total_bytes + length (render rows) ≤ max_snapshot_bytes
  pub enough : 2 * length (render rows) ≤ r.memory

-- The loop has ended with the records behind those that were there.
pub record Ended (items : List Entry) (l : Loop) : Type 0 where
  pub stored : Snapshot
  pub ended_is : l ≡ ended stored
  pub items_are : stored.items ≡ items

pub length-render :
    (r : Row) (rows : List Row)
    → length (render (r ∷ rows)) ≡ length (row_body r) + 1 + length (render rows)
unfolding render
length-render r rows = omega (arith, length-append (row_body r) (b'\n' ∷ render rows))

render-cons : (r : Row) (rows : List Row) → render (r ∷ rows) ≡ row_body r ++ b'\n' ∷ render rows
unfolding render
render-cons r rows = refl

module _ (fuel : ℕ) (path : Bytes) (line_no : ℕ) (s : Snapshot) (r : Reader) where
  parse_loop_eof :
      (read_line r).status ≡ line_eof → parse_loop (suc fuel) path line_no s r ≡ ended s
  unfolding parse_loop
  parse_loop_eof h = ground arith

  parse_loop_step :
      (s' : Snapshot) (m : Memory)
      → (read_line r).status ≡ line_ok
      → parse_line path (line_no + 1) s (read_line r).line (read_line r).reader.memory ≡ going s' m
      → parse_loop (suc fuel) path line_no s r
        ≡ parse_loop fuel path (line_no + 1) s' (record (read_line r).reader { memory = m })
  unfolding parse_loop
  parse_loop_step s' m h k = ground arith

-- Reading the first record.
record Step (row : Row) (rows : List Row) (fuel : ℕ) (path : Bytes) (line_no : ℕ) (s : Snapshot)
    (r : Reader) : Type 0 where
  stored : Snapshot
  next : Reader
  step_is : parse_loop (suc fuel) path line_no s r ≡ parse_loop fuel path (line_no + 1) stored next
  items_are : stored.items ≡ s.items ++ row.entry ∷ []
  in_array : length stored.items ≤ stored.cap
  within : stored.cap ≤ max_snapshot_entries
  ready : Ready rows next

parse_loop-Step :
    (row : Row) (rows : List Row) (fuel : ℕ) (path : Bytes) (line_no : ℕ) (s : Snapshot)
    (r : Reader)
    → IsRow row
    → Ready (row ∷ rows) r
    → length s.items ≤ s.cap
    → s.cap ≤ max_snapshot_entries
    → length s.items < max_snapshot_entries
    → Step row rows fuel path line_no s r
parse_loop-Step row rows fuel path line_no s r is_row ready fits within room =
    let rec = is_row.is_record in
    let total = length-render row rows in
    let sized = row_length row in
    let at_most = sized.at_most in
    let at_least = sized.at_least in
    let nonzero = valid_key_length row.entry.key rec.key_valid in
    let t =
      read_line-Read (row_body row) (render rows) r (ready.unread_is ∙ render-cons row rows)
        (record-IsClean row.entry row.ending rec) (omega (arith, rec.line_short))
        (omega (arith, ready.within_total)) (omega (arith, ready.enough)) in
    let memory = (read_line r).reader.memory in
    let a =
      parse_line-Added path (line_no + 1) s row memory is_row fits within room
        (omega (arith, ready.enough, t.memory_left)) in
    record {
      stored = a.stored;
      next = record (read_line r).reader { memory = a.left };
      step_is =
          parse_loop_step fuel path line_no s r a.stored a.left t.status_is
            (rw t.line_is a.going_is);
      items_are = a.items_are;
      in_array = a.in_array;
      within = a.within;
      ready = record {
        unread_is = t.unread_is;
        no_failure = t.failing_is ∙ ready.no_failure;
        within_total = omega (arith, t.total_is, ready.within_total);
        enough = omega (arith, ready.enough, t.memory_left, a.cost);
      };
    }

-- The records of the rows.
unfoldable pub entries : List Row → List Entry
entries [] = []
entries (row ∷ rows) = row.entry ∷ entries rows

pub parse_loop-Ended :
    (rows : List Row) (fuel : ℕ) (path : Bytes) (line_no : ℕ) (s : Snapshot) (r : Reader)
    → length rows < fuel
    → All IsRow rows
    → Ready rows r
    → length s.items ≤ s.cap
    → s.cap ≤ max_snapshot_entries
    → length s.items + length rows ≤ max_snapshot_entries
    → Ended (s.items ++ entries rows) (parse_loop fuel path line_no s r)
unfolding entries
parse_loop-Ended rows zero path line_no s r f rs ready fits within room = absurd (omega arith)
parse_loop-Ended [] (suc fuel) path line_no s r f rs ready fits within room = record {
  stored = s;
  ended_is =
      parse_loop_eof fuel path line_no s r
        (read_line_end r (unfold render in ready.unread_is) ready.no_failure);
  items_are = sym (append-nil s.items);
}
parse_loop-Ended (row ∷ rows) (suc fuel) path line_no s r f rs ready fits within room =
    let t = parse_loop-Step row rows fuel path line_no s r rs.0 ready fits within (omega arith) in
    let grown : length t.stored.items ≡ length s.items + 1 =
      ap length t.items_are ∙ length-append s.items (row.entry ∷ []) in
    let rest =
      parse_loop-Ended rows fuel path (line_no + 1) t.stored t.next (omega arith) rs.1 t.ready
        t.in_array t.within (omega arith) in
    record {
      stored = rest.stored;
      ended_is = t.step_is ∙ rest.ended_is;
      items_are =
          rest.items_are ∙ rw t.items_are (append_assoc s.items (row.entry ∷ []) (entries rows));
    }
