-- ===== src/Sysdiff/Parse.antt =====
-- src/sysdiff.c: `parse_snapshot`.
pub mod Lines
pub mod RoundTrip
pub mod Sound
pub mod Total
use linux_utilities.Common.{
  ℕ, zero, suc, ◌+◌, Bool, true, false, ◌||◌, List, [], ◌∷◌, Option, none, some, ltb, ◌==◌,
  if◌then◌else◌, length, take, drop, Bytes,
}
use linux_utilities.Common.Memory.{Memory, allocate, checked_size_add}
use linux_utilities.Sysdiff.Diagnostic.{
  Diagnostic, cannot_open, close_failed, embedded_nul, line_length_limit, byte_limit, read_error,
  allocation_failure, missing_separator, empty_key, invalid_key_syntax, entry_limit, duplicate_key,
}
use linux_utilities.Sysdiff.Key.{is_blank_line, is_comment_line, is_valid_key, ends_with}
use linux_utilities.Sysdiff.Line.{
  LineStatus, line_ok, line_eof, line_embedded_nul, line_too_long, line_byte_limit, line_read_error,
  line_alloc_error, Reader, LineResult, read_line, max_line_bytes,
}
use linux_utilities.Sysdiff.Snapshot.{
  Entry, Snapshot, AppendResult, append_ok, append_entry_limit, append_alloc_error, snapshot_append,
  sort_entries, find_duplicate,
}

-- What `fopen` finds at a path: an `errno`, or the bytes, whether reading them ends by an error, and
-- the `errno` of a failing `fclose`.
pub data File : Type 0 where
  missing : ℕ → File
  opened : Bytes → Bool → Option ℕ → File

-- `copy_range` of the bytes `text`; `none` is a null pointer.
unfoldable pub copy_range : Bytes → Memory → Option Bytes × Memory
unfolding allocate checked_size_add
copy_range text memory =
    if ltb max_line_bytes (length text)
    then (none, memory)
    else elim (checked_size_add (length text) 1) [
      | none ↦ (none, memory)
      | some size ↦ elim (allocate memory) [ none ↦ (none, memory) | some m ↦ (some text, m) ]
    ]

unfoldable pub drop_last : Bytes → Bytes
drop_last [] = []
drop_last (c ∷ []) = []
drop_last (c ∷ d ∷ line) = c ∷ drop_last (d ∷ line)

-- The line without `\n` or `\r\n`.
unfoldable pub strip_ending : Bytes → Bytes
unfolding ends_with drop_last
strip_ending line =
    if ends_with b'\n' line
    then (let rest = drop_last line in if ends_with b'\r' rest then drop_last rest else rest)
    else line

-- `strchr`, as an index.
unfoldable pub index_of : ℕ → Bytes → Option ℕ
index_of c [] = none
index_of c (x ∷ line) =
    let rest = index_of c line in
    if x == c then some 0 else elim rest [ none ↦ none | some i ↦ some (suc i) ]

-- What one line does to the snapshot.
pub data Parsed : Type 0 where
  going : Snapshot → Memory → Parsed
  failed : Diagnostic → Parsed

-- From the copies to the stored entry.
unfoldable pub store_entry : Bytes → ℕ → Snapshot → Option Bytes → Option Bytes → Memory → Parsed
store_entry path line_no snapshot (some key) (some value) memory =
    elim (snapshot_append snapshot key value memory) [
      | append_ok stored m ↦ going stored m
      | append_entry_limit ↦ failed (entry_limit path line_no)
      | append_alloc_error ↦ failed (allocation_failure path line_no)
    ]
store_entry path line_no snapshot _ _ memory = failed (allocation_failure path line_no)

-- A line with a separator at `key_len`, which is not 0.
unfoldable pub parse_record : Bytes → ℕ → Snapshot → Bytes → ℕ → Memory → Parsed
parse_record path line_no snapshot line key_len memory =
    if is_valid_key (take key_len line)
    then (let (key, m) = copy_range (take key_len line) memory in
        let (value, m') = copy_range (drop (key_len + 1) line) m in
        store_entry path line_no snapshot key value m')
    else failed (invalid_key_syntax path line_no)

-- The loop's body behind `read_line`, for the line as it was read.
unfoldable pub parse_line : Bytes → ℕ → Snapshot → Bytes → Memory → Parsed
parse_line path line_no snapshot raw memory =
    let line = strip_ending raw in
    if ltb max_line_bytes (length line)
    then failed (line_length_limit path line_no)
    else if is_blank_line line || is_comment_line line
    then going snapshot memory
    else elim (index_of b'=' line) [
      | none ↦ failed (missing_separator path line_no)
      | some zero ↦ failed (empty_key path line_no)
      | some (suc i) ↦ parse_record path line_no snapshot line (suc i) memory
    ]

-- The `for (;;)` on fuel, one unit for each call of `read_line`.
pub data Loop : Type 0 where
  ended : Snapshot → Loop
  stopped : Diagnostic → Loop
  out_of_fuel : Loop

unfoldable pub parse_loop : ℕ → Bytes → ℕ → Snapshot → Reader → Loop
unfolding read_line parse_line
parse_loop zero path line_no snapshot reader = out_of_fuel
parse_loop (suc fuel) path line_no snapshot reader =
    let result = read_line reader in
    let r = result.reader in
    elim result.status [
      | line_eof ↦ ended snapshot
      | line_embedded_nul ↦ stopped (embedded_nul path (line_no + 1))
      | line_too_long ↦ stopped (line_length_limit path (line_no + 1))
      | line_byte_limit ↦ stopped (byte_limit path (line_no + 1))
      | line_read_error ↦ stopped (read_error path (line_no + 1))
      | line_alloc_error ↦ stopped (allocation_failure path (line_no + 1))
      | line_ok ↦ elim (parse_line path (line_no + 1) snapshot result.line r.memory) [
        | failed d ↦ stopped d
        | going stored m ↦ parse_loop fuel path (line_no + 1) stored (record r { memory = m })
      ]
    ]

abbrev empty_snapshot : Snapshot
empty_snapshot = record { items = []; cap = 0 }

-- Behind the loop: `fclose`, the sort and the search for duplicates.
unfoldable pub finish_parse : Bytes → Option ℕ → Loop → Loop
unfolding sort_entries find_duplicate
finish_parse path closes (stopped d) = stopped d
finish_parse path closes out_of_fuel = out_of_fuel
finish_parse path (some err) (ended snapshot) = stopped (close_failed path err)
finish_parse path none (ended snapshot) =
    let items = sort_entries snapshot.items in
    elim (find_duplicate items) [
      | some key ↦ stopped (duplicate_key path key)
      | none ↦ ended (record snapshot { items = items })
    ]

unfoldable pub parse_snapshot : Bytes → File → Memory → Loop
unfolding parse_loop finish_parse
parse_snapshot path (missing err) memory = stopped (cannot_open path err)
parse_snapshot path (opened bytes failing closes) memory = finish_parse path closes (
    parse_loop (suc (length bytes)) path 0 empty_snapshot
      (record { unread = bytes; failing = failing; total_bytes = 0; memory = memory }))
