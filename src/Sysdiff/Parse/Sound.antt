-- ===== src/Sysdiff/Parse/Sound.antt =====
-- The snapshots that `parse_snapshot` accepts.
use linux_utilities.Common.{
  ℕ, zero, suc, ◌+◌, ◌≤◌, ◌<◌, ◌≡◌, ◌⊎◌, inl, inr, refl, subst, ◌||◌, true, false, [], ◌∷◌, Option,
  none, some, All, All-append, Bool-cases, length, take, drop, arith, Bytes,
}
use linux_utilities.Common.Memory.{Memory}
use linux_utilities.Sysdiff.Key.{is_valid_key, is_blank_line, is_comment_line}
use linux_utilities.Sysdiff.Line.{
  LineStatus, line_ok, line_eof, Reader, read_line, max_line_bytes, max_snapshot_bytes,
}
use linux_utilities.Sysdiff.Line.Sound.{IsClean, read_line_sound}
use linux_utilities.Sysdiff.Snapshot.{
  Entry, Snapshot, append_ok, snapshot_append, sort_entries, find_duplicate, max_snapshot_entries,
}
use linux_utilities.Sysdiff.Snapshot.Append.{snapshot_append_ok}
use linux_utilities.Sysdiff.Snapshot.Ascending.{IsAscending}
use linux_utilities.Sysdiff.Snapshot.Sorted.{
  All-sort_entries, length-sort_entries, sort_entries-IsSorted, find_duplicate-IsAscending,
}
use linux_utilities.Sysdiff.Parse.{
  File, missing, opened, Loop, ended, stopped, out_of_fuel, Parsed, going, failed, copy_range,
  store_entry, parse_record, strip_ending, index_of, parse_line, parse_loop, finish_parse,
  parse_snapshot, empty_snapshot,
}
use linux_utilities.Sysdiff.Parse.Lines.{IsClean-strip_ending, All-drop, index_of-lt, split_length}

-- A record that the format allows.
pub record IsRecord (e : Entry) : Type 0 where
  pub key_valid : is_valid_key e.key ≡ true
  pub value_clean : IsClean e.value
  pub line_short : length e.key + 1 + length e.value ≤ max_line_bytes

-- The growing array.
pub record IsSnapshot (s : Snapshot) : Type 0 where
  pub records : All IsRecord s.items
  pub in_array : length s.items ≤ s.cap
  pub within_entries : s.cap ≤ max_snapshot_entries

copy_range-some :
    (text : Bytes) (memory : Memory) {t : Bytes} → (copy_range text memory).0 ≡ some t → t ≡ text
unfolding copy_range
copy_range-some text memory h = ground arith

snapshot_append-IsSnapshot :
    (s : Snapshot) (key value : Bytes) (memory : Memory) {s' : Snapshot} {m : Memory}
    → IsSnapshot s
    → IsRecord (record { key = key; value = value })
    → snapshot_append s key value memory ≡ append_ok s' m
    → IsSnapshot s'
snapshot_append-IsSnapshot s key value memory i r h =
    let (items, fits, within) =
      snapshot_append_ok s key value memory i.in_array i.within_entries h in
    record {
      records = rw items (All-append IsRecord s.items _ i.records (r, tt));
      in_array = fits;
      within_entries = within;
    }

store_entry-IsSnapshot :
    (path : Bytes) (line_no : ℕ) (s : Snapshot) (key value : Option Bytes) (memory : Memory)
    {s' : Snapshot} {m : Memory}
    → IsSnapshot s
    → ((k v : Bytes) → key ≡ some k → value ≡ some v → IsRecord (record { key = k; value = v }))
    → store_entry path line_no s key value memory ≡ going s' m
    → IsSnapshot s'
unfolding store_entry
store_entry-IsSnapshot path line_no s none value memory i r h = absurd (ground arith)
store_entry-IsSnapshot path line_no s (some key) none memory i r h = absurd (ground arith)
store_entry-IsSnapshot path line_no s (some key) (some value) memory {s'} {m} i r h =
    snapshot_append-IsSnapshot s key value memory {s' = s'} {m = m} i (r key value refl refl)
      (ground arith)

copied-IsRecord :
    (line : Bytes) (key_len : ℕ) (memory memory' : Memory) {k v : Bytes}
    → is_valid_key (take key_len line) ≡ true
    → IsClean line
    → key_len < length line
    → length line ≤ max_line_bytes
    → (copy_range (take key_len line) memory).0 ≡ some k
    → (copy_range (drop (key_len + 1) line) memory').0 ≡ some v
    → IsRecord (record { key = k; value = v })
copied-IsRecord line key_len memory memory' valid clean inside short p q =
    let k_is = copy_range-some (take key_len line) memory p in
    let v_is = copy_range-some (drop (key_len + 1) line) memory' q in
    record {
      key_valid = rw k_is valid;
      value_clean = rw v_is (All-drop _ (key_len + 1) line clean);
      line_short = rw (k_is, v_is) (omega (arith, split_length line key_len inside));
    }

parse_record-IsSnapshot :
    (path : Bytes) (line_no : ℕ) (s : Snapshot) (line : Bytes) (key_len : ℕ) (memory : Memory)
    {s' : Snapshot} {m : Memory}
    → IsSnapshot s
    → IsClean line
    → key_len < length line
    → length line ≤ max_line_bytes
    → parse_record path line_no s line key_len memory ≡ going s' m
    → IsSnapshot s'
unfolding parse_record
parse_record-IsSnapshot path line_no s line key_len memory {s'} {m} i clean inside short h =
    elim (Bool-cases (is_valid_key (take key_len line))) [
      | inl valid ↦
          let copied = copy_range (take key_len line) memory in
          let value = copy_range (drop (key_len + 1) line) copied.1 in
          store_entry-IsSnapshot path line_no s copied.0 value.0 value.1 {s' = s'} {m = m} i
            (λ k v p q. copied-IsRecord line key_len memory copied.1 valid clean inside short p q)
            (ground arith)
      | inr bad ↦ absurd (ground arith)
    ]

parse_line-IsSnapshot :
    (path : Bytes) (line_no : ℕ) (s : Snapshot) (raw : Bytes) (memory : Memory) {s' : Snapshot}
    {m : Memory}
    → IsSnapshot s
    → IsClean (strip_ending raw)
    → parse_line path line_no s raw memory ≡ going s' m
    → IsSnapshot s'
unfolding parse_line
parse_line-IsSnapshot path line_no s raw memory {s'} {m} i clean h =
    let line = strip_ending raw in
    elim (Bool-cases (is_blank_line line || is_comment_line line)) [
      | inl ignored ↦ subst IsSnapshot {x = s} {y = s'} (ground arith) i
      | inr real ↦ go (index_of b'=' line) refl real
    ]
  where
    go :
        (o : Option ℕ)
        → index_of b'=' (strip_ending raw) ≡ o
        → (is_blank_line (strip_ending raw) || is_comment_line (strip_ending raw)) ≡ false
        → IsSnapshot s'
    go none e real = absurd (ground arith)
    go (some zero) e real = absurd (ground arith)
    go (some (suc n)) e real =
        parse_record-IsSnapshot path line_no s (strip_ending raw) (suc n) memory {s' = s'} {m = m} i
          clean (index_of-lt b'=' (strip_ending raw) e) (ground arith) (ground arith)

-- The line that was read is clean once its ending is gone.
Taken-IsClean :
    (r : Reader)
    → r.total_bytes ≤ max_snapshot_bytes
    → (read_line r).status ≡ line_ok
    → IsClean (strip_ending (read_line r).line)
      × ((read_line r).reader.total_bytes ≤ max_snapshot_bytes)
Taken-IsClean r room h =
    let t = read_line_sound r room h in
    (rw t.line_is (IsClean-strip_ending t.clean t.tail t.is_clean (tail t.tail_is)), t.within_total)
  where
    tail : {x y : Bytes} → (x ≡ b'\n' ∷ []) ⊎ ((x ≡ []) × (y ≡ [])) → (x ≡ b'\n' ∷ []) ⊎ (x ≡ [])
    tail (inl e) = inl e
    tail (inr e) = inr e.0

pub parse_loop-IsSnapshot :
    (fuel : ℕ) (path : Bytes) (line_no : ℕ) (s : Snapshot) (r : Reader) {s' : Snapshot}
    → r.total_bytes ≤ max_snapshot_bytes
    → IsSnapshot s
    → parse_loop fuel path line_no s r ≡ ended s'
    → IsSnapshot s'
unfolding parse_loop
parse_loop-IsSnapshot zero path line_no s r room i h = absurd (ground arith)
parse_loop-IsSnapshot (suc fuel) path line_no s r {s'} room i h =
    go (read_line r).status refl (λ s1 m.
      parse_loop-IsSnapshot fuel path (line_no + 1) s1 (record (read_line r).reader { memory = m })
        {s' = s'})
  where
    raw : Bytes
    raw = (read_line r).line

    next : Reader
    next = (read_line r).reader

    Later : Type 0
    Later =
        (s1 : Snapshot) (m : Memory)
        → next.total_bytes ≤ max_snapshot_bytes
        → IsSnapshot s1
        → parse_loop fuel path (line_no + 1) s1 (record next { memory = m }) ≡ ended s'
        → IsSnapshot s'

    stored :
        (p : Parsed)
        → (read_line r).status ≡ line_ok
        → parse_line path (line_no + 1) s raw next.memory ≡ p
        → Later
        → IsSnapshot s'
    stored (going s1 m) e f ih =
        let (clean, total) = Taken-IsClean r room e in
        ih s1 m total (parse_line-IsSnapshot path (line_no + 1) s raw next.memory i clean f)
          (ground arith)
    stored (failed d) e f ih = absurd (ground arith)

    go : (st : LineStatus) → (read_line r).status ≡ st → Later → IsSnapshot s'
    go line_ok e ih = stored (parse_line path (line_no + 1) s raw next.memory) e refl ih
    go line_eof e ih = subst IsSnapshot {x = s} {y = s'} (ground arith) i
    go _ e ih = absurd (ground arith)

-- What was accepted behind the loop.
finish_parse-ended :
    (path : Bytes) (closes : Option ℕ) (loop : Loop) {s : Snapshot}
    → finish_parse path closes loop ≡ ended s
    → (s0 : Snapshot) × (loop ≡ ended s0)
      × (s.items ≡ sort_entries s0.items)
      × (s.cap ≡ s0.cap)
      × (find_duplicate (sort_entries s0.items) ≡ none)
unfolding finish_parse
finish_parse-ended path closes (stopped d) h = absurd (ground arith)
finish_parse-ended path closes out_of_fuel h = absurd (ground arith)
finish_parse-ended path (some e) (ended s0) h = absurd (ground arith)
finish_parse-ended path none (ended s0) h = (s0, refl, ground arith, ground arith, ground arith)

accepted :
    (s0 s : Snapshot)
    → IsSnapshot s0
    → s.items ≡ sort_entries s0.items
    → s.cap ≡ s0.cap
    → find_duplicate (sort_entries s0.items) ≡ none
    → IsAscending s.items
      × All IsRecord s.items
      × (length s.items ≤ s.cap)
      × (s.cap ≤ max_snapshot_entries)
accepted s0 s i items cap unique =
    let sorted = sort_entries-IsSorted s0.items in
    rw (items, cap)
      (
        find_duplicate-IsAscending (sort_entries s0.items) sorted unique,
        All-sort_entries IsRecord s0.items i.records,
        rw length-sort_entries i.in_array,
        i.within_entries,
      )

-- An accepted snapshot has strictly ascending keys, so it is a finite map; every key has the
-- documented syntax and every value is free of NUL and newline bytes, both within the line limit;
-- and there are no more than 65536 entries, all within the array.
pub parse_snapshot_sound :
    (path : Bytes) (file : File) (memory : Memory) {s : Snapshot}
    → parse_snapshot path file memory ≡ ended s
    → IsAscending s.items
      × All IsRecord s.items
      × (length s.items ≤ s.cap)
      × (s.cap ≤ max_snapshot_entries)
unfolding parse_snapshot
parse_snapshot_sound path (missing e) memory h = absurd (ground arith)
parse_snapshot_sound path (opened bytes failing closes) memory {s} h =
    let start : Reader = record {
      unread = bytes;
      failing = failing;
      total_bytes = 0;
      memory = memory;
    } in
    let (s0, e, items, cap, unique) =
      finish_parse-ended path closes (parse_loop (suc (length bytes)) path 0 empty_snapshot start)
        {s = s} h in
    accepted s0 s
      (parse_loop-IsSnapshot (suc (length bytes)) path 0 empty_snapshot start {s' = s0}
        (omega arith)
        (record { records = tt; in_array = omega arith; within_entries = omega arith }) e)
      items cap unique
