-- ===== src/Sysdiff/Parse/RoundTrip/Records.antt =====
-- One record that is written out, and `parse_line` on it.
use linux_utilities.Common.{
  ℕ, zero, suc, ◌≢◌, ◌⊎◌, inl, inr, Bool-cases, append-nil, ap, ==_iff, ◌+◌, ◌-◌, ◌≤◌, ◌<◌, ◌≡◌,
  refl, ◌∙◌, ◌||◌, true, false, List, [], ◌∷◌, ◌++◌, some, All-append, length, length-append, arith,
  Bytes,
}
use linux_utilities.Common.Memory.{Memory}
use linux_utilities.Sysdiff.Key.{ends_with, is_valid_key, is_blank_line, is_comment_line}
use linux_utilities.Sysdiff.Key.KeyBytes.{
  is_valid_key-All, is_key_byte-ne, is_valid_key-real, All-imp, ends_with-concat,
}
use linux_utilities.Sysdiff.Line.{max_line_bytes}
use linux_utilities.Sysdiff.Line.Sound.{IsClean}
use linux_utilities.Sysdiff.Snapshot.{
  Entry, Snapshot, AppendResult, append_ok, snapshot_append, max_snapshot_entries,
}
use linux_utilities.Sysdiff.Snapshot.Append.{Succeeds, snapshot_append_ok, snapshot_append_room}
use linux_utilities.Sysdiff.Parse.{
  Parsed, going, drop_last, copy_range, store_entry, parse_record, strip_ending, index_of,
  parse_line,
}
use linux_utilities.Sysdiff.Parse.Lines.{
  strip_ending-newline, drop_last-concat, index_of-append, take-append, drop-append,
}
use linux_utilities.Sysdiff.Parse.Sound.{IsRecord}

-- A record as a line, without its ending.
abbrev pub record_line : Entry → Bytes
record_line e = e.key ++ b'=' ∷ e.value

-- How a line ends: `\n`, or `\r\n`.
pub data Ending : Type 0 where
  newline carriage_return : Ending

-- A record on a line of its own.
pub record Row : Type 0 where
  pub entry : Entry
  pub ending : Ending

abbrev pub before_newline : Ending → Bytes
before_newline newline = []
before_newline carriage_return = b'\r' ∷ []

-- The line without its newline.
abbrev pub row_body : Row → Bytes
row_body r = record_line r.entry ++ before_newline r.ending

-- All records, each line ended in its own way.
unfoldable pub render : List Row → Bytes
render [] = []
render (r ∷ rows) = row_body r ++ b'\n' ∷ render rows

-- A value that ends in a carriage return needs the longer ending.
pub record IsRow (r : Row) : Type 0 where
  pub is_record : IsRecord r.entry
  pub ending_fits : (r.ending ≡ carriage_return) ⊎ ((xs : Bytes) → r.entry.value ≢ xs ++ b'\r' ∷ [])

ends_with-split : (c : ℕ) (xs : Bytes) → ends_with c xs ≡ true → xs ≡ drop_last xs ++ c ∷ []
unfolding ends_with drop_last
ends_with-split c [] h = absurd (ground arith)
ends_with-split c (x ∷ []) h = ground (arith, ==_iff x c)
ends_with-split c (x ∷ y ∷ xs) h = ap (◌∷◌ x) (ends_with-split c (y ∷ xs) h)

ends_with-last : (c x : ℕ) (xs ys : Bytes) → ends_with c (xs ++ x ∷ ys) ≡ ends_with c (x ∷ ys)
unfolding ends_with
ends_with-last c x [] ys = refl
ends_with-last c x (a ∷ []) ys = refl
ends_with-last c x (a ∷ b ∷ xs) ys = ends_with-last c x (b ∷ xs) ys

ends_with-value : (v : Bytes) → ends_with b'\r' v ≡ false → ends_with b'\r' (b'=' ∷ v) ≡ false
unfolding ends_with
ends_with-value [] h = refl
ends_with-value (x ∷ v) h = h

no_return :
    (e : Entry)
    → ((xs : Bytes) → e.value ≢ xs ++ b'\r' ∷ [])
    → ends_with b'\r' (record_line e) ≡ false
no_return e other = elim (Bool-cases (ends_with b'\r' e.value)) [
  | inl h ↦ absurd (other (drop_last e.value) (ends_with-split b'\r' e.value h))
  | inr h ↦ ends_with-last b'\r' b'=' e.key e.value ∙ ends_with-value e.value h
]

strip_ending-row :
    (e : Entry) (ending : Ending)
    → (ending ≡ carriage_return) ⊎ ((xs : Bytes) → e.value ≢ xs ++ b'\r' ∷ [])
    → strip_ending ((record_line e ++ before_newline ending) ++ b'\n' ∷ []) ≡ record_line e
strip_ending-row e carriage_return fits =
    strip_ending-newline (record_line e ++ b'\r' ∷ [])
    ∙ rw (ends_with-concat b'\r' (record_line e)) (drop_last-concat b'\r' (record_line e))
strip_ending-row e newline (inl never) = absurd (ground arith)
strip_ending-row e newline (inr other) =
    rw (append-nil (record_line e))
      (strip_ending-newline (record_line e) ∙ rw (no_return e other) refl)

length-record_line : (e : Entry) → length (record_line e) ≡ length e.key + 1 + length e.value
length-record_line e = omega (arith, length-append e.key (b'=' ∷ e.value))

-- The length of a line, but for its newline.
pub record HasLength (r : Row) : Type 0 where
  pub at_least : length r.entry.key + 1 + length r.entry.value ≤ length (row_body r)
  pub at_most : length (row_body r) ≤ length r.entry.key + 1 + length r.entry.value + 1

length-before_newline : (ending : Ending) → length (before_newline ending) ≤ 1
length-before_newline newline = omega arith
length-before_newline carriage_return = omega arith

pub row_length : (r : Row) → HasLength r
row_length r =
    let joined = length-append (record_line r.entry) (before_newline r.ending) in
    let line = length-record_line r.entry in
    let short = length-before_newline r.ending in
    record { at_least = omega arith; at_most = omega arith }

copy_range_ok :
    (text : Bytes) (memory : Memory)
    → length text ≤ max_line_bytes
    → 0 < memory
    → copy_range text memory ≡ (some text, memory - 1)
unfolding copy_range
copy_range_ok text memory short enough = ground arith

-- The entry has gone to the end of the snapshot, for at most three calls of the allocator.
pub record Added (s : Snapshot) (e : Entry) (memory : Memory) (p : Parsed) : Type 0 where
  pub stored : Snapshot
  pub left : Memory
  pub going_is : p ≡ going stored left
  pub items_are : stored.items ≡ s.items ++ e ∷ []
  pub in_array : length stored.items ≤ stored.cap
  pub within : stored.cap ≤ max_snapshot_entries
  pub cost : memory ≤ left + 3

store_entry-Added :
    (path : Bytes) (line_no : ℕ) (s : Snapshot) (e : Entry) (memory before : Memory)
    → before ≤ memory + 2
    → length s.items ≤ s.cap
    → s.cap ≤ max_snapshot_entries
    → length s.items < max_snapshot_entries
    → 0 < memory
    → Added s e before (store_entry path line_no s (some e.key) (some e.value) memory)
unfolding store_entry
store_entry-Added path line_no s e memory before spent fits within room enough =
    go (snapshot_append s e.key e.value memory) refl
      (snapshot_append_room s e.key e.value memory fits within room enough)
  where
    go :
        (r : AppendResult)
        → snapshot_append s e.key e.value memory ≡ r
        → Succeeds memory r
        → Added s e before (store_entry path line_no s (some e.key) (some e.value) memory)
    go (append_ok s' m) p ok =
        let (items, fits', within') =
          snapshot_append_ok s e.key e.value memory {s' = s'} {m = m} fits within p in
        record {
          stored = s';
          left = m;
          going_is = ground arith;
          items_are = items;
          in_array = fits';
          within = within';
          cost = omega arith;
        }
    go _ p ok = absurd ok

ending-IsClean : (ending : Ending) → IsClean (before_newline ending)
ending-IsClean newline = tt
ending-IsClean carriage_return = (omega arith, tt)

pub record-IsClean :
    (e : Entry) (ending : Ending) → IsRecord e → IsClean (record_line e ++ before_newline ending)
record-IsClean e ending r =
    All-append _ (record_line e) (before_newline ending)
      (All-append _ e.key (b'=' ∷ e.value)
        (All-imp _ _ e.key (λ c h. let ne = is_key_byte-ne c h in (ne.1, ne.2))
          (is_valid_key-All e.key r.key_valid))
        (omega arith, r.value_clean))
      (ending-IsClean ending)

parse_record-Added :
    (path : Bytes) (line_no : ℕ) (s : Snapshot) (e : Entry) (memory : Memory)
    → IsRecord e
    → length s.items ≤ s.cap
    → s.cap ≤ max_snapshot_entries
    → length s.items < max_snapshot_entries
    → 3 ≤ memory
    → Added s e memory (parse_record path line_no s (record_line e) (length e.key) memory)
unfolding parse_record
parse_record-Added path line_no s e memory r fits within room enough =
    rw
      (
        take-append e.key (b'=' ∷ e.value),
        drop-append b'=' e.key e.value,
        r.key_valid,
        copy_range_ok e.key memory (omega (arith, r.line_short)) (omega arith),
        copy_range_ok e.value (memory - 1) (omega (arith, r.line_short)) (omega arith),
      )
      (store_entry-Added path line_no s e (memory - 1 - 1) memory (omega arith) fits within room
        (omega arith))

index_of-record : (e : Entry) → IsRecord e → index_of b'=' (record_line e) ≡ some (length e.key)
index_of-record e r =
    index_of-append b'=' e.key e.value
      (All-imp _ _ e.key (λ c h. (is_key_byte-ne c h).0) (is_valid_key-All e.key r.key_valid))

pub valid_key_length : (key : Bytes) → is_valid_key key ≡ true → 0 < length key
unfolding is_valid_key
valid_key_length [] h = absurd (ground arith)
valid_key_length (c ∷ key) h = omega arith

-- A line whose separator stands at `n`, not first, goes to `parse_record`.
parse_line-record :
    (path : Bytes) (line_no : ℕ) (s : Snapshot) (raw line : Bytes) (memory n : ℕ)
    → strip_ending raw ≡ line
    → length line ≤ max_line_bytes
    → (is_blank_line line || is_comment_line line) ≡ false
    → index_of b'=' line ≡ some n
    → 0 < n
    → parse_line path line_no s raw memory ≡ parse_record path line_no s line n memory
unfolding parse_line
parse_line-record path line_no s raw line memory zero p short real found pos = absurd (omega arith)
parse_line-record path line_no s raw line memory (suc n) p short real found pos = ground arith

pub parse_line-Added :
    (path : Bytes) (line_no : ℕ) (s : Snapshot) (row : Row) (memory : Memory)
    → IsRow row
    → length s.items ≤ s.cap
    → s.cap ≤ max_snapshot_entries
    → length s.items < max_snapshot_entries
    → 3 ≤ memory
    → Added s row.entry memory (parse_line path line_no s (row_body row ++ b'\n' ∷ []) memory)
parse_line-Added path line_no s row memory is_row fits within room enough =
    let e = row.entry in
    let r = is_row.is_record in
    rw
      (parse_line-record path line_no s (row_body row ++ b'\n' ∷ []) (record_line e) memory
        (length e.key) (strip_ending-row e row.ending is_row.ending_fits)
        (omega (arith, length-record_line e, r.line_short))
        (is_valid_key-real e.key (b'=' ∷ e.value) r.key_valid) (index_of-record e r)
        (valid_key_length e.key r.key_valid))
      (parse_record-Added path line_no s e memory r fits within room enough)
