-- ===== src/Sysdiff/Line.antt =====
-- src/sysdiff.c: `read_line`, which reads up to a newline into a growing buffer.
pub mod Complete
pub mod Sound
use linux_utilities.Common.{
  ℕ, ◌+◌, ◌-◌, ◌*◌, ◌/◌, Bool, true, false, not, ◌&&◌, ◌||◌, List, [], ◌∷◌, ◌++◌, Option, none,
  some, ltb, leb, ◌==◌, if◌then◌else◌, Bytes,
}
use linux_utilities.Common.Memory.{Memory, size_max, allocate, checked_size_mul}

abbrev pub max_line_bytes : ℕ
max_line_bytes = 65536

abbrev pub max_snapshot_bytes : ℕ
max_snapshot_bytes = 16777216

pub data LineStatus : Type 0 where
  line_ok line_eof line_embedded_nul line_too_long line_byte_limit line_read_error
        line_alloc_error :
      LineStatus

-- The open file: its bytes not yet read, whether it ends by a read error, `total_bytes`, and the
-- allocator.
pub record Reader : Type 0 where
  pub unread : Bytes
  pub failing : Bool
  pub total_bytes : ℕ
  pub memory : Memory

-- `out`, its capacity and the reader behind the call. `line` means something at `line_ok` only.
pub record LineResult : Type 0 where
  pub status : LineStatus
  pub line : Bytes
  pub cap : ℕ
  pub reader : Reader

-- The growth of the buffer before a byte is stored at `len`: the new capacity.
unfoldable pub grow : ℕ → ℕ → Memory → Option (ℕ × Memory)
unfolding allocate checked_size_mul
grow len cap memory =
    if cap == 0 || leb (cap - 1) len
    then (let new_cap = if cap == 0 then 128 else cap * 2 in
        if not (cap == 0) && ltb (size_max / 2) cap
        then none
        else if leb new_cap cap
        then none
        else elim (checked_size_mul new_cap 1) [
          | none ↦ none
          | some size ↦ elim (allocate memory) [ none ↦ none | some m ↦ some (new_cap, m) ]
        ])
    else some (cap, memory)

-- The `for (;;)`, over the bytes not yet read.
unfoldable pub read_loop : Bytes → Bool → ℕ → Memory → Bytes → ℕ → ℕ → LineResult
unfolding grow
read_loop [] failing total memory line len cap =
    let r : Reader = record {
      unread = [];
      failing = failing;
      total_bytes = total;
      memory = memory;
    } in
    if failing
    then record { status = line_read_error; line = []; cap = cap; reader = r }
    else if len == 0
    then record { status = line_eof; line = []; cap = cap; reader = r }
    else record { status = line_ok; line = line; cap = cap; reader = r }
read_loop (ch ∷ unread) failing total memory line len cap =
    let stop : ℕ → Memory → LineStatus → LineResult = λ t m status. record {
      status = status;
      line = [];
      cap = cap;
      reader = record { unread = unread; failing = failing; total_bytes = t; memory = m };
    } in
    if leb max_snapshot_bytes total
    then stop total memory line_byte_limit
    else if ch == 0
    then stop (total + 1) memory line_embedded_nul
    else if not (ch == b'\n') && ltb max_line_bytes len
    then stop (total + 1) memory line_too_long
    else elim (grow len cap memory) [
      | none ↦ stop (total + 1) memory line_alloc_error
      | some (new_cap, m) ↦ elim (ch == b'\n') [
        | true ↦ record {
          status = line_ok;
          line = line ++ ch ∷ [];
          cap = new_cap;
          reader = record {
            unread = unread;
            failing = failing;
            total_bytes = total + 1;
            memory = m;
          };
        }
        | false ↦ read_loop unread failing (total + 1) m (line ++ ch ∷ []) (len + 1) new_cap
      ]
    ]

unfoldable pub read_line : Reader → LineResult
unfolding read_loop
read_line r = read_loop r.unread r.failing r.total_bytes r.memory [] 0 0
