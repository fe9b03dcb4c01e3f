-- ===== src/Snslice/Chunk.antt =====
-- src/snslice.c: the chunk files. The environment answers each system call.
pub mod Laws
use linux_utilities.Common.{
  ℕ, zero, suc, ◌+◌, ◌-◌, ◌*◌, ◌/◌, ◌%◌, ◌^◌, Bool, true, false, not, ◌&&◌, ◌||◌, List, [], ◌∷◌,
  ◌++◌, Option, none, some, ltb, leb, ◌==◌, if◌then◌else◌, length, take, drop, Ordering, same_text,
  Bytes,
}
use linux_utilities.Common.Decimal.{decimal}
use linux_utilities.Common.Text.{codes}
use linux_utilities.Snslice.Boundary.{
  FormatType, format_ndjson, format_csv, CsvState, csv_start, SnSliceConfig,
}

pub data Hazard : Type 0 where
  usage_error unknown_option invalid_limit invalid_format input_not_found input_is_directory
        input_read_error record_length_limit malformed_ndjson malformed_csv output_dir_error
        output_collision chunk_open_error chunk_write_error broken_pipe :
      Hazard

-- What `write` answers: that many bytes, an interruption, or an `errno`. When the answers are used
-- up, every call writes all that it is given.
pub data WriteAnswer : Type 0 where
  wrote : ℕ → WriteAnswer
  write_interrupted : WriteAnswer
  write_failed : ℕ → WriteAnswer

-- The directory that the chunks go to: the paths that are taken, the `errno` of an `open` that fails
-- for another reason, and the paths at which `close` fails.
pub record Disk : Type 0 where
  pub taken : Bytes → Bool
  pub open_error : Bytes → Option ℕ
  pub close_fails : Bytes → Bool

pub record Chunk : Type 0 where
  pub path : Bytes
  pub content : Bytes

-- `active` is the open chunk, if `active_chunk_fd >= 0`; `closed` are the completed ones, in order.
-- `input_closes` counts the calls of `close` on the input.
pub record SnSliceState : Type 0 where
  pub input_open : Bool
  pub close_input_fd : Bool
  pub input_closes : ℕ
  pub active : Option Chunk
  pub closed : List Chunk
  pub chunk_index : ℕ
  pub chunk_bytes : ℕ
  pub chunk_records : ℕ
  pub record_bytes : ℕ
  pub total_input_bytes : ℕ
  pub csv_state : CsvState
  pub writes : List WriteAnswer

-- A step succeeds, or it has reported a hazard and leaves a state behind.
pub data Result : Type 0 where
  ok : SnSliceState → Result
  err : Hazard → SnSliceState → Result

infixl 5 ◌>>=◌
abbrev pub ◌>>=◌ : Result → (SnSliceState → Result) → Result
ok st >>= f = f st
err h st >>= f = err h st

-- `size_t` and `uint64_t` addition.
abbrev pub add_size : ℕ → ℕ → ℕ
add_size a b = (a + b) % 2 ^ 64

abbrev pub path_max : ℕ
path_max = 4096

unfoldable pub abort_cleanup : SnSliceState → SnSliceState
abort_cleanup st = record st {
  active = none;
  input_open = if st.close_input_fd && st.input_open then false else st.input_open;
  input_closes =
      if st.close_input_fd && st.input_open then st.input_closes + 1 else st.input_closes;
}

-- `%05zu`; a `size_t` has at most twenty digits.
pad_five : Bytes → Bytes
pad_five d =
    if ltb (length d) 2
    then codes "0000" ++ d
    else if ltb (length d) 3
    then codes "000" ++ d
    else if ltb (length d) 4
    then codes "00" ++ d
    else if ltb (length d) 5
    then codes "0" ++ d
    else d

ends_in_slash : Bytes → Bool
ends_in_slash [] = false
ends_in_slash (c ∷ []) = c == b'/'
ends_in_slash (c ∷ d ∷ dir) = ends_in_slash (d ∷ dir)

-- The name that `snprintf` builds in `open_chunk`.
unfoldable pub chunk_path : SnSliceConfig → ℕ → Bytes
unfolding ends_in_slash pad_five decimal
chunk_path cfg index =
    let ext : Bytes = elim cfg.format [
      | format_ndjson ↦ codes "ndjson"
      | format_csv ↦ codes "csv"
    ] in
    let slash : Bytes = if ends_in_slash cfg.out_dir then [] else codes "/" in
    cfg.out_dir ++ (slash ++ (cfg.prefix ++ (pad_five (decimal index) ++ (b'.' ∷ ext))))

-- One of this run's completed chunks has the path.
unfoldable pub own_path : Bytes → List Chunk → Bool
unfolding same_text
own_path p [] = false
own_path p (c ∷ cs) = same_text p c.path || own_path p cs

-- `open` with `O_CREAT | O_EXCL`.
unfoldable pub open_chunk : Disk → SnSliceConfig → SnSliceState → Result
open_chunk disk cfg st =
    let path = chunk_path cfg st.chunk_index in
    if leb path_max (length path)
    then err output_dir_error st
    else if disk.taken path || own_path path st.closed
    then err output_collision st
    else elim (disk.open_error path) [
      | some errno ↦ err chunk_open_error st
      | none ↦ ok (record st { active = some (record { path = path; content = [] }) })
    ]

-- For the open chunk.
unfoldable pub close_active : Disk → SnSliceState → Chunk → Result
close_active disk st chunk =
    if disk.close_fails chunk.path
    then err chunk_write_error (record st { active = none })
    else ok (record st {
      active = none;
      closed = st.closed ++ chunk ∷ [];
      chunk_index = add_size st.chunk_index 1;
      chunk_bytes = 0;
      chunk_records = 0;
    })

unfoldable pub close_chunk : Disk → SnSliceState → Result
close_chunk disk st = elim st.active [ none ↦ ok st | some chunk ↦ close_active disk st chunk ]

-- What `write_all` has done: the bytes written, the answers left, and the `errno` of a failure. A
-- `write` of 0 bytes fails and sets none.
pub record Written : Type 0 where
  pub done : Bytes
  pub left : List WriteAnswer
  pub failure : Option ℕ

unfoldable pub write_all : List WriteAnswer → Bytes → Bytes → Written
write_all answers [] done = record { done = done; left = answers; failure = none }
write_all [] (c ∷ pending) done = record { done = done ++ c ∷ pending; left = []; failure = none }
write_all (write_interrupted ∷ answers) (c ∷ pending) done = write_all answers (c ∷ pending) done
write_all (write_failed errno ∷ answers) (c ∷ pending) done = record {
  done = done;
  left = answers;
  failure = some errno;
}
write_all (wrote zero ∷ answers) (c ∷ pending) done = record {
  done = done;
  left = answers;
  failure = some 0;
}
write_all (wrote (suc n) ∷ answers) (c ∷ pending) done =
    write_all answers (drop n pending) (done ++ c ∷ take n pending)

abbrev epipe : ℕ
epipe = 32

-- Into the chunk that is open; `none` does not happen, as the caller has opened one.
unfoldable pub write_active : SnSliceState → Bytes → Option Chunk → Result
write_active st bytes none = err chunk_write_error st
write_active st bytes (some chunk) =
    let w = write_all st.writes bytes [] in
    let after = record st {
      writes = w.left;
      active = some (record chunk { content = chunk.content ++ w.done });
    } in
    elim w.failure [
      | some errno ↦
          err (if errno == epipe then broken_pipe else chunk_write_error) (abort_cleanup after)
      | none ↦ ok (record after { chunk_bytes = add_size st.chunk_bytes (length bytes) })
    ]

unfoldable pub write_to_chunk : Disk → SnSliceConfig → SnSliceState → Bytes → Result
write_to_chunk disk cfg st [] = ok st
write_to_chunk disk cfg st (c ∷ bytes) = elim st.active [
  | some chunk ↦ write_active st (c ∷ bytes) (some chunk)
  | none ↦ open_chunk disk cfg st >>= λ opened. write_active opened (c ∷ bytes) opened.active
]
