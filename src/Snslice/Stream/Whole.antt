-- ===== src/Snslice/Stream/Whole.antt =====
-- A whole run of `stream_slice` in src/snslice.c: the completed chunks and the input.
use linux_utilities.Common.{
  ℕ, ◌+◌, ◌^◌, ◌<◌, ◌≡◌, refl, sym, subst, List, [], ◌∷◌, ◌++◌, Option, none, some, ◌==◌, ltb,
  if◌then◌else◌, append_assoc, append-nil, length, length-append, Option-cases, Bool-cases, inl,
  inr, arith, Bytes,
}
use linux_utilities.Snslice.Boundary.{FormatType, format_ndjson, format_csv, SnSliceConfig}
use linux_utilities.Snslice.Chunk.{
  Disk, Chunk, SnSliceState, Result, ok, err, ◌>>=◌, add_size, abort_cleanup, open_chunk,
  close_active, close_chunk, write_active, write_to_chunk,
}
use linux_utilities.Snslice.Chunk.Laws.{contents, held, Closes, close_chunk-Closes}
use linux_utilities.Snslice.Stream.{
  should_split, end_record, slice_loop, ReadAnswer, got, read_interrupted, read_failed,
  finish_format, finish_slice, stream_slice,
}
use linux_utilities.Snslice.Stream.Conservation.{
  Stopped, Holds, Stopped-more, Failed-Stopped, abort-Stopped, slice_loop-Holds, slice_loop-nil,
  stops, goes_on, ends_record, slice_loop-byte,
}

-- The bytes that `read` returns up to the end of the input or its first error.
unfoldable pub read_bytes : List ReadAnswer → Bytes
read_bytes [] = []
read_bytes (read_interrupted ∷ answers) = read_bytes answers
read_bytes (read_failed errno ∷ answers) = []
read_bytes (got [] ∷ answers) = []
read_bytes (got (c ∷ bytes) ∷ answers) = c ∷ bytes ++ read_bytes answers

-- `total_input_bytes` is changed by the reads alone.
abbrev pub Counts : ℕ → Result → Type 0
Counts n (ok st) = st.total_input_bytes ≡ n
Counts n (err h st) = Unit

write_active-Counts :
    (st : SnSliceState) (bytes : Bytes) (active : Option Chunk)
    → Counts st.total_input_bytes (write_active st bytes active)
unfolding write_active
write_active-Counts st bytes none = tt
write_active-Counts st bytes (some chunk) = ground arith

bind-Counts :
    (n : ℕ) (r : Result) (f : SnSliceState → Result)
    → Counts n r
    → ((st : SnSliceState) → st.total_input_bytes ≡ n → Counts n (f st))
    → Counts n (r >>= f)
bind-Counts n (ok st) f c k = k st c
bind-Counts n (err h st) f c k = tt

open_chunk-Counts :
    (disk : Disk) (cfg : SnSliceConfig) (st : SnSliceState)
    → Counts st.total_input_bytes (open_chunk disk cfg st)
unfolding open_chunk
open_chunk-Counts disk cfg st = ground arith

write_to_chunk-Counts :
    (disk : Disk) (cfg : SnSliceConfig) (st : SnSliceState) (bytes : Bytes)
    → Counts st.total_input_bytes (write_to_chunk disk cfg st bytes)
unfolding write_to_chunk
write_to_chunk-Counts disk cfg st [] = refl
write_to_chunk-Counts disk cfg st (c ∷ bytes) = elim (Option-cases st.active) [
  | inl e ↦
      rw (e, write_to_chunk)
        (bind-Counts st.total_input_bytes (open_chunk disk cfg st) _ (open_chunk-Counts disk cfg st)
          (λ s same. rw (← same) (write_active-Counts s (c ∷ bytes) s.active)))
  | inr (chunk, e) ↦ rw (e, write_to_chunk) (write_active-Counts st (c ∷ bytes) (some chunk))
]

close_chunk-Counts :
    (disk : Disk) (st : SnSliceState) → Counts st.total_input_bytes (close_chunk disk st)
unfolding close_chunk close_active
close_chunk-Counts disk st = ground arith

end_record-Counts :
    (disk : Disk) (cfg : SnSliceConfig) (st : SnSliceState) (bytes : Bytes)
    → Counts st.total_input_bytes (end_record disk cfg st bytes)
unfolding end_record
end_record-Counts disk cfg st bytes =
    bind-Counts st.total_input_bytes (write_to_chunk disk cfg st bytes) _
      (write_to_chunk-Counts disk cfg st bytes) (λ s same. rw (← same) (ends s))
  where
    ends :
        (s : SnSliceState)
        → Counts s.total_input_bytes (
            let counted = record s {
              record_bytes = 0;
              chunk_records = add_size s.chunk_records 1;
            } in
            if should_split cfg counted then close_chunk disk counted else ok counted)
    ends s = ground (
      arith,
      close_chunk-Counts disk
          (record s { record_bytes = 0; chunk_records = add_size s.chunk_records 1 }),
    )

slice_loop-Counts :
    (disk : Disk) (cfg : SnSliceConfig) (buffer slice : Bytes) (st : SnSliceState)
    → Counts st.total_input_bytes (slice_loop disk cfg buffer slice st)
slice_loop-Counts disk cfg [] slice st =
    rw (slice_loop-nil disk cfg slice st) (write_to_chunk-Counts disk cfg st slice)
slice_loop-Counts disk cfg (c ∷ buffer) slice st =
    elim (slice_loop-byte disk cfg c buffer slice st) [
      | stops h s _ counted is ↦ rw is tt
      | goes_on s _ counted is ↦
          rw (is, ← counted) (slice_loop-Counts disk cfg buffer (slice ++ c ∷ []) s)
      | ends_record s _ counted is ↦
          rw (is, ← counted)
            (bind-Counts s.total_input_bytes (end_record disk cfg s (slice ++ c ∷ []))
              (slice_loop disk cfg buffer []) (end_record-Counts disk cfg s (slice ++ c ∷ []))
              (λ s' same. rw (← same) (slice_loop-Counts disk cfg buffer [] s')))
    ]

-- What a run leaves: the completed chunks are the whole input, or it stopped.
abbrev pub Partitions : Bytes → Result → Type 0
Partitions input (ok st) = (contents st.closed ≡ input) × (st.active ≡ none)
Partitions input (err h st) = Stopped input st

Closes-Partitions :
    (st : SnSliceState) (r : Result) → Closes st.closed (held st) r → Partitions (held st) r
Closes-Partitions st (ok s) c = c
Closes-Partitions st (err h s) f =
    subst (λ i. Stopped i s) (append-nil (held st)) (Failed-Stopped st [] f)

abort-Partitions : (st : SnSliceState) → Stopped (held st) (abort_cleanup st)
abort-Partitions st =
    subst (λ i. Stopped i (abort_cleanup st)) (append-nil (held st)) (abort-Stopped st [])

finish_format-Partitions :
    (disk : Disk) (format : FormatType) (st : SnSliceState)
    → Partitions (held st) (finish_format disk format st)
unfolding finish_format
finish_format-Partitions disk format_ndjson st =
    ground (arith, abort-Partitions st, Closes-Partitions st _ (close_chunk-Closes disk st))
finish_format-Partitions disk format_csv st =
    ground (arith, abort-Partitions st, Closes-Partitions last _ (close_chunk-Closes disk last))
  where
    last : SnSliceState
    last = record st {
      chunk_records =
          if ltb 0 st.record_bytes then add_size st.chunk_records 1 else st.chunk_records;
    }

finish_slice-Partitions :
    (disk : Disk) (cfg : SnSliceConfig) (st : SnSliceState)
    → (st.total_input_bytes ≡ 0 → st.active ≡ none)
    → Partitions (held st) (finish_slice disk cfg st)
unfolding finish_slice
finish_slice-Partitions disk cfg st empty = elim (Bool-cases (st.total_input_bytes == 0)) [
  | inl e ↦
      let idle : st.active ≡ none = empty (ground arith) in
      rw (e, idle) (sym (append-nil (contents st.closed)), refl)
  | inr e ↦ rw e (finish_format-Partitions disk cfg.format st)
]

-- A run leaves the whole input in the completed chunks, or it stopped with a prefix of it.
pub stream_slice-Partitions :
    (disk : Disk) (cfg : SnSliceConfig) (answers : List ReadAnswer) (st : SnSliceState)
    → (st.total_input_bytes ≡ 0 → st.active ≡ none)
    → st.total_input_bytes + length (read_bytes answers) < 2 ^ 64
    → Partitions (held st ++ read_bytes answers) (stream_slice disk cfg answers st)
unfolding stream_slice read_bytes
stream_slice-Partitions disk cfg [] st empty small =
    rw (append-nil (held st)) (finish_slice-Partitions disk cfg st empty)
stream_slice-Partitions disk cfg (read_interrupted ∷ answers) st empty small =
    stream_slice-Partitions disk cfg answers st empty small
stream_slice-Partitions disk cfg (read_failed errno ∷ answers) st empty small = abort-Stopped st []
stream_slice-Partitions disk cfg (got [] ∷ answers) st empty small =
    rw (append-nil (held st)) (finish_slice-Partitions disk cfg st empty)
stream_slice-Partitions disk cfg (got (c ∷ bytes) ∷ answers) st empty small =
    go (slice_loop disk cfg (c ∷ bytes) [] counted)
      (slice_loop-Holds disk cfg (c ∷ bytes) [] counted)
      (slice_loop-Counts disk cfg (c ∷ bytes) [] counted)
      (λ s counts.
        stream_slice-Partitions disk cfg answers s
          (λ none_read. absurd (ground (arith, total s counts))) (ground (arith, total s counts)))
  where
    counted : SnSliceState
    counted = record st { total_input_bytes = add_size st.total_input_bytes (length (c ∷ bytes)) }

    total :
        (s : SnSliceState)
        → s.total_input_bytes ≡ add_size st.total_input_bytes (length (c ∷ bytes))
        → (0 < s.total_input_bytes) × (s.total_input_bytes + length (read_bytes answers) < 2 ^ 64)
    total s counts = ground (arith, length-append bytes (read_bytes answers))

    go :
        (r : Result)
        → Holds (held st ++ c ∷ bytes) r
        → Counts (add_size st.total_input_bytes (length (c ∷ bytes))) r
        → ((s : SnSliceState)
            → s.total_input_bytes ≡ add_size st.total_input_bytes (length (c ∷ bytes))
            → Partitions (held s ++ read_bytes answers) (stream_slice disk cfg answers s))
        → Partitions
            (held st ++ c ∷ (bytes ++ read_bytes answers))
            (r >>= stream_slice disk cfg answers)
    go (ok s) holds counts k =
        rw (← append_assoc (held st) (c ∷ bytes) (read_bytes answers), ← holds) (k s counts)
    go (err h s) stopped counts k =
        rw (← append_assoc (held st) (c ∷ bytes) (read_bytes answers))
          (Stopped-more (read_bytes answers) stopped)
