-- ===== src/Snslice/Stream.antt =====
-- src/snslice.c: `stream_slice`. `slice` are the bytes of the buffer from `slice_start` on.
pub mod Conservation
pub mod Whole
use linux_utilities.Common.{
  ℕ, ◌+◌, Bool, true, false, ◌&&◌, ◌||◌, List, [], ◌∷◌, ◌++◌, Option, none, some, ltb, leb, ◌==◌,
  if◌then◌else◌, length, Bytes,
}
use linux_utilities.Snslice.Boundary.{
  FormatType, format_ndjson, format_csv, CsvState, csv_quoted, csv_start, csv_unquoted,
  csv_escaped_quote, SnSliceConfig, boundary_step,
}
use linux_utilities.Snslice.Chunk.{
  Hazard, input_read_error, record_length_limit, malformed_ndjson, malformed_csv, Disk,
  SnSliceState, Result, ok, err, ◌>>=◌, add_size, abort_cleanup, close_chunk, write_to_chunk,
}

abbrev pub max_record_bytes : ℕ
max_record_bytes = 16777216

abbrev pub malformed : FormatType → Hazard
malformed format_ndjson = malformed_ndjson
malformed format_csv = malformed_csv

-- `should_split`
unfoldable pub should_split : SnSliceConfig → SnSliceState → Bool
should_split cfg st =
    ltb 0 cfg.limit_bytes && leb cfg.limit_bytes st.chunk_bytes
    || ltb 0 cfg.limit_records && leb cfg.limit_records st.chunk_records

-- The end of a record: its bytes are written, and the chunk is closed if a limit is reached.
unfoldable pub end_record : Disk → SnSliceConfig → SnSliceState → Bytes → Result
unfolding should_split
end_record disk cfg st bytes = write_to_chunk disk cfg st bytes >>= λ written.
    let counted = record written {
      record_bytes = 0;
      chunk_records = add_size written.chunk_records 1;
    } in
    if should_split cfg counted then close_chunk disk counted else ok counted

-- The `for` over the buffer, and the write of what is left of it.
unfoldable pub slice_loop : Disk → SnSliceConfig → Bytes → Bytes → SnSliceState → Result
unfolding end_record
slice_loop disk cfg [] slice st = write_to_chunk disk cfg st slice
slice_loop disk cfg (c ∷ buffer) slice st =
    let counted = record st { record_bytes = add_size st.record_bytes 1 } in
    elim (c == 0) [
      | true ↦ err (malformed cfg.format) (abort_cleanup st)
      | false ↦ elim (ltb max_record_bytes counted.record_bytes) [
        | true ↦ err record_length_limit (abort_cleanup counted)
        | false ↦ elim (boundary_step cfg.format st.csv_state c) [
          | none ↦ err malformed_csv (abort_cleanup counted)
          | some (state, false) ↦
              slice_loop disk cfg buffer (slice ++ c ∷ []) (record counted { csv_state = state })
          | some (state, true) ↦
              end_record disk cfg (record counted { csv_state = state }) (slice ++ c ∷ [])
              >>= slice_loop disk cfg buffer []
        ]
      ]
    ]

-- What `read` answers: some bytes (none at the end of the input), an interruption or an `errno`.
pub data ReadAnswer : Type 0 where
  got : Bytes → ReadAnswer
  read_interrupted : ReadAnswer
  read_failed : ℕ → ReadAnswer

-- Behind the loop, for each format.
unfoldable pub finish_format : Disk → FormatType → SnSliceState → Result
finish_format disk format_ndjson st =
    if ltb 0 st.record_bytes then err malformed_ndjson (abort_cleanup st) else close_chunk disk st
finish_format disk format_csv st = elim st.csv_state [
  | csv_quoted ↦ err malformed_csv (abort_cleanup st)
  | _ ↦ close_chunk disk (record st {
    chunk_records = if ltb 0 st.record_bytes then add_size st.chunk_records 1 else st.chunk_records;
  })
]

unfoldable pub finish_slice : Disk → SnSliceConfig → SnSliceState → Result
finish_slice disk cfg st =
    if st.total_input_bytes == 0 then ok st else finish_format disk cfg.format st

-- The `while (1)`; when the answers are used up the input has ended.
unfoldable pub stream_slice : Disk → SnSliceConfig → List ReadAnswer → SnSliceState → Result
stream_slice disk cfg [] st = finish_slice disk cfg st
stream_slice disk cfg (read_interrupted ∷ answers) st = stream_slice disk cfg answers st
stream_slice disk cfg (read_failed errno ∷ answers) st = err input_read_error (abort_cleanup st)
stream_slice disk cfg (got [] ∷ answers) st = finish_slice disk cfg st
stream_slice disk cfg (got (c ∷ bytes) ∷ answers) st =
    slice_loop disk cfg (c ∷ bytes) []
      (record st { total_input_bytes = add_size st.total_input_bytes (length (c ∷ bytes)) })
    >>= stream_slice disk cfg answers
