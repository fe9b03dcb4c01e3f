-- ===== src/Snslice/Examples.antt =====
-- Runs of snslice's parts on concrete inputs, and the theorems at them.
use linux_utilities.Common.{
  same_text, ◌≡◌, refl, true, false, List, [], ◌∷◌, none, some, length, arith, Bytes, if◌then◌else◌,
  ◌==◌,
}
use linux_utilities.Common.Text.{codes}
use linux_utilities.Snslice.Boundary.{
  format_csv, csv_start, csv_unquoted, csv_escaped_quote, csv_step, SnSliceConfig, boundary_step,
}
use linux_utilities.Snslice.Chunk.{
  output_collision, broken_pipe, invalid_limit, Disk, ok, err, wrote, write_failed,
  write_interrupted, WriteAnswer, chunk_path, own_path, open_chunk, close_active, close_chunk,
  write_all, write_active, write_to_chunk, abort_cleanup,
}
use linux_utilities.Snslice.Diagnostic.{emit_diagnostic}
use linux_utilities.Snslice.Main.{
  is_directory, is_other, World, informational, initial_state, finish, input_file, run_input,
  run_config, main,
}
use linux_utilities.Snslice.Main.Outcome.{Ends, main-Ends}
use linux_utilities.Snslice.Options.{
  parsed, refused, configure, default_config, parse_options, classify, set_field, set_limit,
  take_positional, check_config, has_slash, has_dots, is_empty, parse_positive_size, strip_start,
  sanitized, sanitize_string, sanitize_loop,
}
use linux_utilities.Snslice.Options.Shown.{IsSanitized, sanitize_string-IsSanitized}
use linux_utilities.Snslice.Options.Valid.{IsUsable, configure-IsUsable}
use linux_utilities.Snslice.Stream.{
  ReadAnswer, got, read_interrupted, should_split, end_record, slice_loop, finish_format,
  finish_slice, stream_slice,
}
use linux_utilities.Snslice.Stream.Whole.{read_bytes}

-- An output directory without files, and one in which the second name is taken.
abbrev empty_disk : Disk
empty_disk = record { taken = λ _. false; open_error = λ _. none; close_fails = λ _. false }

abbrev world : List ReadAnswer → List WriteAnswer → World
world answers writes = record {
  stat = λ _. is_directory;
  opens = λ _. true;
  reads = λ _. answers;
  disk = empty_disk;
  writes = writes;
}

abbrev one_record : List Bytes
one_record = codes "--records=1" ∷ []

abbrev cfg : SnSliceConfig
cfg = record default_config { limit_records = 1 }

abbrev two_reads : List ReadAnswer
two_reads = got (codes "{}\n[") ∷ read_interrupted ∷ got (codes "]\n") ∷ []

-- Two records in two reads become two chunks.
stream_two :
    stream_slice empty_disk cfg two_reads (initial_state false (wrote 1 ∷ write_interrupted ∷ []))
    ≡ ok (record (initial_state false []) {
      closed =
          record { path = codes "./chunk_00001.ndjson"; content = codes "{}\n" }
          ∷ record { path = codes "./chunk_00002.ndjson"; content = codes "[]\n" }
          ∷ [];
      chunk_index = 3;
      total_input_bytes = 6;
    })
unfolding stream_slice slice_loop end_record should_split finish_slice finish_format boundary_step
    csv_step write_to_chunk write_active write_all open_chunk close_chunk close_active chunk_path
    own_path same_text abort_cleanup
stream_two = refl

-- A failing write removes the chunk, and the input is closed a second time.
closes_twice :
    (main (codes "--records=1" ∷ codes "in" ∷ []) (record (world two_reads (write_failed 32 ∷ [])) {
      stat = λ path. if length path == 1 then is_directory else is_other;
    })).sliced
    ≡ some (
        err broken_pipe (record (initial_state true []) {
          input_open = false;
          input_closes = 2;
          record_bytes = 3;
          total_input_bytes = 4;
        }))
unfolding main informational configure parse_options classify set_field set_limit take_positional
    check_config has_slash has_dots is_empty parse_positive_size strip_start run_config run_input
    input_file finish stream_slice slice_loop end_record should_split finish_slice finish_format
    boundary_step csv_step write_to_chunk write_active write_all open_chunk close_chunk close_active
    chunk_path own_path same_text abort_cleanup
closes_twice = refl

-- A quote inside an unquoted field is data; after a closing quote only a separator may stand.
csv_quotes :
    (csv_step csv_unquoted b'"' ≡ some (csv_unquoted, false))
    × (csv_step csv_escaped_quote b'x' ≡ none)
    × (boundary_step format_csv csv_start b'\n' ≡ some (csv_start, true))
unfolding csv_step boundary_step
csv_quotes = (refl, refl, refl)

configured : configure one_record ≡ parsed cfg
unfolding configure parse_options classify set_field set_limit take_positional check_config
    has_slash has_dots is_empty parse_positive_size strip_start same_text
configured = refl

plain : informational one_record ≡ none
unfolding informational same_text
plain = refl

refuses_zero : configure (codes "-b" ∷ codes "0" ∷ []) ≡ refused invalid_limit (codes "0")
unfolding configure parse_options classify set_field set_limit take_positional check_config
    has_slash has_dots is_empty parse_positive_size strip_start same_text sanitized sanitize_string
    sanitize_loop
refuses_zero = refl

main-Ends_example : Ends (codes "{}\n[]\n") (main one_record (world two_reads []))
unfolding read_bytes input_file
main-Ends_example = main-Ends one_record cfg (world two_reads []) plain configured (omega arith)

configure-IsUsable_example : IsUsable cfg
configure-IsUsable_example = configure-IsUsable one_record cfg configured

sanitizes : sanitize_string (some (27 ∷ b'"' ∷ b'a' ∷ [])) 20 ≡ some (codes "\\x1B\\x22a")
unfolding sanitize_string sanitize_loop
sanitizes = refl

cuts : sanitize_string (some (27 ∷ b'"' ∷ b'a' ∷ [])) 9 ≡ some (codes "\\x1B")
unfolding sanitize_string sanitize_loop
cuts = refl

sanitize_string-IsSanitized_example :
    IsSanitized (27 ∷ b'"' ∷ b'a' ∷ []) 9 (sanitize_string (some (27 ∷ b'"' ∷ b'a' ∷ [])) 9)
sanitize_string-IsSanitized_example =
    sanitize_string-IsSanitized (27 ∷ b'"' ∷ b'a' ∷ []) 9
      (omega arith, (omega arith, (omega arith, tt))) (omega arith)

collides :
    emit_diagnostic output_collision (codes "\"out/chunk_00001.csv\"")
    ≡ codes "snslice: OUTPUT_COLLISION: \"out/chunk_00001.csv\"\n"
unfolding emit_diagnostic
collides = refl
