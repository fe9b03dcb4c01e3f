-- ===== src/Snslice/Diagnostic.antt =====
-- src/snslice.c: the line that a diagnostic is.
use linux_utilities.Common.{[], ◌∷◌, ◌++◌, take, Bytes}
use linux_utilities.Common.Text.{codes}
use linux_utilities.Snslice.Chunk.{
  Hazard, usage_error, unknown_option, invalid_limit, invalid_format, input_not_found,
  input_is_directory, input_read_error, record_length_limit, malformed_ndjson, malformed_csv,
  output_dir_error, output_collision, chunk_open_error, chunk_write_error, broken_pipe,
}

abbrev hazard_name : Hazard → Bytes
hazard_name usage_error = codes "USAGE_ERROR"
hazard_name unknown_option = codes "UNKNOWN_OPTION"
hazard_name invalid_limit = codes "INVALID_LIMIT"
hazard_name invalid_format = codes "INVALID_FORMAT"
hazard_name input_not_found = codes "INPUT_NOT_FOUND"
hazard_name input_is_directory = codes "INPUT_IS_DIRECTORY"
hazard_name input_read_error = codes "INPUT_READ_ERROR"
hazard_name record_length_limit = codes "RECORD_LENGTH_LIMIT"
hazard_name malformed_ndjson = codes "MALFORMED_NDJSON"
hazard_name malformed_csv = codes "MALFORMED_CSV"
hazard_name output_dir_error = codes "OUTPUT_DIR_ERROR"
hazard_name output_collision = codes "OUTPUT_COLLISION"
hazard_name chunk_open_error = codes "CHUNK_OPEN_ERROR"
hazard_name chunk_write_error = codes "CHUNK_WRITE_ERROR"
hazard_name broken_pipe = codes "BROKEN_PIPE"

-- The text on standard error. `details` is formatted already; `char details[2048]` keeps 2047 bytes.
unfoldable pub emit_diagnostic : Hazard → Bytes → Bytes
emit_diagnostic hazard details =
    ((codes "snslice: " ++ hazard_name hazard) ++ (codes ": " ++ take 2047 details)) ++ b'\n' ∷ []
