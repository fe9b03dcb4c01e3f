-- ===== src/Snslice/Boundary.antt =====
-- src/snslice.c: the configuration, and the automaton that finds the end of a record.
use linux_utilities.Common.{
  ℕ, Bool, true, false, Option, none, some, ◌||◌, ◌==◌, if◌then◌else◌, Bytes,
}

pub data FormatType : Type 0 where
  format_ndjson format_csv : FormatType

pub data CsvState : Type 0 where
  csv_start csv_unquoted csv_quoted csv_escaped_quote : CsvState

pub record SnSliceConfig : Type 0 where
  pub format : FormatType
  pub limit_bytes : ℕ
  pub limit_records : ℕ
  pub out_dir : Bytes
  pub prefix : Bytes
  pub input_path : Option Bytes

-- `switch (st->csv_state)`: the next state and whether a record ends; `none` is an invalid
-- character after a closing quote.
unfoldable pub csv_step : CsvState → ℕ → Option (CsvState × Bool)
csv_step csv_start c =
    if c == b'"'
    then some (csv_quoted, false)
    else if c == b'\n'
    then some (csv_start, true)
    else if c == b',' || c == b'\r'
    then some (csv_start, false)
    else some (csv_unquoted, false)
csv_step csv_unquoted c =
    if c == b','
    then some (csv_start, false)
    else if c == b'\n'
    then some (csv_start, true)
    else some (csv_unquoted, false)
csv_step csv_quoted c =
    if c == b'"' then some (csv_escaped_quote, false) else some (csv_quoted, false)
csv_step csv_escaped_quote c =
    if c == b'"'
    then some (csv_quoted, false)
    else if c == b','
    then some (csv_start, false)
    else if c == b'\n'
    then some (csv_start, true)
    else if c == b'\r'
    then some (csv_escaped_quote, false)
    else none

-- The test of both formats. NDJSON leaves the automaton where it is.
unfoldable pub boundary_step : FormatType → CsvState → ℕ → Option (CsvState × Bool)
unfolding csv_step
boundary_step format_ndjson state c = some (state, c == b'\n')
boundary_step format_csv state c = csv_step state c
