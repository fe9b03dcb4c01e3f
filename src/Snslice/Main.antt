-- ===== src/Snslice/Main.antt =====
-- src/snslice.c: `main`.
pub mod Outcome
use linux_utilities.Common.{
  same_text, ℕ, ◌+◌, Bool, true, false, ◌&&◌, ◌||◌, List, [], ◌∷◌, ◌++◌, Option, none, some,
  if◌then◌else◌, Bytes,
}
use linux_utilities.Common.Text.{codes}
use linux_utilities.Snslice.Boundary.{CsvState, csv_start, SnSliceConfig}
use linux_utilities.Snslice.Chunk.{
  Hazard, usage_error, output_dir_error, input_not_found, input_is_directory, WriteAnswer, Disk,
  SnSliceState, Result, ok, err,
}
use linux_utilities.Snslice.Options.{sanitized, parsed, refused, configure}
use linux_utilities.Snslice.Stream.{ReadAnswer, stream_slice}

-- What `stat` says of a path.
pub data Stat : Type 0 where
  is_missing is_directory is_other : Stat

-- What a run finds: the answers of `stat`, whether the input can be opened, what `read` answers on
-- standard input (`none`) or on the file at a path, the output directory and what `write` answers.
pub record World : Type 0 where
  pub stat : Bytes → Stat
  pub opens : Bytes → Bool
  pub reads : Option Bytes → List ReadAnswer
  pub disk : Disk
  pub writes : List WriteAnswer

-- The status, the text on standard output, the hazard and text of a refusal that `main` reports
-- itself, and the result of `stream_slice`, if it was called, with the input closed behind it.
pub record Exit : Type 0 where
  pub status : ℕ
  pub out : Bytes
  pub refusal : Option (Hazard × Bytes)
  pub sliced : Option Result

abbrev usage_text : Bytes
usage_text =
    codes "Usage: snslice [OPTIONS] [INPUT_FILE]\n\n"
    ++ (codes "Partition Newline-Delimited JSON (NDJSON) or CSV streams into chunk files.\n\n"
        ++ (codes "Options:\n"
            ++ (codes "  -b, --bytes BYTES       Chunk size threshold in bytes\n"
                ++ (codes "  -r, --records COUNT     Chunk size threshold in record count\n"
                    ++ (codes "  -f, --format FORMAT     Input format: ndjson (default) or csv\n"
                        ++ (codes
                              "  -d, --out-dir DIR       Output directory for chunk files (default: .)\n"
                            ++ (codes
                                  "  -p, --prefix PREFIX     Output chunk filename prefix (default: chunk_)\n"
                                ++ (codes "      --help              Display this help and exit\n"
                                    ++ (codes
                                          "      --version           Output version information and exit\n\n"
                                        ++ codes
                                            "If INPUT_FILE is omitted or '-', snslice reads from standard input.\n")))))))))

abbrev inform : Bytes → Exit
inform text = record { status = 0; out = text; refusal = none; sliced = none }

abbrev pub refuse : Hazard → Bytes → Exit
refuse h text = record { status = 2; out = []; refusal = some (h, text); sliced = none }

-- The first informational option among the arguments.
unfoldable pub informational : List Bytes → Option Bytes
unfolding same_text
informational [] = none
informational (arg ∷ args) =
    let rest = informational args in
    if same_text arg (codes "--help") || same_text arg (codes "--version") then some arg else rest

-- Its handling: it stands alone or is refused.
unfoldable pub inform_alone : Bytes → List Bytes → Exit
unfolding same_text
inform_alone arg (_ ∷ []) =
    if same_text arg (codes "--help") then inform usage_text else inform (codes "snslice 0.1.0\n")
inform_alone arg _ = refuse usage_error (sanitized arg)

-- The state that `stream_slice` starts from.
abbrev pub initial_state : Bool → List WriteAnswer → SnSliceState
initial_state close_input_fd writes = record {
  input_open = true;
  close_input_fd = close_input_fd;
  input_closes = 0;
  active = none;
  closed = [];
  chunk_index = 1;
  chunk_bytes = 0;
  chunk_records = 0;
  record_bytes = 0;
  total_input_bytes = 0;
  csv_state = csv_start;
  writes = writes;
}

-- `close(input_fd)` at the end: by the number in `main`'s own variable, which a clean-up leaves.
abbrev close_input : Bool → SnSliceState → SnSliceState
close_input close_input_fd st =
    if close_input_fd
    then record st { input_open = false; input_closes = st.input_closes + 1 }
    else st

unfoldable pub finish : Bool → Result → Exit
finish close_input_fd (ok st) = record {
  status = 0;
  out = [];
  refusal = none;
  sliced = some (ok (close_input close_input_fd st));
}
finish close_input_fd (err h st) = record {
  status = 2;
  out = [];
  refusal = none;
  sliced = some (err h (close_input close_input_fd st));
}

-- The input is a file unless its path is missing or is `-`.
unfoldable pub input_file : SnSliceConfig → Option Bytes
unfolding same_text
input_file cfg = elim cfg.input_path [
  | none ↦ none
  | some path ↦ if same_text path (codes "-") then none else some path
]

unfoldable pub run_input : Option Bytes → SnSliceConfig → World → Exit
run_input none cfg w =
    finish false (stream_slice w.disk cfg (w.reads none) (initial_state false w.writes))
run_input (some path) cfg w = elim (w.stat path) [
  | is_missing ↦ refuse input_not_found (sanitized path)
  | is_directory ↦ refuse input_is_directory (sanitized path)
  | is_other ↦
      if w.opens path
      then finish true (stream_slice w.disk cfg (w.reads (some path)) (initial_state true w.writes))
      else refuse input_not_found (sanitized path)
]

unfoldable pub run_config : SnSliceConfig → World → Exit
run_config cfg w = elim (w.stat cfg.out_dir) [
  | is_directory ↦ run_input (input_file cfg) cfg w
  | _ ↦ refuse output_dir_error (sanitized cfg.out_dir)
]

-- `main` on the arguments behind `argv[0]`.
unfoldable pub main : List Bytes → World → Exit
main args w = elim (informational args) [
  | some arg ↦ inform_alone arg args
  | none ↦ elim (configure args) [ refused h text ↦ refuse h text | parsed cfg ↦ run_config cfg w ]
]
