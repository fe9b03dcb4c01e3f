-- ===== src/Openunlink/Main.antt =====
-- src/openunlink.c: the clean-up, the exit status and `main`.
pub mod Outcome
pub mod Ownership
pub mod Reports
use linux_utilities.Common.{
  ℕ, Bool, true, false, ◌||◌, List, [], ◌∷◌, ◌++◌, Option, none, some, if◌then◌else◌, Bytes,
  same_text,
}
use linux_utilities.Common.Stdio.{Stream, fputs}
use linux_utilities.Common.Text.{codes}
use linux_utilities.Openunlink.Number.{parse_pid}
use linux_utilities.Openunlink.Scan.{run_scan}
use linux_utilities.Openunlink.State.{
  OpCode, op_none, op_usage, op_stdout_write, Report, operational, Counts, release, ScanState,
  Result, ok, failed, World,
}

-- `closedir` or `close` of the duplicate, `close` of the directory and three calls of `free`.
unfoldable pub cleanup_scan : ScanState → ScanState
cleanup_scan st = record st {
  dir = false;
  dup_fd = false;
  duplicate =
      if st.dir
      then release st.duplicate
      else if st.dup_fd
      then release st.duplicate
      else st.duplicate;
  dir_fd = false;
  directory = if st.dir_fd then release st.directory else st.directory;
  fds_buf = false;
  fds_memory = if st.fds_buf then release st.fds_memory else st.fds_memory;
  link_buf = false;
  link_memory = if st.link_buf then release st.link_memory else st.link_memory;
  line_buf = false;
  line_memory = if st.line_buf then release st.line_memory else st.line_memory;
}

unfoldable pub finish_status : ScanState → ℕ
finish_status st = elim st.op [
  | op_none ↦ if st.had_finding || st.had_advisory then 1 else 0
  | _ ↦ 2
]

unfoldable pub emit_operational : ScanState → ScanState
emit_operational st = elim st.op [
  | op_none ↦ st
  | code ↦ record st { err = st.err ++ operational code st.pid ∷ [] }
]

abbrev unused : Counts
unused = record { acquired = 0; released = 0 }

-- `memset`, -1 for the descriptors, and the process number.
abbrev pub initial_state : ℕ → Stream → ScanState
initial_state pid out = record {
  pid = pid;
  dir_fd = false;
  dup_fd = false;
  dir = false;
  fds_buf = false;
  link_buf = false;
  line_buf = false;
  line_cap = 0;
  fds = [];
  fd_count_limit = false;
  had_finding = false;
  had_advisory = false;
  op = op_none;
  out = out;
  err = [];
  directory = unused;
  duplicate = unused;
  fds_memory = unused;
  link_memory = unused;
  line_memory = unused;
}

-- The exit status, standard output if every write to it succeeded, the reports, and the state that a
-- scan leaves.
pub record Exit : Type 0 where
  pub status : ℕ
  pub out : Option Stream
  pub err : List Report
  pub scan : Option ScanState

abbrev stdout_failed : Exit
stdout_failed = record {
  status = 2;
  out = none;
  err = operational op_stdout_write 0 ∷ [];
  scan = none;
}

-- `handle_help` and `handle_version`
unfoldable pub handle_text : Bytes → Stream → Exit
handle_text text s = elim (fputs text s) [
  | none ↦ stdout_failed
  | some s' ↦
      if s'.flushes
      then record { status = 0; out = some s'; err = []; scan = none }
      else stdout_failed
]

abbrev help_text : Bytes
help_text =
    codes "Usage: openunlink PID\n"
    ++ (codes "       openunlink --help\n"
        ++ (codes "       openunlink --version\n"
            ++ codes "Report zero-link regular-file descriptors for one Linux process.\n"))

abbrev pub final_state : Result → ScanState
final_state (ok st) = st
final_state (failed st) = st

-- Nothing is known of what standard output holds after a failed write.
abbrev pub out_unless : OpCode → Stream → Option Stream
out_unless op_stdout_write out = none
out_unless _ out = some out

-- Standard output behind a scan.
unfoldable pub shown_out : ScanState → Option Stream
shown_out st = out_unless st.op st.out

-- The scan of `main`, whose own result `main` ignores.
unfoldable pub scan_process : World → ℕ → Stream → Exit
scan_process w pid s =
    let st = final_state (run_scan w (initial_state pid s)) in
    let reported = emit_operational st in
    record {
      status = finish_status st;
      out = shown_out reported;
      err = reported.err;
      scan = some (cleanup_scan reported);
    }

abbrev usage_error : Stream → Exit
usage_error s = record { status = 2; out = some s; err = operational op_usage 0 ∷ []; scan = none }

-- `main` on the arguments behind `argv[0]`.
unfoldable pub main : List Bytes → World → Stream → Exit
main (arg ∷ []) w s =
    if same_text arg (codes "--help")
    then handle_text help_text s
    else if same_text arg (codes "--version")
    then handle_text (codes "openunlink 0.1.0\n") s
    else elim (parse_pid arg) [ none ↦ usage_error s | some pid ↦ scan_process w pid s ]
main _ w s = usage_error s
