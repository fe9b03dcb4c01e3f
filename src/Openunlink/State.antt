-- ===== src/Openunlink/State.antt =====
-- src/openunlink.c: `struct ScanState`, what goes to standard error, and the answers of the kernel.
use linux_utilities.Common.{
  ℕ, ◌+◌, Bool, true, false, List, [], ◌∷◌, ◌++◌, Option, none, some, if◌then◌else◌, Bytes,
}
use linux_utilities.Common.Decimal.{decimal}
use linux_utilities.Common.Stdio.{Stream}
use linux_utilities.Common.Text.{codes}

pub data OpCode : Type 0 where
  op_none op_usage op_process_not_found op_process_access op_process_scan op_memory
        op_stdout_write :
      OpCode

pub data Advisory : Type 0 where
  fd_unstable fd_unreadable target_length_limit fd_size_range : Advisory

-- A line on standard error.
pub data Report : Type 0 where
  operational : OpCode → ℕ → Report
  fd_advisory : Advisory → ℕ → ℕ → Report
  count_advisory : ℕ → Report

abbrev op_name : OpCode → Option Bytes
op_name op_none = none
op_name op_usage = some (codes "USAGE")
op_name op_process_not_found = some (codes "PROCESS_NOT_FOUND")
op_name op_process_access = some (codes "PROCESS_ACCESS")
op_name op_process_scan = some (codes "PROCESS_SCAN")
op_name op_memory = some (codes "MEMORY")
op_name op_stdout_write = some (codes "STDOUT_WRITE")

abbrev is_pid_owned_op : OpCode → Bool
is_pid_owned_op op_process_not_found = true
is_pid_owned_op op_process_access = true
is_pid_owned_op op_process_scan = true
is_pid_owned_op _ = false

abbrev advisory_name : Advisory → Bytes
advisory_name fd_unstable = codes "FD_UNSTABLE"
advisory_name fd_unreadable = codes "FD_UNREADABLE"
advisory_name target_length_limit = codes "TARGET_LENGTH_LIMIT"
advisory_name fd_size_range = codes "FD_SIZE_RANGE"

-- What the calls of `fprintf` write.
unfoldable pub report_text : Report → Bytes
report_text (operational code pid) = elim (op_name code) [
  | none ↦ []
  | some name ↦
      codes "openunlink: "
      ++ (name
          ++ (if is_pid_owned_op code then codes ": pid=" ++ decimal pid else [])
          ++ b'\n' ∷ [])
]
report_text (fd_advisory code pid fd) =
    codes "openunlink: "
    ++ (advisory_name code
        ++ (codes ": pid=" ++ (decimal pid ++ (codes " fd=" ++ (decimal fd ++ b'\n' ∷ [])))))
report_text (count_advisory pid) =
    codes "openunlink: FD_COUNT_LIMIT: pid=" ++ (decimal pid ++ b'\n' ∷ [])

-- How often a resource was taken and given back.
pub record Counts : Type 0 where
  pub acquired : ℕ
  pub released : ℕ

abbrev pub acquire : Counts → Counts
acquire c = record c { acquired = c.acquired + 1 }

abbrev pub release : Counts → Counts
release c = record c { released = c.released + 1 }

-- A descriptor field is true while it is not negative, a pointer field while it is not null. `out`
-- and `err` are the two output streams, and the counts are those of the directory descriptor, its
-- duplicate (which the `DIR` takes over) and the three buffers.
pub record ScanState : Type 0 where
  pub pid : ℕ
  pub dir_fd : Bool
  pub dup_fd : Bool
  pub dir : Bool
  pub fds_buf : Bool
  pub link_buf : Bool
  pub line_buf : Bool
  pub line_cap : ℕ
  pub fds : List ℕ
  pub fd_count_limit : Bool
  pub had_finding : Bool
  pub had_advisory : Bool
  pub op : OpCode
  pub out : Stream
  pub err : List Report
  pub directory : Counts
  pub duplicate : Counts
  pub fds_memory : Counts
  pub link_memory : Counts
  pub line_memory : Counts

-- The first operational error stays.
unfoldable pub set_op : OpCode → ScanState → ScanState
set_op code st = elim st.op [ op_none ↦ record st { op = code } | _ ↦ st ]

unfoldable pub emit_fd_advisory : Advisory → ℕ → ScanState → ScanState
emit_fd_advisory code fd st = record st {
  err = st.err ++ fd_advisory code st.pid fd ∷ [];
  had_advisory = true;
}

unfoldable pub emit_count_advisory : ScanState → ScanState
emit_count_advisory st = record st {
  err = st.err ++ count_advisory st.pid ∷ [];
  had_advisory = true;
}

-- A function that returns 0 or -1.
pub data Result : Type 0 where
  ok : ScanState → Result
  failed : ScanState → Result

infixl 5 ◌>>=◌
abbrev pub ◌>>=◌ : Result → (ScanState → Result) → Result
ok st >>= f = f st
failed st >>= f = failed st

-- `set_op(st, code); return -1;`
abbrev pub fail_with : OpCode → ScanState → Result
fail_with code st = failed (set_op code st)

-- `st_size` is signed.
pub data OffT : Type 0 where
  nonnegative negative : ℕ → OffT

pub record Stat : Type 0 where
  pub st_dev : ℕ
  pub st_ino : ℕ
  pub st_mode : ℕ
  pub st_nlink : ℕ
  pub st_size : OffT

pub data StatAnswer : Type 0 where
  stat_failed : ℕ → StatAnswer
  stat_ok : Stat → StatAnswer

pub data LinkAnswer : Type 0 where
  link_failed : ℕ → LinkAnswer
  link_text : Bytes → LinkAnswer

-- What a scan finds: the `errno` of a failing `open`, whether the other calls succeed, the names that
-- `readdir` returns and whether it fails behind them, the two answers of `fstatat` and the one of
-- `readlinkat` for each descriptor.
pub record World : Type 0 where
  pub open_error : Option ℕ
  pub dups : Bool
  pub allocates_fds : Bool
  pub allocates_link : Bool
  pub allocates_line : Bool
  pub fdopens : Bool
  pub entries : List Bytes
  pub readdir_fails : Bool
  pub closes_dir : Bool
  pub closes_fd : Bool
  pub first_stat : ℕ → StatAnswer
  pub link : ℕ → LinkAnswer
  pub second_stat : ℕ → StatAnswer
