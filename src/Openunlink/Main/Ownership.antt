-- ===== src/Openunlink/Main/Ownership.antt =====
-- The descriptors and buffers that a scan takes and gives back.
pub mod Steps
pub mod Run
use linux_utilities.Common.{
  ℕ, ◌+◌, ◌≤◌, ◌≡◌, refl, Bool, true, false, List, [], ◌∷◌, ◌++◌, Option, none, some, if◌then◌else◌,
  arith, Bytes, take, Bool-cases, Option-cases, inl, inr,
}
use linux_utilities.Common.Stdio.{Stream}
use linux_utilities.Openunlink.Finding.{target_buf_size, emit_finding, finding_line_capacity}
use linux_utilities.Openunlink.Number.{parse_fd_name}
use linux_utilities.Openunlink.Inspect.{
  convert_size, report_unlinked, confirm, read_target, inspect_one,
}
use linux_utilities.Openunlink.Main.{
  cleanup_scan, emit_operational, initial_state, final_state, scan_process,
}
use linux_utilities.Openunlink.Scan.{
  allocate_scan_buffers, enumerate_fds, sort_and_check_duplicates, inspect_all, open_process,
  duplicate_directory, open_stream, close_stream, count_limit, flush_output, close_process,
  run_scan, process_path_fits,
}
use linux_utilities.Openunlink.State.{
  OpCode, Counts, Advisory, ScanState, set_op, emit_fd_advisory, emit_count_advisory, Result, ok,
  failed, Stat, StatAnswer, stat_failed, stat_ok, LinkAnswer, link_failed, link_text, ◌>>=◌,
  fail_with, World,
}

-- The part of the state that is about resources.
pub record Resources : Type 0 where
  pub dir_fd : Bool
  pub dup_fd : Bool
  pub dir : Bool
  pub fds_buf : Bool
  pub link_buf : Bool
  pub line_buf : Bool
  pub directory : Counts
  pub duplicate : Counts
  pub fds_memory : Counts
  pub link_memory : Counts
  pub line_memory : Counts

abbrev pub resources : ScanState → Resources
resources st = record {
  dir_fd = st.dir_fd;
  dup_fd = st.dup_fd;
  dir = st.dir;
  fds_buf = st.fds_buf;
  link_buf = st.link_buf;
  line_buf = st.line_buf;
  directory = st.directory;
  duplicate = st.duplicate;
  fds_memory = st.fds_memory;
  link_memory = st.link_memory;
  line_memory = st.line_memory;
}

-- Taken at most once, and not given back while it is held.
abbrev Owes : Bool → Counts → Type 0
Owes held c = (c.acquired ≡ c.released + (if held then 1 else 0)) × (c.acquired ≤ 1)

-- The duplicate is held by the scanner or by the `DIR`, never by both.
pub record IsBalanced (r : Resources) : Type 0 where
  pub directory_owed : Owes r.dir_fd r.directory
  pub duplicate_owed : Owes (if r.dir then true else r.dup_fd) r.duplicate
  pub fds_owed : Owes r.fds_buf r.fds_memory
  pub link_owed : Owes r.link_buf r.link_memory
  pub line_owed : Owes r.line_buf r.line_memory

abbrev After : Resources → Result → Type 0
After r (ok st) = resources st ≡ r
After r (failed st) = IsBalanced (resources st)

bind-After :
    (r r' : Resources) (m : Result) (f : ScanState → Result)
    → After r m
    → ((st : ScanState) → resources st ≡ r → After r' (f st))
    → After r' (m >>= f)
bind-After r r' (ok st) f h k = k st h
bind-After r r' (failed st) f h k = h

abbrev none_yet : Counts
none_yet = record { acquired = 0; released = 0 }

abbrev held_once : Counts
held_once = record { acquired = 1; released = 0 }

abbrev given_back : Counts
given_back = record { acquired = 1; released = 1 }

abbrev stage : Bool → Bool → Bool → Bool → Counts → Counts → Counts → Resources
stage fd dup dir buffers directory duplicate memory = record {
  dir_fd = fd;
  dup_fd = dup;
  dir = dir;
  fds_buf = buffers;
  link_buf = buffers;
  line_buf = buffers;
  directory = directory;
  duplicate = duplicate;
  fds_memory = memory;
  link_memory = memory;
  line_memory = memory;
}

abbrev fresh : Resources
fresh = stage false false false false none_yet none_yet none_yet

abbrev opened : Resources
opened = stage true false false false held_once none_yet none_yet

abbrev duplicated : Resources
duplicated = stage true true false false held_once held_once none_yet

abbrev equipped : Resources
equipped = stage true true false true held_once held_once held_once

abbrev streaming : Resources
streaming = stage true false true true held_once held_once held_once

abbrev listed : Resources
listed = stage true false false true held_once given_back held_once

abbrev finished : Resources
finished = stage false false false true given_back given_back held_once
