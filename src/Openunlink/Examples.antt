-- ===== src/Openunlink/Examples.antt =====
-- Runs of openunlink's parts on concrete inputs, and the theorems at them.
use linux_utilities.Common.{
  ℕ, ◌≡◌, ◌↔◌, refl, true, false, List, [], ◌∷◌, none, some, arith, Bytes, same_text, if◌then◌else◌,
  ◌==◌,
}
use mathlib.Core.List.{Perm}
use linux_utilities.Common.Decimal.{decimal}
use linux_utilities.Common.Stdio.{Stream, fputs}
use linux_utilities.Common.Text.{codes}
use linux_utilities.Openunlink.Finding.{
  finding_line_capacity, escape_append, finding_head, finding_line, emit_finding,
}
use linux_utilities.Openunlink.Finding.Capacity.{finding_text, finding_line_fits, escaped}
use linux_utilities.Openunlink.Inspect.{report_unlinked, confirm, read_target, inspect_one}
use linux_utilities.Openunlink.Inspect.Verdict.{
  verdict, unlinked, IsUnlinked, verdict-IsUnlinked, verdict_text, SizesFit,
}
use linux_utilities.Openunlink.Main.{main, initial_state, shown_out, scan_process, emit_operational}
use linux_utilities.Openunlink.Main.Outcome.{Delivers, scan_process-Delivers}
use linux_utilities.Openunlink.Main.Ownership.Run.{LeavesClean, scan_process-LeavesClean}
use linux_utilities.Openunlink.Main.Reports.{Lists, ended, dot, number, scan_text}
use linux_utilities.Openunlink.Number.{
  parse_pid, parse_fd_name, parse_canonical_int, digit_loop, next_acc,
}
use linux_utilities.Openunlink.Number.Laws.{IsNumeral, parse_canonical_int_iff}
use linux_utilities.Openunlink.Scan.{
  allocate_scan_buffers, enumerate_fds, sort_fds, has_duplicate, sort_and_check_duplicates,
  inspect_all, open_process, duplicate_directory, open_stream, close_stream, count_limit,
  flush_output, close_process, run_scan, process_path_fits, process_path_capacity,
}
use linux_utilities.Openunlink.Scan.Sorting.{IsAscending, sort_and_check_duplicates-IsAscending}
use linux_utilities.Openunlink.State.{
  op_process_access, operational, fd_advisory, fd_unstable, ScanState, ok, nonnegative, Stat,
  StatAnswer, stat_failed, stat_ok, link_text, World, set_op, emit_fd_advisory, report_text,
}

abbrev stream : Stream
stream = record { written = []; room = 1000; flushes = true; errno = 0 }

abbrev gone : Stat
gone = record { st_dev = 1; st_ino = 7; st_mode = 33188; st_nlink = 0; st_size = nonnegative 12 }

-- Descriptor 3 is an unlinked file of 12 bytes, 10 has gone away, any other is a directory.
abbrev first_answer : ℕ → StatAnswer
first_answer fd =
    if fd == 3
    then stat_ok gone
    else if fd == 10
    then stat_failed 2
    else stat_ok (record gone { st_mode = 16877 })

abbrev world : World
world = record {
  open_error = none;
  dups = true;
  allocates_fds = true;
  allocates_link = true;
  allocates_line = true;
  fdopens = true;
  entries = codes "10" ∷ codes "." ∷ codes "3" ∷ codes ".." ∷ codes "0" ∷ [];
  readdir_fails = false;
  closes_dir = true;
  closes_fd = true;
  first_stat = first_answer;
  link = λ _. link_text (codes "/tmp/a\" (deleted)");
  second_stat = λ _. stat_ok gone;
}

abbrev fds : List ℕ
fds = 10 ∷ 3 ∷ 0 ∷ []

abbrev found : Bytes
found = codes "OPEN_UNLINKED\tpid=42\tfd=3\tsize=12\ttarget=\"/tmp/a\\\" (deleted)\"\n"

scan_writes :
    (scan_process world 42 stream).out ≡ some (record stream { written = found; room = 938 })
unfolding scan_process shown_out run_scan process_path_fits process_path_capacity decimal
    open_process duplicate_directory allocate_scan_buffers open_stream enumerate_fds parse_fd_name
    parse_canonical_int digit_loop next_acc close_stream sort_and_check_duplicates sort_fds
    has_duplicate count_limit inspect_all inspect_one read_target confirm report_unlinked
    emit_finding finding_line finding_line_capacity finding_head escape_append fputs flush_output
    close_process emit_operational emit_fd_advisory same_text
scan_writes = refl

-- A directory that may not be opened.
denied :
    (main (codes "42" ∷ []) (record world { open_error = some 13 }) stream).err
    ≡ operational op_process_access 42 ∷ []
unfolding main parse_pid parse_canonical_int digit_loop next_acc scan_process run_scan
    process_path_fits process_path_capacity decimal open_process set_op emit_operational same_text
denied = refl

advisory_line :
    report_text (fd_advisory fd_unstable 42 10) ≡ codes "openunlink: FD_UNSTABLE: pid=42 fd=10\n"
unfolding report_text decimal
advisory_line = refl

listed : Lists world.entries fds
unfolding same_text decimal
listed =
    number 10 _ (omega arith) refl (
      dot _ refl (number 3 _ (omega arith) refl (dot _ refl (number 0 _ (omega arith) refl ended))))

sized : (fd : ℕ) → SizesFit world fd
sized fd second n e f = ground arith

scan_process-Delivers_example : Delivers world 42 stream fds (scan_process world 42 stream)
unfolding scan_text verdict verdict_text finding_text finding_head escaped decimal
scan_process-Delivers_example =
    scan_process-Delivers world 42 stream fds
      (record {
        opens = refl;
        duplicates = refl;
        allocates = (refl, refl, refl);
        streams = refl;
        reads = refl;
        closes = (refl, refl);
      })
      (omega arith) listed (ground arith) (omega arith) (sized 10, (sized 3, (sized 0, tt)))
      (omega arith) refl

scan_process-LeavesClean_example : LeavesClean (scan_process world 42 stream).scan
scan_process-LeavesClean_example = scan_process-LeavesClean world 42 stream

parse_canonical_int_iff_example :
    (parse_canonical_int true (codes "10") ≡ some 10) ↔ IsNumeral true (codes "10") 10
parse_canonical_int_iff_example = parse_canonical_int_iff true (codes "10") 10

verdict-IsUnlinked_example :
    (verdict world 3 ≡ unlinked 12 (codes "/tmp/a")) ↔ IsUnlinked world 3 12 (codes "/tmp/a")
verdict-IsUnlinked_example = verdict-IsUnlinked world 3 12 (codes "/tmp/a")

finding_line_fits_example :
    finding_line finding_line_capacity 42 3 12 (codes "/tmp/a")
    ≡ some (finding_text 42 3 12 (codes "/tmp/a"))
finding_line_fits_example =
    finding_line_fits 42 3 12 (codes "/tmp/a") (omega arith) (omega arith) (omega arith)
      (omega arith)

abbrev unsorted : ScanState
unsorted = record (initial_state 42 stream) { fds = fds }

sorts : sort_and_check_duplicates unsorted ≡ ok (record unsorted { fds = 0 ∷ 3 ∷ 10 ∷ [] })
unfolding sort_and_check_duplicates sort_fds has_duplicate
sorts = refl

sort_and_check_duplicates-IsAscending_example :
    IsAscending (0 ∷ 3 ∷ 10 ∷ []) × Perm (0 ∷ 3 ∷ 10 ∷ []) fds
sort_and_check_duplicates-IsAscending_example =
    sort_and_check_duplicates-IsAscending unsorted (record unsorted { fds = 0 ∷ 3 ∷ 10 ∷ [] }) sorts
