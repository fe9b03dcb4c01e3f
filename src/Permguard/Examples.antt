-- ===== src/Permguard/Examples.antt =====
-- Runs of permguard's parts on concrete inputs, and the theorems at them.
use linux_utilities.Common.{
  ℕ, ◌≡◌, inl, refl, true, List, [], ◌∷◌, none, some, length, arith, Bytes, if◌then◌else◌, ◌==◌,
}
use linux_utilities.Common.Stdio.{Stream, fputs, fputc}
use linux_utilities.Common.Text.{codes}
use linux_utilities.Permguard.Main.{main, find_option, run_operands}
use linux_utilities.Permguard.Quote.{put_quoted_byte, put_quoted_loop, put_escaped_quoted}
use linux_utilities.Permguard.Quote.Laws.{quoted, quoted_bytes}
use linux_utilities.Permguard.Scan.{
  missing, symbolic_link, unknown_option, Lstat, lstat_failed, lstat_ok, classify_mode,
  emit_finding, findings_loop, emit_findings_for_mask, lstat_failure, complete_stdout, scan_loop,
  run_scan,
}
use linux_utilities.Permguard.Scan.Findings.{finding_text, mode_text}
use linux_utilities.Permguard.Scan.Outcome.{
  scan_text, scan_reasons, any_fails, any_risks, run_scan-Reports,
}
use linux_utilities.Permguard.Scan.WriteError.{run_scan_write_error}

abbrev stream : ℕ → Stream
stream room = record { written = []; room = room; flushes = true; errno = 0 }

-- `a` is a regular file with mode 04722, `b` is missing, anything else is a symbolic link.
abbrev files : Bytes → Lstat
files path =
    if length path == 1
    then elim path [
      | [] ↦ lstat_failed 2
      | c ∷ _ ↦ if c == b'a' then lstat_ok 35282 else lstat_failed 2
    ]
    else lstat_ok 41471

abbrev paths : List Bytes
paths = codes "a" ∷ codes "b" ∷ codes "link" ∷ []

scan_three : run_scan files paths (stream 100) ≡ record {
  status = 2;
  out = some (record (stream 46) {
    written = codes "GROUP_WRITABLE\t\"a\"\nOTHER_WRITABLE\t\"a\"\nSET_USER_ID\t\"a\"\n";
  });
  err = missing (codes "b") ∷ symbolic_link (codes "link") ∷ [];
}
unfolding run_scan scan_loop classify_mode emit_findings_for_mask findings_loop emit_finding
    put_escaped_quoted put_quoted_loop put_quoted_byte fputs fputc lstat_failure complete_stdout
scan_three = refl

rejects_option :
    (main files (codes "permguard" ∷ codes "a" ∷ codes "-x" ∷ []) (stream 100)).err
    ≡ unknown_option (codes "-x") ∷ []
unfolding main run_operands find_option
rejects_option = refl

run_scan-Reports_example : run_scan files paths (stream 100) ≡ record {
  status = 2;
  out = some (record (stream 46) { written = scan_text files paths });
  err = missing (codes "b") ∷ symbolic_link (codes "link") ∷ [];
}
unfolding scan_text scan_reasons any_fails any_risks mode_text finding_text quoted quoted_bytes
    lstat_failure
run_scan-Reports_example = run_scan-Reports files paths (stream 100) (omega arith) refl

run_scan_write_error_example :
    ((run_scan files paths (stream 20)).status ≡ 2)
    × ((run_scan files paths (stream 20)).out ≡ none)
unfolding scan_text mode_text finding_text quoted quoted_bytes
run_scan_write_error_example = run_scan_write_error files paths (stream 20) (inl (omega arith))
