-- ===== src/Permguard/Scan/WriteError.antt =====
-- A scan whose standard output fails.
use linux_utilities.Common.{
  ◌-◌, ◌<◌, ◌⊎◌, ◌≡◌, refl, Bool, true, false, List, [], ◌∷◌, ◌++◌, inl, inr, Bool-cases, none, leb,
  arith, Bytes, length, length-append,
}
use linux_utilities.Common.Stdio.{Stream}
use linux_utilities.Common.Stdio.Laws.{fputs-room, fputs_full}
use linux_utilities.Permguard.Scan.{
  Reason, symbolic_link, Lstat, lstat_failed, lstat_ok, lstat_failure, is_link, complete_stdout,
  scan_loop, run_scan,
}
use linux_utilities.Permguard.Scan.Findings.{mode_text, findings-mode_text}
use linux_utilities.Permguard.Scan.Outcome.{
  is_risky, scan_text, classify_mode-risky, mode_text-safe,
}

scan_loop_write_error :
    (lstat : Bytes → Lstat) (paths : List Bytes) (failed risked : Bool) (reasons : List Reason)
    (s : Stream)
    → (s.room < length (scan_text lstat paths)) ⊎ (s.flushes ≡ false)
    → ((scan_loop lstat paths failed risked reasons s).status ≡ 2)
      × ((scan_loop lstat paths failed risked reasons s).out ≡ none)
unfolding scan_loop complete_stdout scan_text
scan_loop_write_error lstat [] failed risked reasons s bad = ground arith
scan_loop_write_error lstat (path ∷ paths) failed risked reasons s bad =
    go (lstat path) refl (scan_loop_write_error lstat paths)
  where
    go :
        (a : Lstat)
        → lstat path ≡ a
        → ((f r : Bool) (rs : List Reason) (s' : Stream)
            → (s'.room < length (scan_text lstat paths)) ⊎ (s'.flushes ≡ false)
            → ((scan_loop lstat paths f r rs s').status ≡ 2)
              × ((scan_loop lstat paths f r rs s').out ≡ none))
        → ((scan_loop lstat (path ∷ paths) failed risked reasons s).status ≡ 2)
          × ((scan_loop lstat (path ∷ paths) failed risked reasons s).out ≡ none)
    go (lstat_failed errno) e ih =
        ground (arith, ih true risked (reasons ++ lstat_failure path errno ∷ []) s)
    go (lstat_ok mode) e ih = elim (Bool-cases (is_link mode)) [
      | inl link ↦ ground (arith, ih true risked (reasons ++ symbolic_link path ∷ []) s)
      | inr plain ↦ elim (Bool-cases (is_risky mode)) [
        | inr safe ↦ ground (
          arith,
          ih failed risked reasons s,
          classify_mode-risky mode,
          mode_text-safe mode path safe,
        )
        | inl risky ↦ elim (Bool-cases (leb (length (mode_text mode path)) s.room)) [
          | inl fits ↦ ground (
            arith,
            classify_mode-risky mode,
            findings-mode_text mode path s,
            fputs-room (mode_text mode path) s,
            length-append (mode_text mode path) (scan_text lstat paths),
            ih failed true reasons (record s {
              written = s.written ++ mode_text mode path;
              room = s.room - length (mode_text mode path);
            }),
          )
          | inr full ↦ ground (
            arith,
            classify_mode-risky mode,
            findings-mode_text mode path s,
            fputs_full (mode_text mode path) s,
          )
        ]
      ]
    ]

-- If the findings do not fit standard output, or its flush fails, then `run_scan` ends with status
-- 2 and without a completed output, whatever was found.
pub run_scan_write_error :
    (lstat : Bytes → Lstat) (paths : List Bytes) (s : Stream)
    → (s.room < length (scan_text lstat paths)) ⊎ (s.flushes ≡ false)
    → ((run_scan lstat paths s).status ≡ 2) × ((run_scan lstat paths s).out ≡ none)
unfolding run_scan
run_scan_write_error lstat paths s bad = scan_loop_write_error lstat paths false false [] s bad
