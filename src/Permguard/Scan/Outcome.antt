-- ===== src/Permguard/Scan/Outcome.antt =====
-- What a scan reports, and its exit status.
use linux_utilities.Common.{
  ℕ, ◌-◌, ◌≤◌, ◌≡◌, refl, Bool, true, false, not, ◌&&◌, ◌||◌, List, [], ◌∷◌, ◌++◌, inl, inr,
  Bool-cases, some, if◌then◌else◌, ◌==◌, arith, Bytes, length, length-append, append_assoc,
  append-nil,
}
use linux_utilities.Common.Stdio.{Stream}
use linux_utilities.Common.Stdio.Laws.{fputs-room}
use linux_utilities.Permguard.Scan.{
  Reason, symbolic_link, Exit, Lstat, lstat_failed, lstat_ok, bit_set, classify_mode, lstat_failure,
  is_link, complete_stdout, scan_loop, run_scan,
}
use linux_utilities.Permguard.Scan.Findings.{mode_text, findings-mode_text}

-- One of the four bits is set.
abbrev pub is_risky : ℕ → Bool
is_risky mode = bit_set 4 mode || bit_set 1 mode || bit_set 11 mode || bit_set 10 mode

abbrev pub fails : Lstat → Bool
fails (lstat_failed errno) = true
fails (lstat_ok mode) = is_link mode

abbrev pub risks : Lstat → Bool
risks (lstat_failed errno) = false
risks (lstat_ok mode) = not (is_link mode) && is_risky mode

-- The standard output: the findings of the operands that are inspected, in their order.
unfoldable pub scan_text : (Bytes → Lstat) → List Bytes → Bytes
scan_text lstat [] = []
scan_text lstat (path ∷ paths) =
    elim (lstat path) [
      | lstat_failed errno ↦ []
      | lstat_ok mode ↦ if is_link mode then [] else mode_text mode path
    ]
    ++ scan_text lstat paths

-- The reasons on standard error: one for each operand that is not inspected, in their order.
unfoldable pub scan_reasons : (Bytes → Lstat) → List Bytes → List Reason
scan_reasons lstat [] = []
scan_reasons lstat (path ∷ paths) =
    elim (lstat path) [
      | lstat_failed errno ↦ lstat_failure path errno ∷ []
      | lstat_ok mode ↦ if is_link mode then symbolic_link path ∷ [] else []
    ]
    ++ scan_reasons lstat paths

unfoldable pub any_fails : (Bytes → Lstat) → List Bytes → Bool
any_fails lstat [] = false
any_fails lstat (path ∷ paths) = fails (lstat path) || any_fails lstat paths

unfoldable pub any_risks : (Bytes → Lstat) → List Bytes → Bool
any_risks lstat [] = false
any_risks lstat (path ∷ paths) = risks (lstat path) || any_risks lstat paths

abbrev pub verdict : Bool → Bool → ℕ
verdict true _ = 2
verdict false true = 1
verdict false false = 0

pub classify_mode-risky : (mode : ℕ) → (classify_mode mode == 0) ≡ not (is_risky mode)
unfolding classify_mode
classify_mode-risky mode = ground arith

pub mode_text-safe : (mode : ℕ) (path : Bytes) → is_risky mode ≡ false → mode_text mode path ≡ []
unfolding mode_text
mode_text-safe mode path h = ground arith

-- The result of the rest of a scan.
abbrev Reports : Exit → (Bytes → Lstat) → List Bytes → Bool → Bool → List Reason → Stream → Type 0
Reports e lstat paths failed risked reasons s = e ≡ record {
  status = verdict (failed || any_fails lstat paths) (risked || any_risks lstat paths);
  out = some (record s {
    written = s.written ++ scan_text lstat paths;
    room = s.room - length (scan_text lstat paths);
  });
  err = reasons ++ scan_reasons lstat paths;
}

scan_loop-Reports :
    (lstat : Bytes → Lstat) (paths : List Bytes) (failed risked : Bool) (reasons : List Reason)
    (s : Stream)
    → length (scan_text lstat paths) ≤ s.room
    → s.flushes ≡ true
    → Reports (scan_loop lstat paths failed risked reasons s) lstat paths failed risked reasons s
unfolding scan_loop complete_stdout scan_text scan_reasons any_fails any_risks
scan_loop-Reports lstat [] failed risked reasons s fits flushes =
    ground (arith, append-nil s.written, append-nil reasons)
scan_loop-Reports lstat (path ∷ paths) failed risked reasons s fits flushes =
    go (lstat path) refl (scan_loop-Reports lstat paths)
  where
    go :
        (a : Lstat)
        → lstat path ≡ a
        → ((f r : Bool) (rs : List Reason) (s' : Stream)
            → length (scan_text lstat paths) ≤ s'.room
            → s'.flushes ≡ true
            → Reports (scan_loop lstat paths f r rs s') lstat paths f r rs s')
        → Reports
            (scan_loop lstat (path ∷ paths) failed risked reasons s)
            lstat
            (path ∷ paths)
            failed
            risked
            reasons
            s
    go (lstat_failed errno) e ih = ground (
      arith,
      ih true risked (reasons ++ lstat_failure path errno ∷ []) s,
      append_assoc reasons (lstat_failure path errno ∷ []) (scan_reasons lstat paths),
    )
    go (lstat_ok mode) e ih = elim (Bool-cases (is_link mode)) [
      | inl link ↦ ground (
        arith,
        ih true risked (reasons ++ symbolic_link path ∷ []) s,
        append_assoc reasons (symbolic_link path ∷ []) (scan_reasons lstat paths),
      )
      | inr plain ↦ elim (Bool-cases (is_risky mode)) [
        | inr safe ↦ ground (
          arith,
          ih failed risked reasons s,
          classify_mode-risky mode,
          mode_text-safe mode path safe,
        )
        | inl risky ↦ ground (
          arith,
          classify_mode-risky mode,
          findings-mode_text mode path s,
          fputs-room (mode_text mode path) s,
          length-append (mode_text mode path) (scan_text lstat paths),
          append_assoc s.written (mode_text mode path) (scan_text lstat paths),
          ih failed true reasons (record s {
            written = s.written ++ mode_text mode path;
            room = s.room - length (mode_text mode path);
          }),
        )
      ]
    ]

-- If the findings fit standard output and the flush succeeds, `run_scan` appends to it, for each
-- operand in order that lstat finds and that is no symbolic link, one line for each of the four
-- permission bits that is set, in the documented order; it reports one reason for each other
-- operand, in order; and its status is 2 if there is such an operand, else 1 if some inspected
-- operand has one of the bits, else 0.
pub run_scan-Reports :
    (lstat : Bytes → Lstat) (paths : List Bytes) (s : Stream)
    → length (scan_text lstat paths) ≤ s.room
    → s.flushes ≡ true
    → run_scan lstat paths s ≡ record {
      status = verdict (any_fails lstat paths) (any_risks lstat paths);
      out = some (record s {
        written = s.written ++ scan_text lstat paths;
        room = s.room - length (scan_text lstat paths);
      });
      err = scan_reasons lstat paths;
    }
unfolding run_scan
run_scan-Reports lstat paths s fits flushes =
    scan_loop-Reports lstat paths false false [] s fits flushes
