-- ===== src/Permguard/Scan.antt =====
-- src/permguard.c: the classification of modes and the scan of the operands.
pub mod Findings
pub mod Outcome
pub mod WriteError
use linux_utilities.Common.{
  ℕ, ◌+◌, ◌/◌, ◌%◌, ◌^◌, Bool, true, false, not, List, [], ◌∷◌, ◌++◌, Option, none, some,
  if◌then◌else◌, ◌==◌, Bytes,
}
use linux_utilities.Common.Stdio.{Stream, fputs, fputc, ◌>>=◌}
use linux_utilities.Common.Text.{codes}
use linux_utilities.Permguard.Quote.{put_escaped_quoted}

-- What goes to standard error: the reason, with the path, option or `errno` it names.
pub data Reason : Type 0 where
  usage stdout_write : Reason
  unknown_option missing inaccessible symbolic_link : Bytes → Reason
  inspection_error : Bytes → ℕ → Reason

-- The exit status, the standard output unless a write to it failed, and the reasons reported.
pub record Exit : Type 0 where
  pub status : ℕ
  pub out : Option Stream
  pub err : List Reason

-- What `lstat` answers: an `errno` or `st_mode`.
pub data Lstat : Type 0 where
  lstat_failed lstat_ok : ℕ → Lstat

-- `(mode & (1 << bit)) != 0`
abbrev pub bit_set : ℕ → ℕ → Bool
bit_set bit mode = not (mode / 2 ^ bit % 2 == 0)

-- `S_IWGRP`, `S_IWOTH`, `S_ISUID` and `S_ISGID` are bits 4, 1, 11 and 10. Each bit of the mask is set
-- at most once, so that `|=` adds it.
unfoldable pub classify_mode : ℕ → ℕ
classify_mode mode =
    (if bit_set 4 mode then 1 else 0)
    + (if bit_set 1 mode then 2 else 0)
    + (if bit_set 11 mode then 4 else 0)
    + (if bit_set 10 mode then 8 else 0)

abbrev pub hazard_names : List Bytes
hazard_names =
    codes "GROUP_WRITABLE"
    ∷ codes "OTHER_WRITABLE"
    ∷ codes "SET_USER_ID"
    ∷ codes "SET_GROUP_ID"
    ∷ []

unfoldable pub emit_finding : Bytes → Bytes → Stream → Option Stream
emit_finding code path s = fputs code s >>= fputc b'\t' >>= put_escaped_quoted path >>= fputc b'\n'

-- The loop from `bit` on, with the names from there on.
unfoldable pub findings_loop : ℕ → List Bytes → ℕ → Bytes → Stream → Option Stream
findings_loop bit [] mask path s = some s
findings_loop bit (name ∷ names) mask path s =
    let skipped = findings_loop (bit + 1) names mask path s in
    let emitted = emit_finding name path s >>= findings_loop (bit + 1) names mask path in
    if bit_set bit mask then emitted else skipped

unfoldable pub emit_findings_for_mask : ℕ → Bytes → Stream → Option Stream
emit_findings_for_mask mask path s = findings_loop 0 hazard_names mask path s

abbrev enoent : ℕ
enoent = 2

abbrev eacces : ℕ
eacces = 13

-- The reason that `emit_lstat_failure` reports.
unfoldable pub lstat_failure : Bytes → ℕ → Reason
lstat_failure [] saved_errno = inspection_error [] saved_errno
lstat_failure (c ∷ path) saved_errno =
    if saved_errno == enoent
    then missing (c ∷ path)
    else if saved_errno == eacces
    then inaccessible (c ∷ path)
    else inspection_error (c ∷ path) saved_errno

-- `S_ISLNK`: the four bits of `S_IFMT` are 10.
abbrev pub is_link : ℕ → Bool
is_link mode = mode / 4096 % 16 == 10

abbrev pub stdout_write_error : List Reason → Exit
stdout_write_error reasons = record { status = 2; out = none; err = reasons ++ stdout_write ∷ [] }

unfoldable pub complete_stdout : ℕ → List Reason → Stream → Exit
complete_stdout status reasons s =
    if s.flushes
    then record { status = status; out = some s; err = reasons }
    else stdout_write_error reasons

unfoldable pub scan_loop : (Bytes → Lstat) → List Bytes → Bool → Bool → List Reason → Stream → Exit
scan_loop lstat [] operational_error any_hazard reasons s =
    complete_stdout (if operational_error then 2 else if any_hazard then 1 else 0) reasons s
scan_loop lstat (path ∷ paths) operational_error any_hazard reasons s = elim (lstat path) [
  | lstat_failed errno ↦
      scan_loop lstat paths true any_hazard (reasons ++ lstat_failure path errno ∷ []) s
  | lstat_ok mode ↦ elim (is_link mode) [
    | true ↦ scan_loop lstat paths true any_hazard (reasons ++ symbolic_link path ∷ []) s
    | false ↦ elim (classify_mode mode == 0) [
      | true ↦ scan_loop lstat paths operational_error any_hazard reasons s
      | false ↦ elim (emit_findings_for_mask (classify_mode mode) path s) [
        | none ↦ stdout_write_error reasons
        | some s' ↦ scan_loop lstat paths operational_error true reasons s'
      ]
    ]
  ]
]

unfoldable pub run_scan : (Bytes → Lstat) → List Bytes → Stream → Exit
run_scan lstat paths s = scan_loop lstat paths false false [] s
