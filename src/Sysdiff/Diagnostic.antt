-- ===== src/Sysdiff/Diagnostic.antt =====
-- src/sysdiff.c: what the utility says on standard error, and how a run ends.
use linux_utilities.Common.{
  ℕ, ◌-◌, ◌≤◌, ◌<◌, ◌≡◌, ◌⊎◌, true, false, arith, length, ◌++◌, List, [], ◌∷◌, Option, none, some,
  ◌==◌, if◌then◌else◌, Bytes,
}
use linux_utilities.Common.Stdio.{Stream, fputs}

-- One constructor for each message; a path, a key and a line number or an `errno` are its data.
pub data Diagnostic : Type 0 where
  invalid_argument_vector compare_requires_two : Diagnostic
  sigpipe_not_ignored stdout_write_error : ℕ → Diagnostic
  unknown_command : Bytes → Diagnostic
  cannot_open close_failed : Bytes → ℕ → Diagnostic
  embedded_nul line_length_limit byte_limit read_error allocation_failure : Bytes → ℕ → Diagnostic
  missing_separator empty_key invalid_key_syntax entry_limit : Bytes → ℕ → Diagnostic
  duplicate_key : Bytes → Bytes → Diagnostic

-- The exit status, the standard output unless a write to it failed, and the messages.
pub record Exit : Type 0 where
  pub status : ℕ
  pub out : Option Stream
  pub err : List Diagnostic

abbrev eio : ℕ
eio = 5

unfoldable pub emit_write_error : Stream → Exit
emit_write_error s = record {
  status = 2;
  out = none;
  err = stdout_write_error (if s.errno == 0 then eio else s.errno) ∷ [];
}

unfoldable pub complete_stdout : ℕ → Stream → Exit
unfolding emit_write_error
complete_stdout status s =
    if s.flushes then record { status = status; out = some s; err = [] } else emit_write_error s

-- One text written, then the flush: `fputs_checked` and `complete_stdout`, as `main` combines them.
unfoldable pub deliver : ℕ → Bytes → Stream → Exit
unfolding complete_stdout fputs
deliver status text s = elim (fputs text s) [
  | none ↦ emit_write_error s
  | some s' ↦ complete_stdout status s'
]

module _ (status : ℕ) (text : Bytes) (s : Stream) where
  pub deliver_fits :
      length text ≤ s.room
      → s.flushes ≡ true
      → deliver status text s ≡ record {
        status = status;
        out = some (record s { written = s.written ++ text; room = s.room - length text });
        err = [];
      }
  unfolding deliver
  deliver_fits fits ok = ground arith

  pub deliver_fails :
      (s.room < length text) ⊎ (s.flushes ≡ false) → deliver status text s ≡ emit_write_error s
  unfolding deliver
  deliver_fails bad = ground arith

  pub deliver_ends : status ≤ 2 → (deliver status text s).status ≤ 2
  unfolding deliver
  deliver_ends h = ground arith
