-- ===== src/Openunlink/Finding.antt =====
-- src/openunlink.c: the line of a finding, built in a buffer of fixed capacity.
pub mod Capacity
use linux_utilities.Common.{
  ℕ, ◌+◌, ◌-◌, ◌*◌, Bool, true, ◌&&◌, ◌||◌, not, [], ◌∷◌, ◌++◌, Option, none, some, if◌then◌else◌,
  ltb, leb, ◌==◌, Bytes, length,
}
use linux_utilities.Common.Decimal.{decimal}
use linux_utilities.Common.Memory.{checked_size_add, checked_size_mul}
use linux_utilities.Common.Stdio.{Stream, fputs, ◌>>=◌}
use linux_utilities.Common.Text.{codes, hex_escape}
use linux_utilities.Openunlink.Number.{int_decimal_bound, uintmax_decimal_bound}
use linux_utilities.Openunlink.State.{ScanState}

abbrev pub target_len_cap : ℕ
target_len_cap = 65536

abbrev pub target_buf_size : ℕ
target_buf_size = 65537

-- 0 is an overflow.
abbrev pub or_zero : Option ℕ → ℕ
or_zero none = 0
or_zero (some n) = n

unfoldable pub finding_line_capacity : ℕ
unfolding checked_size_add checked_size_mul
finding_line_capacity = or_zero (
    checked_size_add (length (codes "OPEN_UNLINKED\tpid=\tfd=\tsize=\ttarget=\"\"\n"))
      int_decimal_bound
    >>= λ cap. checked_size_add cap int_decimal_bound >>= λ cap.
        checked_size_add cap uintmax_decimal_bound >>= λ cap.
        checked_size_mul target_len_cap 4 >>= λ text.
        checked_size_add cap text >>= λ cap. checked_size_add cap 1)

-- What one byte becomes.
abbrev pub escape_piece : ℕ → Bytes
escape_piece ch =
    if ch == b'"' || ch == b'\\'
    then b'\\' ∷ ch ∷ []
    else if leb 0x20 ch && leb ch 0x7e
    then ch ∷ []
    else hex_escape ch

-- `dst` is the part of the buffer that is used.
unfoldable pub escape_append : ℕ → Bytes → Bytes → Option Bytes
escape_append cap dst [] = some dst
escape_append cap dst (ch ∷ src) =
    let rest = escape_append cap (dst ++ escape_piece ch) src in
    if ltb cap (length dst) || ltb (cap - length dst) (length (escape_piece ch)) then none else rest

unfoldable pub finding_head : ℕ → ℕ → ℕ → Bytes
finding_head pid fd size =
    codes "OPEN_UNLINKED\tpid="
    ++ (decimal pid
        ++ (codes "\tfd="
            ++ (decimal fd ++ (codes "\tsize=" ++ (decimal size ++ codes "\ttarget=\"")))))

-- The text that is written, if it fits the buffer.
unfoldable pub finding_line : ℕ → ℕ → ℕ → ℕ → Bytes → Option Bytes
finding_line cap pid fd size target =
    if leb cap (length (finding_head pid fd size))
    then none
    else elim (escape_append cap (finding_head pid fd size) target) [
      | none ↦ none
      | some dst ↦ if ltb (cap - length dst) 3 then none else some (dst ++ codes "\"\n")
    ]

-- `none` is -1.
unfoldable pub emit_finding : ℕ → ℕ → Bytes → ScanState → Option ScanState
emit_finding fd size target st =
    if not st.line_buf || st.line_cap == 0
    then none
    else elim (finding_line st.line_cap st.pid fd size target) [
      | none ↦ none
      | some line ↦ elim (fputs line st.out) [
        | none ↦ none
        | some out ↦ some (record st { out = out; had_finding = true })
      ]
    ]
