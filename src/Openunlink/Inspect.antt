-- ===== src/Openunlink/Inspect.antt =====
-- src/openunlink.c: one descriptor.

pub mod Verdict
use linux_utilities.Common.{
  ℕ, ◌+◌, ◌/◌, ◌%◌, Bool, true, false, not, ◌||◌, [], ◌∷◌, Option, none, some, if◌then◌else◌, ltb,
  leb, ◌==◌, Bytes, length, take,
}
use linux_utilities.Common.Decimal.{decimal}
use linux_utilities.Openunlink.Finding.{target_len_cap, target_buf_size, emit_finding}
use linux_utilities.Openunlink.Number.{int_decimal_bound}
use linux_utilities.Openunlink.State.{
  op_process_scan, op_stdout_write, Advisory, fd_unstable, fd_unreadable, target_length_limit,
  fd_size_range, ScanState, emit_fd_advisory, Result, ok, failed, fail_with, OffT, nonnegative,
  negative, Stat, StatAnswer, stat_failed, stat_ok, LinkAnswer, link_failed, link_text, World,
}

-- `ENOENT`, `ENOTDIR`, `ESTALE` and `EINVAL`
abbrev pub map_fstatat_errno : ℕ → Bool
map_fstatat_errno err = err == 2 || err == 20 || err == 116

abbrev pub map_readlinkat_errno : ℕ → Bool
map_readlinkat_errno err = err == 2 || err == 20 || err == 116 || err == 22

-- `S_ISREG`
abbrev pub is_regular : ℕ → Bool
is_regular mode = mode / 4096 % 16 == 8

abbrev pub convert_size : OffT → Option ℕ
convert_size (nonnegative n) = some n
convert_size (negative n) = none

-- The advisory for a failing call.
abbrev unavailable : Bool → Advisory
unavailable true = fd_unstable
unavailable false = fd_unreadable

-- From the second `fstatat` on.
unfoldable pub report_unlinked : ℕ → Stat → Stat → Bytes → ScanState → Result
report_unlinked fd first second target st =
    if not (first.st_dev == second.st_dev)
      || not (first.st_ino == second.st_ino)
      || not (is_regular second.st_mode)
    then ok (emit_fd_advisory fd_unstable fd st)
    else if not (second.st_nlink == 0)
    then ok st
    else elim (convert_size second.st_size) [
      | none ↦ ok (emit_fd_advisory fd_size_range fd st)
      | some size ↦ elim (emit_finding fd size target st) [
        | none ↦ fail_with op_stdout_write st
        | some st' ↦ ok st'
      ]
    ]

unfoldable pub confirm : World → ℕ → Stat → Bytes → ScanState → Result
confirm w fd first target st =
    if length target == target_buf_size || ltb target_len_cap (length target)
    then ok (emit_fd_advisory target_length_limit fd st)
    else elim (w.second_stat fd) [
      | stat_failed err ↦ ok (emit_fd_advisory (unavailable (map_fstatat_errno err)) fd st)
      | stat_ok second ↦ report_unlinked fd first second target st
    ]

-- `readlinkat` fills the buffer at most.
unfoldable pub read_target : World → ℕ → Stat → ScanState → Result
read_target w fd first st = elim (w.link fd) [
  | link_failed err ↦ ok (emit_fd_advisory (unavailable (map_readlinkat_errno err)) fd st)
  | link_text text ↦ confirm w fd first (take target_buf_size text) st
]

-- `format_fd_name`, whose buffer has room for `INT_DECIMAL_BOUND` digits and a terminator.
abbrev pub fd_name_fits : ℕ → Bool
fd_name_fits fd = ltb (length (decimal fd)) (int_decimal_bound + 1)

unfoldable pub inspect_one : World → ℕ → ScanState → Result
inspect_one w fd st =
    if not (fd_name_fits fd) then fail_with op_process_scan st else elim (w.first_stat fd) [
      | stat_failed err ↦ ok (emit_fd_advisory (unavailable (map_fstatat_errno err)) fd st)
      | stat_ok first ↦ if not (is_regular first.st_mode) then ok st else read_target w fd first st
    ]
