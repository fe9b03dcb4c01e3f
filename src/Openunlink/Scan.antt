-- ===== src/Openunlink/Scan.antt =====
-- src/openunlink.c: the scan of one process, from the directory to the last descriptor.
pub mod Sorting
use linux_utilities.Common.{
  ℕ, ◌+◌, ◌*◌, Bool, true, false, not, ◌||◌, ◌&&◌, List, [], ◌∷◌, ◌++◌, Option, none, some,
  if◌then◌else◌, ltb, leb, ◌==◌, Bytes, length, same_text,
}
use linux_utilities.Common.Decimal.{decimal}
use linux_utilities.Common.Memory.{checked_size_add, checked_size_mul}
use linux_utilities.Common.Text.{codes}
use linux_utilities.Openunlink.Finding.{or_zero, finding_line_capacity}
use linux_utilities.Openunlink.Inspect.{inspect_one}
use linux_utilities.Openunlink.Number.{int_decimal_bound, parse_fd_name}
use linux_utilities.Openunlink.State.{
  op_process_not_found, op_process_access, op_process_scan, op_memory, op_stdout_write, acquire,
  release, ScanState, emit_count_advisory, Result, ok, failed, ◌>>=◌, fail_with, World,
}

abbrev pub fd_retain_cap : ℕ
fd_retain_cap = 65536

-- `malloc` of one buffer: on success `st'` is the state that has it.
abbrev allocated : Bool → ScanState → ScanState → Result
allocated succeeds st st' = if succeeds then ok st' else fail_with op_memory st

unfoldable pub allocate_scan_buffers : World → ScanState → Result
unfolding checked_size_mul
allocate_scan_buffers w st = elim (checked_size_mul fd_retain_cap 4) [
  | none ↦ fail_with op_memory st
  | some _ ↦
      if finding_line_capacity == 0
      then fail_with op_memory st
      else allocated w.allocates_fds (record st { line_cap = finding_line_capacity })
          (record st {
            line_cap = finding_line_capacity;
            fds_buf = true;
            fds_memory = acquire st.fds_memory;
          })
        >>= λ a.
            allocated w.allocates_link a
              (record a { link_buf = true; link_memory = acquire a.link_memory })
            >>= λ b.
                allocated w.allocates_line b
                  (record b { line_buf = true; line_memory = acquire b.line_memory })
]

unfoldable pub enumerate_fds : List Bytes → Bool → ScanState → Result
enumerate_fds [] fails st = if fails then fail_with op_process_scan st else ok st
enumerate_fds (name ∷ entries) fails st =
    let skip = enumerate_fds entries fails st in
    if same_text name (codes ".") || same_text name (codes "..")
    then skip
    else elim (parse_fd_name name) [
      | none ↦ fail_with op_process_scan st
      | some fd ↦
          if leb fd_retain_cap (length st.fds)
          then ok (record st { fd_count_limit = true })
          else enumerate_fds entries fails (record st { fds = st.fds ++ fd ∷ [] })
    ]

-- `qsort` by `fd_cmp`.
insert_fd : ℕ → List ℕ → List ℕ
insert_fd fd [] = fd ∷ []
insert_fd fd (x ∷ fds) = let rest = insert_fd fd fds in if leb fd x then fd ∷ x ∷ fds else x ∷ rest

unfoldable pub sort_fds : List ℕ → List ℕ
unfolding insert_fd
sort_fds [] = []
sort_fds (fd ∷ fds) = insert_fd fd (sort_fds fds)

unfoldable pub has_duplicate : List ℕ → Bool
has_duplicate [] = false
has_duplicate (a ∷ []) = false
has_duplicate (a ∷ b ∷ fds) = a == b || has_duplicate (b ∷ fds)

unfoldable pub sort_and_check_duplicates : ScanState → Result
sort_and_check_duplicates st =
    let sorted = record st { fds = sort_fds st.fds } in
    if has_duplicate sorted.fds then fail_with op_process_scan sorted else ok sorted

-- The loop over the sorted numbers.
unfoldable pub inspect_all : World → List ℕ → ScanState → Result
inspect_all w [] st = ok st
inspect_all w (fd ∷ fds) st = inspect_one w fd st >>= inspect_all w fds

unfoldable pub process_path_capacity : ℕ
unfolding checked_size_add
process_path_capacity = elim (checked_size_add (length (codes "/proc//fd")) int_decimal_bound) [
  | none ↦ 0
  | some tmp ↦ or_zero (checked_size_add tmp 1)
]

-- Whether the path of the process directory fits `path_buf`, which has 7 + 12 + 4 bytes.
unfoldable pub process_path_fits : ℕ → Bool
process_path_fits pid =
    not (process_path_capacity == 0)
    && leb process_path_capacity 23
    && ltb (length (codes "/proc/" ++ (decimal pid ++ codes "/fd"))) process_path_capacity

-- `ENOENT`, `ENOTDIR`; `EACCES`, `EPERM`.
unfoldable pub open_process : World → ScanState → Result
open_process w st = elim w.open_error [
  | some saved ↦
      if saved == 2 || saved == 20
      then fail_with op_process_not_found st
      else if saved == 13 || saved == 1
      then fail_with op_process_access st
      else fail_with op_process_scan st
  | none ↦ ok (record st { dir_fd = true; directory = acquire st.directory })
]

unfoldable pub duplicate_directory : World → ScanState → Result
duplicate_directory w st =
    if w.dups
    then ok (record st { dup_fd = true; duplicate = acquire st.duplicate })
    else fail_with op_process_scan st

-- The `DIR` takes the duplicate over.
unfoldable pub open_stream : World → ScanState → Result
open_stream w st =
    if w.fdopens
    then ok (record st { dir = true; dup_fd = false })
    else fail_with op_process_scan st

-- `closedir` gives the duplicate back, also when it fails.
unfoldable pub close_stream : World → ScanState → Result
close_stream w st =
    let closed = record st { dir = false; duplicate = release st.duplicate } in
    if w.closes_dir then ok closed else fail_with op_process_scan closed

unfoldable pub count_limit : ScanState → ScanState
unfolding emit_count_advisory
count_limit st = if st.fd_count_limit then emit_count_advisory st else st

unfoldable pub flush_output : ScanState → Result
flush_output st = if st.out.flushes then ok st else fail_with op_stdout_write st

unfoldable pub close_process : World → ScanState → Result
close_process w st =
    let closed = record st { dir_fd = false; directory = release st.directory } in
    if w.closes_fd then ok closed else fail_with op_process_scan closed

unfoldable pub run_scan : World → ScanState → Result
run_scan w st =
    if not (process_path_fits st.pid)
    then fail_with op_process_scan st
    else open_process w st
      >>= duplicate_directory w
      >>= allocate_scan_buffers w
      >>= open_stream w
      >>= enumerate_fds w.entries w.readdir_fails
      >>= close_stream w
      >>= sort_and_check_duplicates
      >>= (λ s. inspect_all w s.fds (count_limit s))
      >>= flush_output
      >>= close_process w
