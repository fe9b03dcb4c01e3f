-- ===== src/Lib.antt =====
-- Models of the C utilities of linux-utilities and their properties.
--
-- Each utility is one C file under src/. A module named for the utility holds its model, and the
-- utilities share only Common.
--
-- Common: numbers, tests and lists (Tests, Lists), the byte order that strcmp computes (Order),
--   literal texts and %02X (Text), decimal numerals (Decimal, on one unit of fuel more than the
--   number, which has no more digits), checked sizes and an allocator that fails from some call on
--   (Memory: checked_size_add, checked_size_mul of src/sysdiff.c), and an output stream of stdio
--   that takes a number of bytes and then fails (Stdio: fputs_checked, fputc_checked).
--
-- Sysdiff (src/sysdiff.c), as the data flows:
--   Line: read_line, a growing buffer, byte and line limits, read and allocation failures.
--   Key: is_blank_line, is_comment_line, is_key_byte, is_valid_key.
--   Snapshot: struct Entry and struct Snapshot, snapshot_append, the sort, validate_no_duplicates.
--   Parse: parse_snapshot with its loop, its line endings and every refusal.
--   Diff: emit_diff and the three record printers. Escape: put_escaped_bytes, put_escaped_value.
--   Diagnostic: the messages as data, complete_stdout, emit_write_error. Main: compare_snapshots and
--   main over a World that holds what a run finds.
--   A C string is the list of its bytes before the terminator. A size_t has 64 bits, and the checks
--   against SIZE_MAX are in the model. qsort is an insertion sort by the same comparison: the
--   order that C leaves open concerns equal keys only, and such snapshots are refused. parse_loop
--   takes fuel, one unit for each line, and its caller gives one more than the number of bytes; every
--   line that is read consumes a byte, so it does not run out. Calls of the allocator that succeed
--   are counted; memory that is freed is not modelled.
--
-- Snslice (src/snslice.c):
--   Boundary: the automaton over CsvState that finds the ends of records, in both formats.
--   Chunk: SnSliceConfig's chunk files: chunk_path, open_chunk, write_all, write_to_chunk, close_chunk
--   and abort_cleanup on SnSliceState. A Disk says which names are taken and which calls fail, and a
--   list of answers says what each write does. Stream: stream_slice over the answers of read, with
--   its inner loop and its end. Options: sanitize_string, parse_positive_size and the command line as
--   far as SnSliceConfig. Diagnostic: the line of emit_diagnostic, from formatted details. Main: main
--   over a World.
--   SnSliceState holds the open chunk with its content instead of its descriptor, and the completed
--   chunks; a removed chunk is gone. The counters are 64-bit and wrap.
--
-- Permguard (src/permguard.c): Quote: put_escaped_quoted. Scan: classify_mode, the findings, the
--   lstat failures and run_scan, over what lstat answers for each path; the permission bits are read
--   off the mode by division. Main: run_operands and main.
--
-- Openunlink (src/openunlink.c): Number: parse_canonical_int. State: struct ScanState, with counts of
--   how often each descriptor and buffer is taken and given back, the reports on standard error, and
--   a World that holds the answers of every system call and allocation. Finding: the line buffer, its
--   computed capacity and emit_finding. Inspect: inspect_one, in the order of its early returns.
--   Scan: run_scan and the functions that it calls. Main: cleanup_scan, finish_status and main.
--   An int has 32 bits, size_t, uintmax_t and off_t have 64. qsort is an insertion sort. Each name
--   of a descriptor is asked for at most twice in a scan, so the answers of fstatat are two functions
--   of the number.
--
-- Treehash (src/treehash.c): Sha256: the embedded SHA-256, on numbers below 2 ^ 32 for uint32_t; the
--   buffer of a context is a list of 64 bytes. Merkle: compute_leaf_digest and compute_merkle_root;
--   the number of digests is fuel enough, since a level has about half as many as the one before.
--   Ignore: load_gitignore, pop_rules, match_rule and is_path_ignored, with fnmatch as a parameter.
--   Walk: hash_file_sha256 and walk_dir over a World that answers the calls of the system; its fuel is
--   how far the depth is below TREEHASH_MAX_DEPTH, so it is gone where the source refuses to go on.
--   A failed walk ends the program, and its context is not kept. That a name from readdir is one
--   component of a path is a hypothesis of the theorems. Operand: has_dotdot_segment and the
--   loop of main that shortens the operand. Main: main, with compare_file_entries as the comparison of
--   an insertion sort.
--
-- Not modelled: the wording of diagnostics and strerror, standard error as a stream that may fail,
-- and the other utilities of src/.
pub mod Common
pub mod Openunlink
pub mod Permguard
pub mod Snslice
pub mod Sysdiff
pub mod Treehash
