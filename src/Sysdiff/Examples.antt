-- ===== src/Sysdiff/Examples.antt =====
-- Runs of sysdiff's parts on concrete inputs, and the theorems at them.
use linux_utilities.Common.{
  ◌≢◌, inl, inr, ◌-◌, ◌≤◌, ◌≡◌, ◌≢◌, ◌↔◌, inl, refl, true, false, List, [], ◌∷◌, ◌++◌, none, some,
  All, length, strcmp, arith, Bytes, if◌then◌else◌, ◌==◌,
}
use linux_utilities.Common.Stdio.{Stream}
use linux_utilities.Common.Text.{codes}
use linux_utilities.Sysdiff.Diagnostic.{
  Exit, stdout_write_error, duplicate_key, missing_separator, allocation_failure,
}
use linux_utilities.Sysdiff.Diff.{emit_diff}
use linux_utilities.Sysdiff.Diff.Changes.{Change, diff}
use linux_utilities.Sysdiff.Diff.Report.{diff_text, emit_diff_write_error}
use linux_utilities.Sysdiff.Diff.Semantics.{Tells, emit_diff-Tells}
use linux_utilities.Sysdiff.Escape.{put_escaped_bytes, put_escaped_value}
use linux_utilities.Common.Unescape.{Mode, unescape}
use linux_utilities.Sysdiff.Escape.Laws.{IsPrintable, has_arrow}
use linux_utilities.Sysdiff.Escape.Shield.{put_escaped_bytes_decodes, put_escaped_value_shields}
use linux_utilities.Sysdiff.Key.{is_valid_key, is_blank_line, is_comment_line}
use linux_utilities.Sysdiff.Key.Syntax.{IsKey, is_valid_key_iff}
use linux_utilities.Sysdiff.Line.{Reader, line_ok, read_line}
use linux_utilities.Sysdiff.Line.Sound.{Taken, read_line_sound}
use linux_utilities.Sysdiff.Main.{World, main}
use linux_utilities.Sysdiff.Main.Outcome.{ExitsWell, main_ends, main_compare_status}
use linux_utilities.Sysdiff.Parse.{
  File, opened, ended, stopped, out_of_fuel, parse_snapshot, parse_record, strip_ending, index_of,
  store_entry, copy_range,
}
use linux_utilities.Sysdiff.Parse.RoundTrip.{Reads, parse_snapshot-render}
use linux_utilities.Sysdiff.Parse.RoundTrip.Records.{Row, newline, carriage_return, IsRow, render}
use linux_utilities.Sysdiff.Parse.RoundTrip.Loops.{entries}
use linux_utilities.Sysdiff.Parse.Sound.{IsRecord, parse_snapshot_sound}
use linux_utilities.Sysdiff.Parse.Total.{parse_snapshot_total}
use linux_utilities.Sysdiff.Snapshot.{Entry, Snapshot, max_snapshot_entries, snapshot_append}
use linux_utilities.Sysdiff.Snapshot.Ascending.{IsAscending}

abbrev stream : Stream
stream = record { written = []; room = 1000; flushes = true; errno = 0 }

abbrev entry : Bytes → Bytes → Entry
entry k v = record { key = k; value = v }

abbrev hostname : Entry
hostname = entry (codes "os.name") (codes "a -> b")

abbrev kernel : Entry
kernel = entry (codes "kernel.v") (codes "6")

abbrev file_text : Bytes
file_text = codes "# host\r\nos.name=a -> b\n\nkernel.v=6"

abbrev text_file : File
text_file = opened file_text false none

abbrev path : Bytes
path = codes "s"

abbrev parsed : Snapshot
parsed = record { items = kernel ∷ hostname ∷ []; cap = 8 }

-- A comment and a blank line are skipped, and the records come out in the order of their keys.
parse_file :
    (parse_snapshot path text_file 100 ≡ ended parsed)
    × (parse_snapshot (codes "a") text_file 100 ≡ ended parsed)
    × (parse_snapshot (codes "b") text_file 100 ≡ ended parsed)
unfolding parse_snapshot parse_record strip_ending index_of store_entry copy_range snapshot_append
    is_valid_key is_blank_line is_comment_line
parse_file = (refl, refl, refl)

parse_errors :
    (parse_snapshot path (opened (codes "a.b=1\na.b=2\n") false none) 100
      ≡ stopped (duplicate_key path (codes "a.b")))
    × (parse_snapshot path (opened (codes "a.b=1\nword\n") false none) 100
        ≡ stopped (missing_separator path 2))
    × (parse_snapshot path (opened (codes "a.b=1\n") false none) 2
        ≡ stopped (allocation_failure path 1))
unfolding parse_snapshot parse_record strip_ending index_of store_entry copy_range snapshot_append
    is_valid_key is_blank_line is_comment_line
parse_errors = (refl, refl, refl)

abbrev other : Snapshot
other = record { items = hostname ∷ []; cap = 8 }

-- The report of one removed record.
diff_output :
    (emit_diff parsed.items other.items stream).out
    ≡ some (record stream { written = codes "- kernel.v=6\n"; room = 987 })
unfolding emit_diff
diff_output = refl

report_length : length (diff_text (diff parsed.items other.items)) ≡ 13
unfolding diff_text diff strcmp
report_length = refl

emit_diff-Tells_example :
    (cs : List Change) × (s' : Stream) × ((emit_diff parsed.items other.items stream).out ≡ some s')
    × (s'.written ≡ [] ++ diff_text cs)
    × Tells parsed.items other.items cs
unfolding strcmp
emit_diff-Tells_example =
    emit_diff-Tells parsed.items other.items stream ((refl, tt), (tt, tt)) (tt, tt)
      (omega (arith, report_length)) refl

abbrev full : Stream
full = record { written = []; room = 3; flushes = true; errno = 28 }

emit_diff_write_error_example :
    ((emit_diff parsed.items other.items full).status ≡ 2)
    × ((emit_diff parsed.items other.items full).err
        ≡ stdout_write_error (if full.errno == 0 then 5 else full.errno) ∷ [])
emit_diff_write_error_example =
    emit_diff_write_error parsed.items other.items full (inl (omega (arith, report_length)))

abbrev arrow_value : Bytes
arrow_value = codes "a -> \\"

shielded :
    put_escaped_value arrow_value stream
    ≡ some (record stream { written = codes "a -\\x3E \\\\"; room = 990 })
unfolding put_escaped_value
shielded = refl

put_escaped_value_shields_example :
    (w : Bytes) × (codes "a -\\x3E \\\\" ≡ [] ++ w)
    × All IsPrintable w
    × (unescape Mode.plain w ≡ arrow_value)
    × (has_arrow w ≡ false)
put_escaped_value_shields_example =
    put_escaped_value_shields arrow_value stream (omega arith) shielded

escaped :
    put_escaped_bytes (codes "a\n") stream
    ≡ some (record stream { written = codes "a\\x0A"; room = 995 })
unfolding put_escaped_bytes
escaped = refl

put_escaped_bytes_decodes_example :
    (w : Bytes) × (codes "a\\x0A" ≡ [] ++ w)
    × All IsPrintable w
    × (unescape Mode.plain w ≡ codes "a\n")
put_escaped_bytes_decodes_example =
    put_escaped_bytes_decodes (codes "a\n") stream (omega arith) escaped

is_valid_key_iff_example : (is_valid_key (codes "os.name") ≡ true) ↔ IsKey (codes "os.name")
is_valid_key_iff_example = is_valid_key_iff (codes "os.name")

abbrev reader : Reader
reader = record { unread = file_text; failing = false; total_bytes = 0; memory = 5 }

first_line_ok : (read_line reader).status ≡ line_ok
unfolding read_line
first_line_ok = refl

read_line_sound_example : Taken file_text [] 0 (read_line reader)
read_line_sound_example = read_line_sound reader (omega arith) first_line_ok

hostname-IsRecord : IsRecord hostname
unfolding is_valid_key
hostname-IsRecord = record { key_valid = refl; value_clean = omega arith; line_short = omega arith }

kernel-IsRecord : IsRecord kernel
unfolding is_valid_key
kernel-IsRecord = record { key_valid = refl; value_clean = omega arith; line_short = omega arith }

-- One line of each ending.
abbrev rows : List Row
rows =
    record { entry = hostname; ending = carriage_return }
    ∷ record { entry = kernel; ending = newline }
    ∷ []

rendered : length (render rows) ≡ 27
unfolding render
rendered = refl

kernel_plain : (xs : Bytes) → kernel.value ≢ xs ++ b'\r' ∷ []
kernel_plain [] e = absurd (ground arith)
kernel_plain (x ∷ []) e = absurd (ground arith)
kernel_plain (x ∷ y ∷ xs) e = absurd (ground arith)

rows-IsRow : All IsRow rows
rows-IsRow = (
  record { is_record = hostname-IsRecord; ending_fits = inl refl },
  (record { is_record = kernel-IsRecord; ending_fits = inr kernel_plain }, tt),
)

parse_snapshot-render_example :
    Reads path (entries rows) (parse_snapshot path (opened (render rows) false none) 100)
parse_snapshot-render_example =
    parse_snapshot-render path rows 100 rows-IsRow (omega arith) (omega (arith, rendered))
      (omega (arith, rendered))

parse_snapshot_sound_example :
    IsAscending parsed.items
    × All IsRecord parsed.items
    × (length parsed.items ≤ parsed.cap)
    × (parsed.cap ≤ max_snapshot_entries)
parse_snapshot_sound_example = parse_snapshot_sound path text_file 100 {s = parsed} parse_file.0

parse_snapshot_total_example : parse_snapshot path text_file 100 ≢ out_of_fuel
parse_snapshot_total_example = parse_snapshot_total path text_file 100

abbrev world : World
world = record {
  files = λ _. text_file;
  stdout = stream;
  before_memory = 100;
  after_memory = 100;
  sigpipe = none;
}

main_ends_example : ExitsWell (main (path ∷ codes "--version" ∷ []) world)
main_ends_example = main_ends world (path ∷ codes "--version" ∷ [])

same_length : length (diff_text (diff parsed.items parsed.items)) ≡ 11
unfolding diff_text diff strcmp
same_length = refl

main_compare_status_example :
    (e : Exit) × (main (path ∷ codes "compare" ∷ codes "a" ∷ codes "b" ∷ []) world ≡ some e)
    × ((e.status ≡ 0) ↔ (parsed.items ≡ parsed.items))
    × ((e.status ≡ 1) ↔ (parsed.items ≢ parsed.items))
    × (e.out
        ≡ some (record stream {
          written = [] ++ diff_text (diff parsed.items parsed.items);
          room = 1000 - length (diff_text (diff parsed.items parsed.items));
        }))
main_compare_status_example =
    main_compare_status world path (codes "a") (codes "b") parsed parsed refl parse_file.1
      parse_file.2 (omega (arith, same_length)) refl
