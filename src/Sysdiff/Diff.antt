-- ===== src/Sysdiff/Diff.antt =====
-- src/sysdiff.c: `emit_diff` and the three record printers. An index that only moves forward
-- through a snapshot is the list of the entries left.
pub mod Changes
pub mod Order
pub mod Report
pub mod Semantics
use linux_utilities.Common.{
  ℕ, List, [], ◌∷◌, Option, none, some, Bool, true, false, if◌then◌else◌, Ordering, strcmp, Bytes,
}
use linux_utilities.Common.Stdio.{Stream, fputs, fputc, ◌>>=◌}
use linux_utilities.Common.Text.{codes}
use linux_utilities.Sysdiff.Diagnostic.{Exit, emit_write_error, complete_stdout}
use linux_utilities.Sysdiff.Escape.{put_escaped_value}
use linux_utilities.Sysdiff.Snapshot.{Entry}

emit_added : Bytes → Bytes → Stream → Option Stream
unfolding fputs fputc put_escaped_value
emit_added key value s =
    fputs (codes "+ ") s >>= fputs key >>= fputc b'=' >>= put_escaped_value value >>= fputc b'\n'

emit_removed : Bytes → Bytes → Stream → Option Stream
unfolding fputs fputc put_escaped_value
emit_removed key value s =
    fputs (codes "- ") s >>= fputs key >>= fputc b'=' >>= put_escaped_value value >>= fputc b'\n'

emit_changed : Bytes → Bytes → Bytes → Stream → Option Stream
unfolding fputs fputc put_escaped_value
emit_changed key old_value new_value s =
    fputs (codes "~ ") s
    >>= fputs key
    >>= fputs (codes ": ")
    >>= put_escaped_value old_value
    >>= fputs (codes " -> ")
    >>= put_escaped_value new_value
    >>= fputc b'\n'

-- The `while`, with the flag `changed`.
emit_loop : List Entry → List Entry → Bool → Stream → Option (Bool × Stream)
unfolding emit_added emit_removed emit_changed strcmp
emit_loop [] [] changed s = some (changed, s)
emit_loop [] (a ∷ after) changed s = emit_added a.key a.value s >>= emit_loop [] after true
emit_loop (b ∷ before) [] changed s = emit_removed b.key b.value s >>= emit_loop before [] true
emit_loop (b ∷ before) (a ∷ after) changed s = elim (strcmp b.key a.key) [
  | Ordering.eq ↦ elim (strcmp b.value a.value) [
    | Ordering.eq ↦ emit_loop before after changed s
    | _ ↦ emit_changed b.key b.value a.value s >>= emit_loop before after true
  ]
  | Ordering.lt ↦ emit_removed b.key b.value s >>= emit_loop before (a ∷ after) true
  | Ordering.gt ↦ emit_added a.key a.value s >>= emit_loop (b ∷ before) after true
]

-- Behind the loop: the line for equal snapshots, and the flush.
finish_diff : Stream → Option (Bool × Stream) → Exit
unfolding emit_write_error complete_stdout fputs
finish_diff s none = emit_write_error s
finish_diff _ (some (true, s)) = complete_stdout 1 s
finish_diff _ (some (false, s)) = elim (fputs (codes "no changes\n") s) [
  | none ↦ emit_write_error s
  | some s' ↦ complete_stdout 0 s'
]

unfoldable pub emit_diff : List Entry → List Entry → Stream → Exit
unfolding emit_loop finish_diff
emit_diff before after s = finish_diff s (emit_loop before after false s)
