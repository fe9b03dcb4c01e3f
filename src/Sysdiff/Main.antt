-- ===== src/Sysdiff/Main.antt =====
-- src/sysdiff.c: `compare_snapshots` and `main`.
pub mod Outcome
use linux_utilities.Common.{
  ℕ, Bool, true, false, ◌&&◌, List, [], ◌∷◌, Option, none, some, if◌then◌else◌, Ordering, same_text,
  Bytes,
}
use linux_utilities.Common.Memory.{Memory}
use linux_utilities.Common.Stdio.{Stream}
use linux_utilities.Common.Text.{codes}
use linux_utilities.Sysdiff.Diagnostic.{
  Diagnostic, invalid_argument_vector, compare_requires_two, sigpipe_not_ignored, unknown_command,
  Exit, deliver,
}
use linux_utilities.Sysdiff.Diff.{emit_diff}
use linux_utilities.Sysdiff.Parse.{File, Loop, ended, stopped, out_of_fuel, parse_snapshot}

-- What a run finds: the file at each path, standard output, the calls of the allocator that succeed
-- while each file is parsed, and the `errno` of a failing `signal`.
pub record World : Type 0 where
  pub files : Bytes → File
  pub stdout : Stream
  pub before_memory : Memory
  pub after_memory : Memory
  pub sigpipe : Option ℕ

abbrev fail : Diagnostic → Stream → Exit
fail d s = record { status = 2; out = some s; err = d ∷ [] }

abbrev usage_text : Bytes
usage_text = codes "usage: sysdiff --help|--version|compare BEFORE_SNAPSHOT AFTER_SNAPSHOT\n"

-- `none` stands for a model that ran out of fuel.
unfoldable pub compare_parsed : Loop → Loop → Stream → Option Exit
unfolding emit_diff
compare_parsed out_of_fuel _ s = none
compare_parsed (stopped d) _ s = some (fail d s)
compare_parsed (ended before) out_of_fuel s = none
compare_parsed (ended before) (stopped d) s = some (fail d s)
compare_parsed (ended before) (ended after) s = some (emit_diff before.items after.items s)

unfoldable pub compare_snapshots : Bytes → Bytes → World → Option Exit
unfolding compare_parsed parse_snapshot
compare_snapshots before_path after_path w =
    compare_parsed (parse_snapshot before_path (w.files before_path) w.before_memory)
      (parse_snapshot after_path (w.files after_path) w.after_memory) w.stdout

-- The arguments of `compare`.
unfoldable pub run_compare : List Bytes → World → Option Exit
run_compare (before ∷ after ∷ []) w = compare_snapshots before after w
run_compare _ w = some (fail compare_requires_two w.stdout)

-- The commands behind `argv[0]`.
unfoldable pub run_command : List Bytes → World → Option Exit
run_command [] w = some (deliver 0 usage_text w.stdout)
run_command (arg ∷ rest) w =
    let alone : Bool = elim rest [ [] ↦ true | _ ∷ _ ↦ false ] in
    if alone && same_text arg (codes "--help")
    then some (deliver 0 usage_text w.stdout)
    else if alone && same_text arg (codes "--version")
    then some (deliver 0 (codes "sysdiff 0.1.0\n") w.stdout)
    else if same_text arg (codes "compare")
    then run_compare rest w
    else some (fail (unknown_command arg) w.stdout)

-- `ignore_sigpipe_for_stdout`: a failing `signal` ends the run before any command.
unfoldable pub ignore_sigpipe_for_stdout : World → Option Exit
ignore_sigpipe_for_stdout w = elim w.sigpipe [
  | some err ↦ some (fail (sigpipe_not_ignored err) w.stdout)
  | none ↦ none
]

-- `main` on the whole argument vector.
unfoldable pub main : List Bytes → World → Option Exit
unfolding ignore_sigpipe_for_stdout
main [] w = some (fail invalid_argument_vector w.stdout)
main (_ ∷ args) w = elim (ignore_sigpipe_for_stdout w) [
  | some e ↦ some e
  | none ↦ run_command args w
]
