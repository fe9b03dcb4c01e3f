-- ===== src/Permguard/Main.antt =====
-- src/permguard.c: the command line.
use linux_utilities.Common.{
  Bool, true, false, List, [], ◌∷◌, ◌++◌, Option, none, some, if◌then◌else◌, ◌==◌, same_text, Bytes,
}
use linux_utilities.Common.Stdio.{Stream, fputs}
use linux_utilities.Common.Text.{codes}
use linux_utilities.Permguard.Scan.{
  Reason, usage, unknown_option, Exit, Lstat, stdout_write_error, complete_stdout, run_scan,
}

abbrev help_text : Bytes
help_text =
    codes "usage: permguard [--] PATH...\n"
    ++ codes "Inspect explicitly supplied paths without following symbolic links.\n"

abbrev version_text : Bytes
version_text = codes "permguard 0.1.0\n"

abbrev pub reject : Reason → Stream → Exit
reject reason s = record { status = 2; out = some s; err = reason ∷ [] }

-- `handle_help` and `handle_version`
unfoldable pub handle_text : Bytes → Stream → Exit
handle_text text s = elim (fputs text s) [
  | none ↦ stdout_write_error []
  | some s' ↦ complete_stdout 0 [] s'
]

-- `argv[i][0] == '-'`
abbrev starts_with_dash : Bytes → Bool
starts_with_dash [] = false
starts_with_dash (c ∷ _) = c == b'-'

-- The first operand that looks like an option.
unfoldable pub find_option : List Bytes → Option Bytes
find_option [] = none
find_option (arg ∷ args) =
    let rest = find_option args in if starts_with_dash arg then some arg else rest

unfoldable pub run_operands : (Bytes → Lstat) → List Bytes → Bool → Stream → Exit
run_operands lstat [] end_of_options s = reject usage s
run_operands lstat (path ∷ paths) true s = run_scan lstat (path ∷ paths) s
run_operands lstat (path ∷ paths) false s = elim (find_option (path ∷ paths)) [
  | some option ↦ reject (unknown_option option) s
  | none ↦ run_scan lstat (path ∷ paths) s
]

-- An informational option stands alone.
abbrev informs : Bytes → List Bytes → Stream → Exit
informs text [] s = handle_text text s
informs text (_ ∷ _) s = reject usage s

-- `main` on the whole argument vector.
unfoldable pub main : (Bytes → Lstat) → List Bytes → Stream → Exit
unfolding same_text
main lstat [] s = reject usage s
main lstat (_ ∷ []) s = run_operands lstat [] false s
main lstat (_ ∷ arg ∷ args) s =
    if same_text arg (codes "--help")
    then informs help_text args s
    else if same_text arg (codes "--version")
    then informs version_text args s
    else if same_text arg (codes "--")
    then run_operands lstat args true s
    else run_operands lstat (arg ∷ args) false s
