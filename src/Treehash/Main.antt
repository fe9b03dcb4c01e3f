-- ===== src/Treehash/Main.antt =====
-- src/treehash.c: main, from the arguments to the manifest on standard output.
pub mod Sorting
pub mod Manifest
use linux_utilities.Common.{
  ℕ, ◌+◌, Bool, true, false, not, List, [], ◌∷◌, ◌++◌, Option, none, some, if◌then◌else◌, leb, ◌==◌,
  length, Ordering, strcmp, Bytes, same_text,
}
use linux_utilities.Common.Memory.{Memory, allocate}
use linux_utilities.Common.Stdio.{Stream, fputs, ◌>>=◌}
use linux_utilities.Common.Text.{codes}
use linux_utilities.Treehash.Merkle.{FileEntry, Reduced, root, out_of_fuel, compute_merkle_root}
use linux_utilities.Treehash.Operand.{has_dotdot_segment, norm_dir}
use linux_utilities.Treehash.Walk.{
  World, Report, recursion_depth_exceeded, path_length_exceeded, cannot_access, not_a_directory,
  TreehashContext, Walked, walked, failed, path_max, treehash_max_depth, is_kind_directory,
  walk_dir,
}

-- What a refusal says.
pub data Message : Type 0 where
  help_combined version_combined too_many_arguments empty_operand : Message
  unknown_option path_escape : Bytes → Message
  reported : Report → Message

pub data Command : Type 0 where
  show_usage show_version : Command
  refuse : Message → Command
  operate : Bytes → Command

abbrev is_option : Bytes → Bool
is_option [] = false
is_option (c ∷ arg) = c == b'-'

-- The `for` over the arguments, with their number and the operand so far.
unfoldable pub parse_args : ℕ → Option Bytes → List Bytes → Command
parse_args argc none [] = operate (codes ".")
parse_args argc (some operand) [] = operate operand
parse_args argc operand (arg ∷ args) =
    let with_operand = parse_args argc (some arg) args in
    if same_text arg (codes "--help")
    then (if argc == 2 then show_usage else refuse help_combined)
    else if same_text arg (codes "--version")
    then (if argc == 2 then show_version else refuse version_combined)
    else if is_option arg
    then refuse (unknown_option arg)
    else elim operand [ none ↦ with_operand | some _ ↦ refuse too_many_arguments ]

-- `qsort` by `compare_file_entries`.
unfoldable pub insert_entry : FileEntry → List FileEntry → List FileEntry
insert_entry e [] = e ∷ []
insert_entry e (f ∷ entries) =
    let rest = insert_entry e entries in
    elim (strcmp e.rel_path f.rel_path) [ Ordering.gt ↦ f ∷ rest | _ ↦ e ∷ f ∷ entries ]

unfoldable pub sort_entries : List FileEntry → List FileEntry
sort_entries [] = []
sort_entries (e ∷ entries) = insert_entry e (sort_entries entries)

-- The exit status, standard output unless a write failed, and the message.
pub record Exit : Type 0 where
  pub status : ℕ
  pub out : Option Stream
  pub err : Option Message

unfoldable pub entry_line : FileEntry → Bytes
entry_line e = e.hex ++ (codes "  " ++ (e.rel_path ++ b'\n' ∷ []))

unfoldable pub root_line : Bytes → Bytes
root_line text = codes "ROOT " ++ (text ++ b'\n' ∷ [])

unfoldable pub print_entries : List FileEntry → Stream → Option Stream
print_entries [] s = some s
print_entries (e ∷ entries) s = fputs (entry_line e) s >>= print_entries entries

abbrev refused : Message → Stream → Exit
refused m s = record { status = 2; out = some s; err = some m }

abbrev pub or_refuse {ℓ} : {A : Type ℓ} → Option A → Message → Stream → (A → Exit) → Exit
or_refuse none m s f = refused m s
or_refuse (some a) m s f = f a

abbrev pub refuse_if : Bool → Message → Stream → Exit → Exit
refuse_if true m s x = refused m s
refuse_if false m s x = x

-- The end of the output: it is flushed, or the status is 2.
unfoldable pub flushed : Option Stream → Exit
flushed none = record { status = 2; out = none; err = none }
flushed (some s) = record { status = if s.flushes then 0 else 2; out = some s; err = none }

unfoldable pub print_manifest : Bytes → List FileEntry → Stream → Exit
print_manifest text entries s = flushed (fputs (root_line text) s >>= print_entries entries)

unfoldable pub finish : Reduced → List FileEntry → Stream → Exit
finish (root text) entries s = print_manifest text entries s
finish r entries s = refused (reported Report.out_of_memory) s

unfoldable pub finish_walk : Walked → Stream → Exit
finish_walk (failed r) s = refused (reported r) s
finish_walk (walked ctx) s =
    let entries = sort_entries ctx.entries.items in
    finish (compute_merkle_root ctx.memory entries) entries s

abbrev empty_context : Memory → TreehashContext
empty_context memory = record {
  entries = record { items = []; capacity = 0 };
  rules = record { items = []; capacity = 0 };
  ancestors = [];
  memory = memory;
}

-- The usage and the version are not checked for write errors.
unfoldable pub show : Bytes → Stream → Exit
show text s = record { status = 0; out = fputs text s; err = none }

abbrev usage_text : Bytes
usage_text =
    codes "Usage: treehash [OPTIONS] [WORKSPACE_DIR]\n"
    ++ (codes "\n"
        ++ (codes "Compute deterministic SHA-256 Merkle tree root hash and pin manifest.\n"
            ++ (codes "\n"
                ++ (codes "Options:\n"
                    ++ (codes "  --help     Display this help and exit\n"
                        ++ codes "  --version  Output version information and exit\n")))))

module _ (fnmatch : Bytes → Bytes → Bool → Bool) (world : World) (memory : Memory) where
  -- From the test of the directory on.
  unfoldable pub hash_tree : Bytes → Bytes → Stream → Exit
  hash_tree operand dir s = or_refuse (world.lstat dir) (reported (cannot_access operand)) s (λ st.
      refuse_if (not (is_kind_directory st)) (reported (not_a_directory operand)) s (
        or_refuse (allocate memory) (reported Report.out_of_memory) s (λ left.
          finish_walk (walk_dir fnmatch world treehash_max_depth 0 dir [] (empty_context left)) s)))

  unfoldable pub run_operand : Bytes → Stream → Exit
  run_operand [] s = refused empty_operand s
  run_operand (c ∷ operand) s =
      refuse_if (has_dotdot_segment (c ∷ operand)) (path_escape (c ∷ operand)) s (
        refuse_if (leb path_max (length (c ∷ operand))) (reported path_length_exceeded) s
          (hash_tree (c ∷ operand) (norm_dir (c ∷ operand)) s))

  unfoldable pub run_command : Command → Stream → Exit
  run_command show_usage s = show usage_text s
  run_command show_version s = show (codes "treehash 0.1.0\n") s
  run_command (refuse m) s = refused m s
  run_command (operate operand) s = run_operand operand s

  unfoldable pub main : List Bytes → Stream → Exit
  main args s = run_command (parse_args (length args + 1) none args) s
