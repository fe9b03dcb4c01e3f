-- ===== src/Treehash/Examples.antt =====
-- Runs of treehash's parts on concrete inputs, and the theorems at them.
use linux_utilities.Common.{
  subst, All, ℕ, any, if◌then◌else◌, ◌<◌, ◌≡◌, ◌≢◌, refl, Bool, true, false, List, [], ◌∷◌, ◌++◌,
  none, some, arith, Bytes, same_text,
}
use linux_utilities.Common.Memory.{allocate}
use linux_utilities.Common.Text.{codes}
use linux_utilities.Treehash.Ignore.{
  IgnoreRule, IgnoreRuleArray, grow, add_ignore_rule, pop_loop, pop_rules, load_line, load_kept,
  load_pattern, load_lines, load_gitignore, Opened, not_opened, lines_read, loaded, match_rule,
  judge, is_path_ignored, after_prefix, relative, base_name, is_skipped, trim_end, until_nul,
  negation, final_slash, anchor,
}
use linux_utilities.Treehash.Ignore.Below.{IsBelow, match_rule-IsBelow}
use linux_utilities.Treehash.Ignore.Popping.{pop_rules-load_gitignore}
use linux_utilities.Treehash.Ignore.Verdict.{IsVerdict, is_path_ignored-IsVerdict}
use linux_utilities.Common.Stdio.{Stream, fputs}
use linux_utilities.Treehash.Main.{
  refuse, operate, help_combined, parse_args, insert_entry, sort_entries, entry_line, root_line,
  print_entries, flushed, print_manifest, finish, finish_walk, hash_tree, run_operand,
}
use linux_utilities.Treehash.Main.Manifest.{IsManifestOfWalk, run_operand-IsManifest}
use linux_utilities.Treehash.Merkle.{
  FileEntry, hex_text, compute_leaf_digest, next_level, reduce_loop, compute_merkle_root,
}
use linux_utilities.Treehash.Merkle.Root.{IsRootOf, compute_merkle_root-IsRootOf}
use linux_utilities.Treehash.Operand.{
  dotdot_here, dotdot_from, has_dotdot_segment, backwards, cut_end, or_dot, norm_dir,
}
use linux_utilities.Treehash.Operand.Segments.{segments, is_dotdot, has_dotdot_segment_lem}
use linux_utilities.Treehash.Sha256.{
  sha256_final, sha256_update, sha256_init, absorb_blocks, block_loop, sha256_transform, zeros,
}
use linux_utilities.Treehash.Sha256.Final.{
  sha256, update_all, joined_pieces, sha256_final-update_all,
}
use linux_utilities.Treehash.Walk.{
  directory, regular, World, TreehashContext, walked, add_file_entry, child_rel, is_special,
  hash_pieces, hash_file_sha256, visit_file, visit_kind, visit_name, visit_names, take_rules,
  load_rules, walk_inside, walk_dir, leave, is_regular_file, is_kind_directory,
}
use linux_utilities.Treehash.Walk.Context.{Keeps}
use linux_utilities.Treehash.Walk.HexDigest.{IsHexDigest, hash_file_sha256-IsHexDigest}
use linux_utilities.Treehash.Walk.Keeping.{walk_dir-Keeps}
use linux_utilities.Treehash.Walk.Visits.{IsFile, IsComponent, ListsComponents}

-- The published digest of three bytes.
abc :
    hex_text (sha256_final (sha256_update (codes "abc") (sha256_init (zeros 64))))
    ≡ codes "ba7816bf8f01cfea414140de5dae2223b00361a396177a9cb410ff61f20015ad"
unfolding hex_text sha256_final sha256_update sha256_init absorb_blocks block_loop sha256_transform
abc = refl

-- `fnmatch` without wildcards.
abbrev plain : Bytes → Bytes → Bool → Bool
plain pattern text pathname = same_text pattern text

abbrev outer : IgnoreRule
outer = record {
  pattern = codes "build";
  dir_rel = [];
  depth = 0;
  is_negated = false;
  is_dir_only = true;
  is_anchored = false;
}

abbrev outer_rules : IgnoreRuleArray
outer_rules = record { items = outer ∷ []; capacity = 32 }

abbrev inner : IgnoreRule
inner = record {
  pattern = codes "note";
  dir_rel = codes "docs";
  depth = 1;
  is_negated = true;
  is_dir_only = false;
  is_anchored = true;
}

abbrev both_rules : IgnoreRuleArray
both_rules = record { items = outer ∷ inner ∷ []; capacity = 32 }

abbrev ignore_file : Opened
ignore_file = lines_read (codes "# notes\n" ∷ codes "!/note \r\n" ∷ [])

loads : load_gitignore ignore_file (codes "docs") 1 outer_rules 10 ≡ loaded both_rules 7
unfolding load_gitignore load_lines load_line load_pattern load_kept add_ignore_rule grow is_skipped
    trim_end until_nul negation final_slash anchor allocate
loads = refl

ignores : is_path_ignored plain both_rules (codes "a/build") true ≡ true
unfolding is_path_ignored judge match_rule relative after_prefix base_name same_text
ignores = refl

sha256_final-update_all_example :
    sha256_final (update_all (codes "a" ∷ codes "bc" ∷ []) (sha256_init (zeros 64)))
    ≡ sha256 (joined_pieces (codes "a" ∷ codes "bc" ∷ []))
sha256_final-update_all_example =
    sha256_final-update_all (codes "a" ∷ codes "bc" ∷ []) (zeros 64) refl

abbrev entry : FileEntry
entry = record { rel_path = codes "a"; hex = zeros 64 }

compute_merkle_root-IsRootOf_example :
    IsRootOf (entry ∷ entry ∷ entry ∷ []) (compute_merkle_root 10 (entry ∷ entry ∷ entry ∷ []))
compute_merkle_root-IsRootOf_example = compute_merkle_root-IsRootOf 10 (entry ∷ entry ∷ entry ∷ [])

is_path_ignored-IsVerdict_example :
    IsVerdict plain
      (codes "docs/note")
      false
      (outer ∷ inner ∷ [])
      (is_path_ignored plain both_rules (codes "docs/note") false)
is_path_ignored-IsVerdict_example =
    is_path_ignored-IsVerdict plain (codes "docs/note") false both_rules

below_zero : 0 < 1
below_zero = omega arith

pop_rules-load_gitignore_example : (pop_rules both_rules 1).items ≡ outer ∷ []
pop_rules-load_gitignore_example =
    pop_rules-load_gitignore ignore_file (codes "docs") 1 outer_rules both_rules 10 7
      (below_zero, tt) loads

some_docs : codes "docs" ≢ []
some_docs e = absurd (ground arith)

matches_note : match_rule plain inner (codes "docs/note") false ≡ true
unfolding match_rule relative after_prefix same_text
matches_note = refl

match_rule-IsBelow_example : IsBelow (codes "docs") (codes "docs/note")
match_rule-IsBelow_example =
    match_rule-IsBelow plain inner (codes "docs/note") false some_docs matches_note

has_dotdot_segment_lem_example :
    has_dotdot_segment (codes "a/../b")
    ≡ any is_dotdot ((segments (codes "a/../b")).0 ∷ (segments (codes "a/../b")).1)
has_dotdot_segment_lem_example = has_dotdot_segment_lem (codes "a/../b")

refuses : has_dotdot_segment (codes "a/..") ≡ true
unfolding has_dotdot_segment dotdot_from dotdot_here
refuses = refl

shortens : norm_dir (codes "./a/./") ≡ codes "./a"
unfolding norm_dir or_dot backwards cut_end
shortens = refl

-- The root directory, written with a dot.
root_with_dot : norm_dir (codes "/.") ≡ codes "."
unfolding norm_dir or_dot backwards cut_end
root_with_dot = refl

-- A directory `w` that holds a file `f` in two pieces.
abbrev files : World
files = record {
  lstat = λ path.
      if same_text path (codes "w")
      then some (record { kind = directory; dev = 1; ino = 2 })
      else if same_text path (codes "w/f")
      then some (record { kind = regular; dev = 1; ino = 3 })
      else none;
  open_dir = λ path. some (codes "." ∷ codes "f" ∷ [], false);
  open_lines = λ path. not_opened 2;
  read_file = λ path. some (codes "a" ∷ codes "bc" ∷ []);
}

abbrev context : List FileEntry → ℕ → ℕ → TreehashContext
context items capacity memory = record {
  entries = record { items = items; capacity = capacity };
  rules = record { items = []; capacity = 0 };
  ancestors = [];
  memory = memory;
}

abbrev found_file : FileEntry
found_file = record {
  rel_path = codes "f";
  hex = codes "ba7816bf8f01cfea414140de5dae2223b00361a396177a9cb410ff61f20015ad";
}

walks :
    walk_dir plain files 2 0 (codes "w") [] (context [] 0 10)
    ≡ walked (context (found_file ∷ []) 64 8)
unfolding walk_dir walk_inside load_rules is_regular_file take_rules visit_names visit_name
    visit_kind visit_file hash_file_sha256 hash_pieces add_file_entry grow child_rel is_special
    is_kind_directory leave pop_rules pop_loop is_path_ignored judge same_text allocate hex_text
    sha256_final sha256_update sha256_init absorb_blocks block_loop sha256_transform update_all
walks = refl

lists_components : ListsComponents files
lists_components disk names broken e = subst (All IsComponent) listed (
  ((λ h. absurd (ground arith)), ((λ h. absurd (ground arith)), tt)),
  (((λ h. absurd (ground arith)), ((λ h. absurd (ground arith)), tt)), tt),
)
  where
    listed : codes "." ∷ codes "f" ∷ [] ≡ names
    listed = ground arith

walk_dir-Keeps_example :
    Keeps (IsFile files (codes "w") []) (context [] 0 10) (context (found_file ∷ []) 64 8)
walk_dir-Keeps_example =
    walk_dir-Keeps plain files 2 0 (codes "w") [] (context [] 0 10) (context (found_file ∷ []) 64 8)
      lists_components tt walks

parses : parse_args 3 none (codes "a" ∷ codes "--help" ∷ []) ≡ refuse help_combined
unfolding parse_args same_text
parses = refl

parses_nothing : parse_args 1 none [] ≡ operate (codes ".")
unfolding parse_args
parses_nothing = refl

abbrev before_run : Stream
before_run = record { written = []; room = 1000; flushes = true; errno = 0 }

abbrev only_root : Bytes
only_root = codes "14f0dc8d9814678c74b49f0a60f27cf37188241db591eae8f76888ed2155a15a"

abbrev after_run : Stream
after_run = record {
  written = codes "ROOT " ++ (only_root ++ (codes "\n" ++ (found_file.hex ++ codes "  f\n")));
  room = 862;
  flushes = true;
  errno = 0;
}

runs :
    ((run_operand plain files 20 (codes "w/") before_run).status ≡ 0)
    × ((run_operand plain files 20 (codes "w/") before_run).out ≡ some after_run)
unfolding run_operand hash_tree finish_walk finish print_manifest flushed print_entries root_line
    entry_line sort_entries insert_entry fputs compute_merkle_root reduce_loop next_level
    compute_leaf_digest has_dotdot_segment dotdot_from dotdot_here norm_dir or_dot backwards cut_end
    walk_dir walk_inside load_rules is_regular_file take_rules visit_names visit_name visit_kind
    visit_file hash_file_sha256 hash_pieces add_file_entry grow child_rel is_special
    is_kind_directory leave pop_rules pop_loop is_path_ignored judge same_text allocate hex_text
    sha256_final sha256_update sha256_init absorb_blocks block_loop sha256_transform update_all
runs = (refl, refl)

run_operand-IsManifest_example :
    IsManifestOfWalk plain files (norm_dir (codes "w/")) before_run after_run
run_operand-IsManifest_example =
    run_operand-IsManifest plain files lists_components 20 (codes "w/") before_run after_run
      (runs.0) (runs.1)

hashes : hash_file_sha256 files (codes "w/f") ≡ some found_file.hex
unfolding hash_file_sha256 hash_pieces hex_text sha256_final sha256_update sha256_init absorb_blocks
    block_loop sha256_transform update_all
hashes = refl

hash_file_sha256-IsHexDigest_example : IsHexDigest found_file.hex
hash_file_sha256-IsHexDigest_example =
    hash_file_sha256-IsHexDigest files (codes "w/f") found_file.hex hashes

-- `fnmatch` that matches nothing.
abbrev nothing : Bytes → Bytes → Bool → Bool
nothing pattern text pathname = false

abbrev file_entry : FileEntry
file_entry = record {
  rel_path = child_rel [] (codes "f");
  hex = hex_text (sha256 (joined_pieces (codes "a" ∷ codes "bc" ∷ [])));
}
