-- ===== src/Treehash/Walk.antt =====
-- src/treehash.c: hashing of files and the walk over the directories. A `World` answers the system
-- calls, after the retries on EINTR: what it says of a path does not change during a walk.
pub mod Context
pub mod HexDigest
pub mod Visits
pub mod Keeping
pub mod Complete
use linux_utilities.Common.{
  ℕ, zero, suc, ◌+◌, Bool, true, false, not, ◌&&◌, ◌||◌, List, [], ◌∷◌, ◌++◌, Option, none, some,
  if◌then◌else◌, leb, ◌==◌, any, length, Bytes, same_text,
}
use linux_utilities.Common.Memory.{Memory, allocate}
use linux_utilities.Common.Text.{codes}
use linux_utilities.Treehash.Ignore.{
  IgnoreRule, IgnoreRuleArray, grow, pop_rules, Opened, Loaded, loaded, load_error, load_memory,
  load_gitignore, is_path_ignored,
}
use linux_utilities.Treehash.Merkle.{FileEntry, hex_text}
use linux_utilities.Treehash.Sha256.{sha256_init, sha256_final, zeros}
use linux_utilities.Treehash.Sha256.Final.{update_all}

pub data Kind : Type 0 where
  directory regular link other_kind : Kind

pub record Stat : Type 0 where
  pub kind : Kind
  pub dev : ℕ
  pub ino : ℕ

-- `none` is a failed call. `open_dir` gives the names that `readdir` returns and whether it then
-- fails; `read_file` gives what the calls of `read` return, and fails with any call on the file.
pub record World : Type 0 where
  pub lstat : Bytes → Option Stat
  pub open_dir : Bytes → Option (List Bytes × Bool)
  pub open_lines : Bytes → Opened
  pub read_file : Bytes → Option (List Bytes)

pub data Report : Type 0 where
  recursion_depth_exceeded path_length_exceeded out_of_memory : Report
  cannot_access not_a_directory cycle_detected cannot_open_directory cannot_open cannot_read
        cannot_read_directory :
      Bytes → Report

pub record FileEntryArray : Type 0 where
  pub items : List FileEntry
  pub capacity : ℕ

pub record AncestorNode : Type 0 where
  pub dev : ℕ
  pub ino : ℕ

-- The array `ancestors` as far as `ancestor_count`, the last node first. `memory` is the allocator's.
pub record TreehashContext : Type 0 where
  pub entries : FileEntryArray
  pub rules : IgnoreRuleArray
  pub ancestors : List AncestorNode
  pub memory : Memory

-- A failure ends the program, which then frees the context.
pub data Walked : Type 0 where
  walked : TreehashContext → Walked
  failed : Report → Walked

infixl 5 ◌>>=◌
abbrev pub ◌>>=◌ : Walked → (TreehashContext → Walked) → Walked
walked ctx >>= f = f ctx
failed r >>= f = failed r

-- Goes on with what a call gave, or reports its failure.
abbrev pub or_fail {ℓ} : {A : Type ℓ} → Option A → Report → (A → Walked) → Walked
or_fail none r f = failed r
or_fail (some a) r f = f a

abbrev pub fail_if : Bool → Report → Walked → Walked
fail_if true r w = failed r
fail_if false r w = w

-- Passes over a name or a path.
abbrev pub skip_if : Bool → TreehashContext → Walked → Walked
skip_if true ctx w = walked ctx
skip_if false ctx w = w

abbrev pub path_max : ℕ
path_max = 4096

abbrev pub treehash_max_depth : ℕ
treehash_max_depth = 256

unfoldable pub add_file_entry :
    FileEntryArray → FileEntry → Memory → Option (FileEntryArray × Memory)
add_file_entry arr entry memory = elim (grow 64 80 (length arr.items) arr.capacity memory) [
  | none ↦ none
  | some (capacity, left) ↦ elim (allocate left) [
    | none ↦ none
    | some rest ↦ some (record { items = arr.items ++ entry ∷ []; capacity = capacity }, rest)
  ]
]

-- "%s/%s"
abbrev pub child_disk : Bytes → Bytes → Bytes
child_disk disk_dir name = disk_dir ++ b'/' ∷ name

unfoldable pub child_rel : Bytes → Bytes → Bytes
child_rel [] name = name
child_rel (c ∷ rel_dir) name = (c ∷ rel_dir) ++ b'/' ∷ name

-- The names that the loop passes over.
unfoldable pub is_special : Bytes → Bool
is_special name =
    same_text name (codes ".") || same_text name (codes "..") || same_text name (codes ".git")

abbrev pub same_node : Stat → AncestorNode → Bool
same_node st node = (node.dev == st.dev) && (node.ino == st.ino)

unfoldable pub is_kind_directory : Stat → Bool
is_kind_directory st = elim st.kind [ directory ↦ true | _ ↦ false ]

unfoldable pub is_regular_file : Option Stat → Bool
is_regular_file none = false
is_regular_file (some st) = elim st.kind [ regular ↦ true | _ ↦ false ]

-- What comes of `load_gitignore`.
unfoldable pub take_rules : Bytes → Loaded → TreehashContext → Walked
take_rules path (loaded rules left) ctx = walked (record ctx { rules = rules; memory = left })
take_rules path load_error ctx = failed (cannot_open path)
take_rules path load_memory ctx = failed out_of_memory

abbrev pub one_less : List AncestorNode → List AncestorNode
one_less [] = []
one_less (node ∷ nodes) = nodes

-- Back to the directory above: `pop_rules`, and one ancestor less.
unfoldable pub leave : ℕ → TreehashContext → TreehashContext
leave depth ctx = record ctx {
  rules = pop_rules ctx.rules depth;
  ancestors = one_less ctx.ancestors;
}

-- The digest of what is read, piece by piece, in hex.
unfoldable pub hash_pieces : Option (List Bytes) → Option Bytes
hash_pieces none = none
hash_pieces (some pieces) =
    some (hex_text (sha256_final (update_all pieces (sha256_init (zeros 64)))))

unfoldable pub hash_file_sha256 : World → Bytes → Option Bytes
hash_file_sha256 world path = hash_pieces (world.read_file path)

module _ (fnmatch : Bytes → Bytes → Bool → Bool) (world : World) where
  unfoldable pub visit_file : Bytes → Bytes → TreehashContext → Walked
  visit_file disk rel ctx = skip_if (is_path_ignored fnmatch ctx.rules rel false) ctx (
      or_fail (hash_file_sha256 world disk) (cannot_read disk) (λ hex.
        or_fail (add_file_entry ctx.entries (record { rel_path = rel; hex = hex }) ctx.memory)
          out_of_memory (λ added. walked (record ctx { entries = added.0; memory = added.1 }))))

  -- `recurse` is `walk_dir` one level below.
  unfoldable pub visit_kind :
      Kind → (Bytes → Bytes → TreehashContext → Walked) → Bytes → Bytes → TreehashContext → Walked
  visit_kind directory recurse disk rel ctx =
      skip_if (is_path_ignored fnmatch ctx.rules rel true) ctx (recurse disk rel ctx)
  visit_kind regular recurse disk rel ctx = visit_file disk rel ctx
  visit_kind link recurse disk rel ctx = walked ctx
  visit_kind other_kind recurse disk rel ctx = walked ctx

  -- One round of the `while` over the names.
  unfoldable pub visit_name :
      (Bytes → Bytes → TreehashContext → Walked) → Bytes → Bytes → Bytes → TreehashContext → Walked
  visit_name recurse disk_dir rel_dir name ctx = skip_if (is_special name) ctx (
      fail_if (leb path_max (length (child_disk disk_dir name))) path_length_exceeded (
        fail_if (leb path_max (length (child_rel rel_dir name))) path_length_exceeded (
          or_fail (world.lstat (child_disk disk_dir name))
            (cannot_access (child_disk disk_dir name))
            (λ st.
              visit_kind st.kind recurse (child_disk disk_dir name) (child_rel rel_dir name) ctx))))

  unfoldable pub visit_names :
      (Bytes → Bytes → TreehashContext → Walked)
      → Bytes
      → Bytes
      → List Bytes
      → TreehashContext
      → Walked
  visit_names recurse disk_dir rel_dir [] ctx = walked ctx
  visit_names recurse disk_dir rel_dir (name ∷ names) ctx =
      visit_name recurse disk_dir rel_dir name ctx
      >>= (λ next. visit_names recurse disk_dir rel_dir names next)

  -- The rules of the directory, from a `.gitignore` that is a regular file.
  unfoldable pub load_rules : Bytes → Bytes → ℕ → TreehashContext → Walked
  load_rules disk_dir rel_dir depth ctx =
      let path = child_disk disk_dir (codes ".gitignore") in
      fail_if (leb path_max (length path)) path_length_exceeded (
        skip_if (not (is_regular_file (world.lstat path))) ctx (
          take_rules path
            (load_gitignore (world.open_lines path) rel_dir depth ctx.rules ctx.memory) ctx))

  -- `walk_dir` from the push on the ancestors on.
  unfoldable pub walk_inside :
      (Bytes → Bytes → TreehashContext → Walked) → ℕ → Bytes → Bytes → TreehashContext → Walked
  walk_inside recurse depth disk_dir rel_dir ctx =
      or_fail (world.open_dir disk_dir) (cannot_open_directory disk_dir) (λ listing.
        load_rules disk_dir rel_dir depth ctx
        >>= visit_names recurse disk_dir rel_dir listing.0
        >>= (λ seen.
            fail_if listing.1 (cannot_read_directory disk_dir) (walked (leave depth seen))))

  -- The fuel is how much the depth is below TREEHASH_MAX_DEPTH, so that it is gone exactly where the
  -- source stops.
  unfoldable pub walk_dir : ℕ → ℕ → Bytes → Bytes → TreehashContext → Walked
  walk_dir zero depth disk_dir rel_dir ctx = failed recursion_depth_exceeded
  walk_dir (suc fuel) depth disk_dir rel_dir ctx =
      or_fail (world.lstat disk_dir) (cannot_access disk_dir) (λ st.
        fail_if (not (is_kind_directory st)) (not_a_directory disk_dir) (
          fail_if (any (same_node st) ctx.ancestors) (cycle_detected disk_dir) (
            walk_inside (walk_dir fuel (suc depth)) depth disk_dir rel_dir (record ctx {
              ancestors = (record { dev = st.dev; ino = st.ino }) ∷ ctx.ancestors;
            }))))
