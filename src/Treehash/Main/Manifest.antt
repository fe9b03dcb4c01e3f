-- ===== src/Treehash/Main/Manifest.antt =====
-- What a run that ends with status 0 has written.
use linux_utilities.Common.{
  ◌≡◌, refl, ap, sym, ◌∙◌, subst, Bool, true, false, not, List, [], ◌∷◌, ◌++◌, append_assoc,
  append-nil, All, Option, none, some, leb, length, Bytes, arith,
}
use linux_utilities.Common.Memory.{Memory, allocate}
use linux_utilities.Common.Stdio.{Stream, fputs, ◌>>=◌}
use linux_utilities.Common.Stdio.Laws.{fputs-written}
use linux_utilities.Treehash.Main.{
  Message, path_escape, reported, Exit, sort_entries, entry_line, root_line, print_entries,
  or_refuse, refuse_if, flushed, print_manifest, finish, finish_walk, empty_context, hash_tree,
  run_operand,
}
use linux_utilities.Treehash.Merkle.{
  FileEntry, Reduced, root, out_of_memory, out_of_fuel, compute_merkle_root,
}
use linux_utilities.Treehash.Merkle.Root.{IsRootOf, compute_merkle_root-IsRootOf}
use linux_utilities.Treehash.Operand.{has_dotdot_segment, norm_dir}
use linux_utilities.Treehash.Walk.{
  World, Report, cannot_access, not_a_directory, path_length_exceeded, TreehashContext, Walked,
  walked, failed, path_max, treehash_max_depth, is_kind_directory, walk_dir,
}
use linux_utilities.Treehash.Walk.Keeping.{walk_dir-Keeps}
use linux_utilities.Treehash.Walk.Visits.{IsFile, ListsComponents}
use linux_utilities.Treehash.Main.Sorting.{
  IsOrdered, sort_entries-IsOrdered, sort_entries-All, sort_entries-perm,
}
use mathlib.Core.List.{Perm}

-- One line for each entry.
unfoldable pub entries_text : List FileEntry → Bytes
entries_text [] = []
entries_text (e ∷ entries) = entry_line e ++ entries_text entries

print_entries_lem :
    (entries : List FileEntry) (s s' : Stream)
    → print_entries entries s ≡ some s'
    → s'.written ≡ s.written ++ entries_text entries
unfolding print_entries entries_text
print_entries_lem [] s s' e =
    let same : s ≡ s' = ground arith in ap (λ t. t.written) (sym same) ∙ sym (append-nil s.written)
print_entries_lem (f ∷ entries) s s' e =
    go (fputs (entry_line f) s) refl e (λ m. print_entries_lem entries m s')
  where
    go :
        (o : Option Stream)
        → fputs (entry_line f) s ≡ o
        → (o >>= print_entries entries) ≡ some s'
        → ((m : Stream)
            → print_entries entries m ≡ some s'
            → s'.written ≡ m.written ++ entries_text entries)
        → s'.written ≡ s.written ++ (entry_line f ++ entries_text entries)
    go none c rest above = absurd (ground arith)
    go (some m) c rest above =
        let w = (fputs-written (entry_line f) s c).0 in
        above m rest
        ∙ ap (λ t. t ++ entries_text entries) w
        ∙ append_assoc s.written (entry_line f) (entries_text entries)

-- The manifest of some entries: the root over them and a line for each, in the order of their paths,
-- each of a file below the directory.
pub record IsManifest (world : World) (dir : Bytes) (collected : List FileEntry) (s out : Stream)
    : Type 0 where
  pub entries : List FileEntry
  pub same : Perm entries collected
  pub text : Bytes
  pub all_files : All (IsFile world dir []) entries
  pub ordered : IsOrdered entries
  pub is_root : IsRootOf entries (root text)
  pub written : out.written ≡ s.written ++ (root_line text ++ entries_text entries)

flushed_lem : (o : Option Stream) (out : Stream) → (flushed o).out ≡ some out → o ≡ some out
unfolding flushed
flushed_lem none out e = e
flushed_lem (some s) out e = e

print_manifest_lem :
    (text : Bytes) (entries : List FileEntry) (s out : Stream)
    → (print_manifest text entries s).out ≡ some out
    → out.written ≡ s.written ++ (root_line text ++ entries_text entries)
unfolding print_manifest
print_manifest_lem text entries s out e =
    go (fputs (root_line text) s) refl
      (flushed_lem (fputs (root_line text) s >>= print_entries entries) out e)
  where
    go :
        (o : Option Stream)
        → fputs (root_line text) s ≡ o
        → (o >>= print_entries entries) ≡ some out
        → out.written ≡ s.written ++ (root_line text ++ entries_text entries)
    go none c rest = absurd (ground arith)
    go (some m) c rest =
        print_entries_lem entries m out rest
        ∙ ap (λ t. t ++ entries_text entries) ((fputs-written (root_line text) s c).0)
        ∙ append_assoc s.written (root_line text) (entries_text entries)

-- Status 0, and no write failed.
abbrev Succeeds : Exit → Stream → Type 0
Succeeds x out = (x.status ≡ 0) × (x.out ≡ some out)

record Goes {A : Type 0} (o : Option A) (f : A → Exit) (out : Stream) : Type 0 where
  value : A
  is_value : o ≡ some value
  succeeds : Succeeds (f value) out

or_refuse_lem :
    {A : Type 0} (o : Option A) (m : Message) (s out : Stream) (f : A → Exit)
    → Succeeds (or_refuse o m s f) out
    → Goes o f out
or_refuse_lem none m s out f (ok, e) = absurd (omega arith)
or_refuse_lem (some a) m s out f both = record { value = a; is_value = refl; succeeds = both }

refuse_if_lem :
    (b : Bool) (m : Message) (s out : Stream) (x : Exit)
    → Succeeds (refuse_if b m s x) out
    → Succeeds x out
refuse_if_lem true m s out x (ok, e) = absurd (omega arith)
refuse_if_lem false m s out x both = both

-- The manifest of the entries that a walk has collected.
pub record IsManifestOfWalk (fnmatch : Bytes → Bytes → Bool → Bool) (world : World) (dir : Bytes)
    (s out : Stream) : Type 0 where
  pub left : Memory
  pub after : TreehashContext
  pub walk_is :
      walk_dir fnmatch world treehash_max_depth 0 dir [] (empty_context left) ≡ walked after
  pub manifest : IsManifest world dir after.entries.items s out

module _ (world : World) (dir : Bytes) (s out : Stream) where
  finish-IsManifest :
      (r : Reduced) (entries collected : List FileEntry)
      → Perm entries collected
      → IsRootOf entries r
      → All (IsFile world dir []) entries
      → IsOrdered entries
      → (finish r entries s).status ≡ 0
      → (finish r entries s).out ≡ some out
      → IsManifest world dir collected s out
  unfolding finish
  finish-IsManifest (root text) entries collected same is_root all_files ordered ok e = record {
    entries = entries;
    same = same;
    text = text;
    all_files = all_files;
    ordered = ordered;
    is_root = is_root;
    written = print_manifest_lem text entries s out e;
  }
  finish-IsManifest out_of_memory entries collected same is_root all_files ordered ok e =
      absurd (omega arith)
  finish-IsManifest out_of_fuel entries collected same is_root all_files ordered ok e =
      absurd (omega arith)

  finish_walk-IsManifest :
      (ctx : TreehashContext)
      → All (IsFile world dir []) ctx.entries.items
      → (finish_walk (walked ctx) s).status ≡ 0
      → (finish_walk (walked ctx) s).out ≡ some out
      → IsManifest world dir ctx.entries.items s out
  unfolding finish_walk
  finish_walk-IsManifest ctx files ok e =
      finish-IsManifest (compute_merkle_root ctx.memory (sort_entries ctx.entries.items))
        (sort_entries ctx.entries.items) ctx.entries.items (sort_entries-perm ctx.entries.items)
        (compute_merkle_root-IsRootOf ctx.memory (sort_entries ctx.entries.items))
        (sort_entries-All (IsFile world dir []) ctx.entries.items files)
        (sort_entries-IsOrdered ctx.entries.items) ok e

module _ (fnmatch : Bytes → Bytes → Bool → Bool) (world : World)
    (components : ListsComponents world) (memory : Memory) where
  walk_dir-All :
      (dir : Bytes) (left : Memory) (ctx : TreehashContext)
      → walk_dir fnmatch world treehash_max_depth 0 dir [] (empty_context left) ≡ walked ctx
      → All (IsFile world dir []) ctx.entries.items
  walk_dir-All dir left ctx e =
      let keeps =
        walk_dir-Keeps fnmatch world treehash_max_depth 0 dir [] (empty_context left) ctx components
          tt e in
      subst (All (IsFile world dir [])) (sym keeps.entries_added) keeps.all_new

  walk-IsManifest :
      (dir : Bytes) (left : Memory) (s out : Stream) (w : Walked)
      → walk_dir fnmatch world treehash_max_depth 0 dir [] (empty_context left) ≡ w
      → Succeeds (finish_walk w s) out
      → IsManifestOfWalk fnmatch world dir s out
  unfolding finish_walk
  walk-IsManifest dir left s out (failed r) walk_is (ok, e) = absurd (omega arith)
  walk-IsManifest dir left s out (walked after) walk_is (ok, e) = record {
    left = left;
    after = after;
    walk_is = walk_is;
    manifest =
        finish_walk-IsManifest world dir s out after (walk_dir-All dir left after walk_is) ok e;
  }

  hash_tree-IsManifest :
      (operand dir : Bytes) (s out : Stream)
      → Succeeds (hash_tree fnmatch world memory operand dir s) out
      → IsManifestOfWalk fnmatch world dir s out
  unfolding hash_tree
  hash_tree-IsManifest operand dir s out both =
      let st = or_refuse_lem (world.lstat dir) (reported (cannot_access operand)) s out _ both in
      let is_dir =
        refuse_if_lem (not (is_kind_directory st.value)) (reported (not_a_directory operand)) s out
          _ st.succeeds in
      let left = or_refuse_lem (allocate memory) (reported Report.out_of_memory) s out _ is_dir in
      walk-IsManifest dir left.value s out
        (walk_dir fnmatch world treehash_max_depth 0 dir [] (empty_context left.value)) refl
        left.succeeds

  -- Where a directory's names are single components of paths: if a run on an operand ends with
  -- status 0 and no write failed, then what it has written is a root line and a line for each entry
  -- that the walk over the shortened operand has collected, none lost or added, in the order of
  -- their paths. Each entry is that of a regular file that a path of
  -- names leads to from the shortened operand, through directories only, each name listed in its
  -- directory, without a slash, and neither `.` nor `..` nor `.git`, with the SHA-256 of all that is
  -- read from it; and the root is that of these entries.
  pub run_operand-IsManifest :
      (operand : Bytes) (s out : Stream)
      → (run_operand fnmatch world memory operand s).status ≡ 0
      → (run_operand fnmatch world memory operand s).out ≡ some out
      → IsManifestOfWalk fnmatch world (norm_dir operand) s out
  unfolding run_operand
  run_operand-IsManifest [] s out ok e = absurd (omega arith)
  run_operand-IsManifest (c ∷ operand) s out ok e =
      let safe =
        refuse_if_lem (has_dotdot_segment (c ∷ operand)) (path_escape (c ∷ operand)) s out _
          (ok, e) in
      let short =
        refuse_if_lem (leb path_max (length (c ∷ operand))) (reported path_length_exceeded) s out _
          safe in
      hash_tree-IsManifest (c ∷ operand) (norm_dir (c ∷ operand)) s out short
