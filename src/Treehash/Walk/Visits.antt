-- ===== src/Treehash/Walk/Visits.antt =====
-- What the loop over the names adds.
use linux_utilities.Common.{
  ℕ, suc, ◌≡◌, refl, ap, sym, ◌∙◌, subst, Bool, true, false, List, [], ◌∷◌, ◌++◌, Option, none,
  some, arith, Bytes, leb, length, ◌≢◌, All, append_assoc, same_text,
}
use linux_utilities.Common.Memory.{Memory}
use linux_utilities.Common.Text.{codes}
use linux_utilities.Treehash.Ignore.{is_path_ignored}
use linux_utilities.Treehash.Ignore.Popping.{AreOuter}
use linux_utilities.Treehash.Merkle.{FileEntry, hex_text}
use linux_utilities.Treehash.Sha256.{sha256_init, sha256_final, zeros}
use linux_utilities.Treehash.Sha256.Final.{
  update_all, sha256, joined_pieces, sha256_final-update_all,
}
use linux_utilities.Treehash.Walk.{
  Kind, directory, regular, link, other_kind, Stat, World, FileEntryArray, TreehashContext, Walked,
  walked, path_max, path_length_exceeded, out_of_memory, cannot_read, cannot_access, add_file_entry,
  child_disk, child_rel, is_special, hash_pieces, hash_file_sha256, visit_file, visit_kind,
  visit_name, visit_names,
}
use linux_utilities.Treehash.Walk.Context.{
  chained, given, not_failed, walked_inj, Keeps, Keeps-refl, Keeps-trans, Keeps-skip_if,
  Keeps-weaken,
}

some_inj : (a b : Bytes) → some a ≡ some b → a ≡ b
some_inj a b e = ground arith

pub add_file_entry_items :
    (arr : FileEntryArray) (entry : FileEntry) (memory : Memory) (added : FileEntryArray × Memory)
    → add_file_entry arr entry memory ≡ some added
    → added.0.items ≡ arr.items ++ entry ∷ []
unfolding add_file_entry
add_file_entry_items arr entry memory (longer, left) e = ground arith

-- One component of a path, and neither `.` nor `..` nor `.git`.
pub record IsPlainName (name : Bytes) : Type 0 where
  pub nonempty : name ≢ []
  pub no_slash : All (λ c. c ≢ b'/') name
  pub not_dot : name ≢ codes "."
  pub not_dotdot : name ≢ codes ".."
  pub not_git : name ≢ codes ".git"

-- A name as a directory holds it.
abbrev pub IsComponent : Bytes → Type 0
IsComponent name = (name ≢ []) × All (λ c. c ≢ b'/') name

-- What `readdir` documents: each name that it returns is one component of a path.
abbrev pub ListsComponents : World → Type 0
ListsComponents world =
    (disk : Bytes) (names : List Bytes) (broken : Bool)
    → world.open_dir disk ≡ some (names, broken)
    → All IsComponent names

special_names :
    (is_special (codes ".") ≡ true)
    × (is_special (codes "..") ≡ true)
    × (is_special (codes ".git") ≡ true)
unfolding is_special same_text
special_names = (refl, refl, refl)

special_name : (name : Bytes) → is_special name ≡ false → IsComponent name → IsPlainName name
special_name name special (nonempty, no_slash) = record {
  nonempty = nonempty;
  no_slash = no_slash;
  not_dot = λ e. absurd (ground (arith, ap is_special e, special_names.0));
  not_dotdot = λ e. absurd (ground (arith, ap is_special e, special_names.1));
  not_git = λ e. absurd (ground (arith, ap is_special e, special_names.2));
}

module _ (world : World) where
  -- A plain name that is among those of a directory.
  pub record IsChild (disk name : Bytes) : Type 0 where
    pub before : List Bytes
    pub after : List Bytes
    pub broken : Bool
    pub lists : world.open_dir disk ≡ some (before ++ name ∷ after, broken)
    pub plain : IsPlainName name

  -- An entry for a regular file that names lead to from a directory through directories, with the
  -- digest of its whole content.
  pub data IsFile : Bytes → Bytes → FileEntry → Type 0 where
    here :
        (disk rel name : Bytes) (st : Stat) (pieces : List Bytes)
        → IsChild disk name
        → world.lstat (child_disk disk name) ≡ some st
        → st.kind ≡ regular
        → world.read_file (child_disk disk name) ≡ some pieces
        → IsFile disk rel (record {
          rel_path = child_rel rel name;
          hex = hex_text (sha256 (joined_pieces pieces));
        })
    below :
        (disk rel name : Bytes) (st : Stat) (entry : FileEntry)
        → IsChild disk name
        → world.lstat (child_disk disk name) ≡ some st
        → st.kind ≡ directory
        → IsFile (child_disk disk name) (child_rel rel name) entry
        → IsFile disk rel entry

  -- A name among those of a directory, special or not.
  pub record IsListed (disk name : Bytes) : Type 0 where
    pub before : List Bytes
    pub after : List Bytes
    pub broken : Bool
    pub lists : world.open_dir disk ≡ some (before ++ name ∷ after, broken)
    pub component : IsComponent name

  listed-IsChild :
      {disk name : Bytes} → IsListed disk name → is_special name ≡ false → IsChild disk name
  listed-IsChild {disk} {name} l special = record {
    before = l.before;
    after = l.after;
    broken = l.broken;
    lists = l.lists;
    plain = special_name name special l.component;
  }

  pub all-IsListed :
      (disk : Bytes) (broken : Bool) (before names : List Bytes)
      → world.open_dir disk ≡ some (before ++ names, broken)
      → All IsComponent names
      → All (IsListed disk) names
  all-IsListed disk broken before [] lists components = tt
  all-IsListed disk broken before (name ∷ names) lists components = (
    record {
      before = before;
      after = names;
      broken = broken;
      lists = lists;
      component = components.0;
    },
    all-IsListed disk broken (before ++ name ∷ []) names
        (lists ∙ ap (λ t. some (t, broken)) (sym (append_assoc before (name ∷ []) names)))
        components.1,
  )

  record Hashed (path hex : Bytes) : Type 0 where
    pieces : List Bytes
    is_read : world.read_file path ≡ some pieces
    is_digest : hex ≡ hex_text (sha256 (joined_pieces pieces))

  hash_file_sha256-some :
      (path hex : Bytes) → hash_file_sha256 world path ≡ some hex → Hashed path hex
  unfolding hash_file_sha256 hash_pieces
  hash_file_sha256-some path hex = go (world.read_file path) refl
    where
      go :
          (o : Option (List Bytes))
          → world.read_file path ≡ o
          → hash_pieces o ≡ some hex
          → Hashed path hex
      go none f e = absurd (ground arith)
      go (some pieces) f e = record {
        pieces = pieces;
        is_read = f;
        is_digest =
            sym (
              some_inj (hex_text (sha256_final (update_all pieces (sha256_init (zeros 64))))) hex e)
            ∙ ap hex_text (sha256_final-update_all pieces (zeros 64) refl);
      }

module _ (fnmatch : Bytes → Bytes → Bool → Bool) (world : World) where
  module _ (disk rel name : Bytes) (st : Stat) (child : IsChild world disk name)
      (answers : world.lstat (child_disk disk name) ≡ some st) where
    abbrev new_entry : Bytes → FileEntry
    new_entry hex = record { rel_path = child_rel rel name; hex = hex }

    new_entry-IsFile :
        (hex : Bytes)
        → st.kind ≡ regular
        → Hashed world (child_disk disk name) hex
        → IsFile world disk rel (new_entry hex)
    new_entry-IsFile hex is_regular h =
        subst (λ t. IsFile world disk rel (new_entry t)) (sym h.is_digest)
          (here disk rel name st h.pieces child answers is_regular h.is_read)

    Keeps-visit_file :
        (ctx after : TreehashContext)
        → st.kind ≡ regular
        → visit_file fnmatch world (child_disk disk name) (child_rel rel name) ctx ≡ walked after
        → Keeps (IsFile world disk rel) ctx after
    unfolding visit_file
    Keeps-visit_file ctx after is_regular e =
        Keeps-skip_if (is_path_ignored fnmatch ctx.rules (child_rel rel name) false) ctx after _ e
          (λ seen f.
            let hashed =
              given (hash_file_sha256 world (child_disk disk name))
                (cannot_read (child_disk disk name)) _ after f in
            let added =
              given (add_file_entry ctx.entries (new_entry hashed.value) ctx.memory) out_of_memory _
                after hashed.goes_on in
            subst (λ c. Keeps (IsFile world disk rel) ctx c)
              (walked_inj (record ctx { entries = added.value.0; memory = added.value.1 }) after
                added.goes_on)
              (record {
                same_rules = refl;
                same_ancestors = refl;
                found = new_entry hashed.value ∷ [];
                entries_added =
                    add_file_entry_items ctx.entries (new_entry hashed.value) ctx.memory added.value
                      added.is_given;
                all_new = (
                  new_entry-IsFile hashed.value is_regular (
                      hash_file_sha256-some world (child_disk disk name) hashed.value
                        hashed.is_given),
                  tt,
                );
              }))

  -- What the walk one level below is known to do.
  abbrev pub Recurses : (Bytes → Bytes → TreehashContext → Walked) → ℕ → Type 0
  Recurses recurse depth =
      (disk rel : Bytes) (ctx after : TreehashContext)
      → AreOuter (suc depth) ctx.rules.items
      → recurse disk rel ctx ≡ walked after
      → Keeps (IsFile world disk rel) ctx after

  module _ (recurse : Bytes → Bytes → TreehashContext → Walked) (depth : ℕ)
      (recurses : Recurses recurse depth) (disk rel : Bytes) where
    Keeps-visit_kind :
        (name : Bytes) (st : Stat) (kind : Kind) (ctx after : TreehashContext)
        → IsChild world disk name
        → world.lstat (child_disk disk name) ≡ some st
        → st.kind ≡ kind
        → AreOuter (suc depth) ctx.rules.items
        → visit_kind fnmatch world kind recurse (child_disk disk name) (child_rel rel name) ctx
          ≡ walked after
        → Keeps (IsFile world disk rel) ctx after
    unfolding visit_kind
    Keeps-visit_kind name st directory ctx after child answers k outer e =
        Keeps-skip_if (is_path_ignored fnmatch ctx.rules (child_rel rel name) true) ctx after _ e
          (λ seen f.
            Keeps-weaken (λ entry file. below disk rel name st entry child answers k file)
              (recurses (child_disk disk name) (child_rel rel name) ctx after outer f))
    Keeps-visit_kind name st regular ctx after child answers k outer e =
        Keeps-visit_file disk rel name st child answers ctx after k e
    Keeps-visit_kind name st link ctx after child answers k outer e =
        subst (λ c. Keeps (IsFile world disk rel) ctx c) (walked_inj ctx after e) (Keeps-refl ctx)
    Keeps-visit_kind name st other_kind ctx after child answers k outer e =
        subst (λ c. Keeps (IsFile world disk rel) ctx c) (walked_inj ctx after e) (Keeps-refl ctx)

    pub Keeps-visit_name :
        (name : Bytes) (ctx after : TreehashContext)
        → IsListed world disk name
        → AreOuter (suc depth) ctx.rules.items
        → visit_name fnmatch world recurse disk rel name ctx ≡ walked after
        → Keeps (IsFile world disk rel) ctx after
    unfolding visit_name
    Keeps-visit_name name ctx after listed outer e =
        Keeps-skip_if (is_special name) ctx after _ e (λ special f.
          let short =
            not_failed (leb path_max (length (child_disk disk name))) path_length_exceeded _ after
              f in
          let shorter =
            not_failed (leb path_max (length (child_rel rel name))) path_length_exceeded _ after
              short in
          let g =
            given (world.lstat (child_disk disk name)) (cannot_access (child_disk disk name)) _
              after shorter in
          Keeps-visit_kind name g.value g.value.kind ctx after (listed-IsChild world listed special)
            g.is_given refl outer g.goes_on)

    pub Keeps-visit_names :
        (names : List Bytes) (ctx after : TreehashContext)
        → All (IsListed world disk) names
        → AreOuter (suc depth) ctx.rules.items
        → visit_names fnmatch world recurse disk rel names ctx ≡ walked after
        → Keeps (IsFile world disk rel) ctx after
    unfolding visit_names
    Keeps-visit_names [] ctx after listed outer e =
        subst (λ c. Keeps (IsFile world disk rel) ctx c) (walked_inj ctx after e) (Keeps-refl ctx)
    Keeps-visit_names (name ∷ names) ctx after listed outer e =
        let c = chained (visit_name fnmatch world recurse disk rel name ctx) _ after e in
        let first = Keeps-visit_name name ctx c.middle listed.0 outer c.before_it in
        Keeps-trans first (
          Keeps-visit_names names c.middle after listed.1
            (subst (AreOuter (suc depth)) (sym first.same_rules) outer) c.after_it)
