-- ===== src/Treehash/Walk/Keeping.antt =====
-- What a walk that succeeds leaves behind.
use linux_utilities.Common.{
  [], ℕ, zero, suc, ◌≡◌, refl, ap, sym, ◌∙◌, subst, Bool, true, false, not, ◌∷◌, ◌++◌, arith, Bytes,
  leb, length, any,
}
use linux_utilities.Common.Memory.{Memory}
use linux_utilities.Common.Text.{codes}
use linux_utilities.Treehash.Ignore.{
  IgnoreRuleArray, Loaded, loaded, load_error, load_memory, load_gitignore,
}
use linux_utilities.Treehash.Ignore.Loading.{IsLonger, IsLonger-refl, load_gitignore-IsLonger}
use linux_utilities.Treehash.Ignore.Popping.{AreOuter, pop_rules_longer}
use linux_utilities.Treehash.Walk.{
  World, AncestorNode, TreehashContext, Walked, walked, ◌>>=◌, skip_if, path_max,
  path_length_exceeded, cannot_access, cannot_open_directory, cannot_read_directory, child_disk,
  visit_names, take_rules, load_rules, walk_inside, walk_dir, leave, one_less, is_regular_file,
  same_node, is_kind_directory, not_a_directory, cycle_detected,
}
use linux_utilities.Treehash.Walk.Context.{
  chained, given, not_failed, walked_inj, Keeps, longer_outer,
}
use linux_utilities.Treehash.Walk.Visits.{
  IsFile, ListsComponents, all-IsListed, Recurses, Keeps-visit_names,
}

module _ (fnmatch : Bytes → Bytes → Bool → Bool) (world : World) where
  module _ (recurse : Bytes → Bytes → TreehashContext → Walked) (depth : ℕ)
      (recurses : Recurses fnmatch world recurse depth) (disk rel : Bytes) where
    pub record Loads (depth_here : ℕ) (before after : TreehashContext) : Type 0 where
      pub longer : IsLonger rel depth_here before.rules.items after.rules.items
      pub same_ancestors : after.ancestors ≡ before.ancestors
      pub same_entries : after.entries ≡ before.entries

    Loads-refl : (ctx : TreehashContext) → Loads depth ctx ctx
    Loads-refl ctx = record {
      longer = IsLonger-refl ctx.rules.items;
      same_ancestors = refl;
      same_entries = refl;
    }

    Loads-take_rules :
        (path : Bytes) (l : Loaded) (ctx after : TreehashContext)
        → ((rules : IgnoreRuleArray) (left : Memory)
            → l ≡ loaded rules left
            → IsLonger rel depth ctx.rules.items rules.items)
        → take_rules path l ctx ≡ walked after
        → Loads depth ctx after
    unfolding take_rules
    Loads-take_rules path (loaded rules left) ctx after above e =
        subst (λ c. Loads depth ctx c)
          (walked_inj (record ctx { rules = rules; memory = left }) after e)
          (record { longer = above rules left refl; same_ancestors = refl; same_entries = refl })
    Loads-take_rules path load_error ctx after above e = absurd (ground arith)
    Loads-take_rules path load_memory ctx after above e = absurd (ground arith)

    pub Loads-load_rules :
        (ctx after : TreehashContext)
        → load_rules fnmatch world disk rel depth ctx ≡ walked after
        → Loads depth ctx after
    unfolding load_rules
    Loads-load_rules ctx after e =
        go (not (is_regular_file (world.lstat path)))
          (not_failed (leb path_max (length path)) path_length_exceeded _ after e)
      where
        path : Bytes
        path = child_disk disk (codes ".gitignore")

        go :
            (b : Bool)
            → skip_if b ctx (
                take_rules path
                  (load_gitignore (world.open_lines path) rel depth ctx.rules ctx.memory)
                  ctx)
              ≡ walked after
            → Loads depth ctx after
        go true f = subst (λ c. Loads depth ctx c) (walked_inj ctx after f) (Loads-refl ctx)
        go false f =
            Loads-take_rules path
              (load_gitignore (world.open_lines path) rel depth ctx.rules ctx.memory) ctx after
              (λ rules left g.
                load_gitignore-IsLonger (world.open_lines path) rel depth ctx.rules rules ctx.memory
                  left g)
              f

    Keeps-leave :
        (node : AncestorNode) (ctx ready seen : TreehashContext)
        → AreOuter depth ctx.rules.items
        → Loads depth (record ctx { ancestors = node ∷ ctx.ancestors }) ready
        → Keeps (IsFile world disk rel) ready seen
        → Keeps (IsFile world disk rel) ctx (leave depth seen)
    unfolding leave
    Keeps-leave node ctx ready seen outer loads keeps = record {
      same_rules =
          pop_rules_longer rel depth ctx.rules.items seen.rules outer
            (subst (IsLonger rel depth ctx.rules.items) (sym keeps.same_rules) loads.longer);
      same_ancestors = ap one_less (keeps.same_ancestors ∙ loads.same_ancestors);
      found = keeps.found;
      entries_added = keeps.entries_added ∙ ap (λ t. t.items ++ keeps.found) loads.same_entries;
      all_new = keeps.all_new;
    }

    Keeps-walk_inside :
        (node : AncestorNode) (ctx after : TreehashContext)
        → ListsComponents world
        → AreOuter depth ctx.rules.items
        → walk_inside fnmatch world recurse depth disk rel
            (record ctx { ancestors = node ∷ ctx.ancestors })
          ≡ walked after
        → Keeps (IsFile world disk rel) ctx after
    unfolding walk_inside
    Keeps-walk_inside node ctx after components outer e =
        let listing = given (world.open_dir disk) (cannot_open_directory disk) _ after e in
        let visited =
          chained
            (load_rules fnmatch world disk rel depth pushed
              >>= visit_names fnmatch world recurse disk rel listing.value.0)
            _ after listing.goes_on in
        let ready =
          chained (load_rules fnmatch world disk rel depth pushed) _ visited.middle
            visited.before_it in
        let loads = Loads-load_rules pushed ready.middle ready.before_it in
        let keeps =
          Keeps-visit_names fnmatch world recurse depth recurses disk rel listing.value.0
            ready.middle visited.middle
            (all-IsListed world disk listing.value.1 [] listing.value.0 listing.is_given
              (components disk listing.value.0 listing.value.1 listing.is_given))
            (longer_outer rel depth ctx.rules.items ready.middle.rules.items outer loads.longer)
            ready.after_it in
        subst (λ c. Keeps (IsFile world disk rel) ctx c)
          (walked_inj (leave depth visited.middle) after
            (not_failed listing.value.1 (cannot_read_directory disk) _ after visited.after_it))
          (Keeps-leave node ctx ready.middle visited.middle outer loads keeps)
      where
        pushed : TreehashContext
        pushed = record ctx { ancestors = node ∷ ctx.ancestors }

  -- Where a directory's names are single components of paths, a walk that succeeds, started where
  -- all rules so far are of smaller depth, leaves the rules and the ancestors as it found them and
  -- the entries that were there first. Each entry that it adds is for a regular file that a path of
  -- names leads to from the directory, each name listed in its directory, without a slash, and
  -- neither `.` nor `..` nor `.git`, through directories only, with that path behind the given one
  -- and the SHA-256 of all that is read from the file.
  pub walk_dir-Keeps :
      (fuel depth : ℕ) (disk rel : Bytes) (ctx after : TreehashContext)
      → ListsComponents world
      → AreOuter depth ctx.rules.items
      → walk_dir fnmatch world fuel depth disk rel ctx ≡ walked after
      → Keeps (IsFile world disk rel) ctx after
  unfolding walk_dir
  walk_dir-Keeps zero depth disk rel ctx after components outer e = absurd (ground arith)
  walk_dir-Keeps (suc fuel) depth disk rel ctx after components outer e =
      let st = given (world.lstat disk) (cannot_access disk) _ after e in
      let is_dir =
        not_failed (not (is_kind_directory st.value)) (not_a_directory disk) _ after st.goes_on in
      let no_cycle =
        not_failed (any (same_node st.value) ctx.ancestors) (cycle_detected disk) _ after is_dir in
      Keeps-walk_inside (walk_dir fnmatch world fuel (suc depth)) depth
        (λ d r c a. walk_dir-Keeps fuel (suc depth) d r c a components) disk rel
        (record { dev = st.value.dev; ino = st.value.ino }) ctx after components outer no_cycle
