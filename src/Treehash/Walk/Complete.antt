-- ===== src/Treehash/Walk/Complete.antt =====
-- The files that a walk reaches, where no rule matches.
use linux_utilities.Common.{ℕ, suc, ◌≡◌, Bool, false, List, ◌∷◌, ◌++◌, Bytes}
use linux_utilities.Treehash.Ignore.Popping.{AreOuter}
use linux_utilities.Treehash.Merkle.{FileEntry}
use linux_utilities.Treehash.Walk.{World, TreehashContext, Walked, walked, visit_name}
use linux_utilities.Treehash.Walk.Visits.{IsFile, IsChild}

-- An entry among others.
pub record IsAmong (e : FileEntry) (items : List FileEntry) : Type 0 where
  pub before : List FileEntry
  pub rest : List FileEntry
  pub split : items ≡ before ++ e ∷ rest

-- No pattern matches anything.
abbrev pub NeverMatches : (Bytes → Bytes → Bool → Bool) → Type 0
NeverMatches fnmatch =
    (pattern text : Bytes) (pathname : Bool) → fnmatch pattern text pathname ≡ false

module _ (fnmatch : Bytes → Bytes → Bool → Bool) (never : NeverMatches fnmatch)
    (world : World) where
  -- What the walk one level below is known to reach.
  abbrev Reaches : (Bytes → Bytes → TreehashContext → Walked) → ℕ → Type 0
  Reaches recurse depth =
      (disk rel : Bytes) (e : FileEntry) (ctx after : TreehashContext)
      → AreOuter (suc depth) ctx.rules.items
      → IsFile world disk rel e
      → recurse disk rel ctx ≡ walked after
      → IsAmong e after.entries.items

  -- A name whose round adds the entry.
  record HasRound (recurse : Bytes → Bytes → TreehashContext → Walked) (depth : ℕ)
      (disk rel : Bytes) (e : FileEntry) : Type 0 where
    name : Bytes
    child : IsChild world disk name
    adds :
        (ctx after : TreehashContext)
        → AreOuter (suc depth) ctx.rules.items
        → visit_name fnmatch world recurse disk rel name ctx ≡ walked after
        → IsAmong e after.entries.items
