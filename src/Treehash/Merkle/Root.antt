-- ===== src/Treehash/Merkle/Root.antt =====
-- The root and the trees over the entries.
use linux_utilities.Common.{
  ℕ, zero, suc, ◌≤◌, ◌≡◌, refl, sym, ap, ◌∙◌, List, [], ◌∷◌, ◌++◌, Option, none, some, length, map,
  append_assoc, append-nil, subst, arith, Bytes,
}
use linux_utilities.Common.Memory.{Memory, allocate}
use linux_utilities.Treehash.Merkle.{
  FileEntry, hex_text, compute_leaf_digest, pair_digest, next_level, Reduced, root, out_of_memory,
  reduce_loop, compute_merkle_root, empty_root, in_hex,
}

-- A binary tree with digests at its leaves.
pub data Tree : Type 0 where
  leaf : Bytes → Tree
  node : Tree → Tree → Tree

unfoldable pub hash : Tree → Bytes
hash (leaf digest) = digest
hash (node l r) = pair_digest (hash l) (hash r)

unfoldable pub leaves : Tree → List Bytes
leaves (leaf digest) = digest ∷ []
leaves (node l r) = leaves l ++ leaves r

all_leaves : List Tree → List Bytes
unfolding leaves
all_leaves [] = []
all_leaves (t ∷ ts) = leaves t ++ all_leaves ts

-- One level, on trees.
next_trees : List Tree → List Tree
next_trees (l ∷ r ∷ rest) = node l r ∷ next_trees rest
next_trees ts = ts

map-next_trees : (ts : List Tree) → map hash (next_trees ts) ≡ next_level (map hash ts)
unfolding next_trees next_level hash
map-next_trees [] = refl
map-next_trees (t ∷ []) = refl
map-next_trees (l ∷ r ∷ rest) = ap (λ t. pair_digest (hash l) (hash r) ∷ t) (map-next_trees rest)

all_leaves-next_trees : (ts : List Tree) → all_leaves (next_trees ts) ≡ all_leaves ts
unfolding next_trees all_leaves leaves
all_leaves-next_trees [] = refl
all_leaves-next_trees (t ∷ []) = refl
all_leaves-next_trees (l ∷ r ∷ rest) =
    ap (λ t. (leaves l ++ leaves r) ++ t) (all_leaves-next_trees rest)
    ∙ append_assoc (leaves l) (leaves r) (all_leaves rest)

length-next_trees : (ts : List Tree) → length (next_trees ts) ≤ length ts
unfolding next_trees
length-next_trees [] = omega arith
length-next_trees (t ∷ []) = omega arith
length-next_trees (l ∷ r ∷ rest) = omega (arith, length-next_trees rest)

-- A tree in which every leaf is at the same depth.
pub data IsPerfect : ℕ → Tree → Type 0 where
  one_leaf : (d : Bytes) → IsPerfect 0 (leaf d)
  pair_of : {k : ℕ} {l r : Tree} → IsPerfect k l → IsPerfect k r → IsPerfect (suc k) (node l r)

-- On the left of every node a perfect tree, at least as high as what is on its right: a number of
-- leaves has one tree of this shape.
pub data IsPacked : ℕ → Tree → Type 0 where
  perfect : {k : ℕ} {t : Tree} → IsPerfect k t → IsPacked k t
  beside :
      {k j : ℕ} {l r : Tree} → IsPerfect k l → IsPacked j r → j ≤ k → IsPacked (suc k) (node l r)

-- The trees of one level: all perfect of one height, but the last.
data IsLevel (k : ℕ) : List Tree → Type 0 where
  last : {j : ℕ} {t : Tree} → IsPacked j t → j ≤ k → IsLevel k (t ∷ [])
  more : {t : Tree} {ts : List Tree} → IsPerfect k t → IsLevel k ts → IsLevel k (t ∷ ts)

next_trees-IsLevel : {k : ℕ} {ts : List Tree} → IsLevel k ts → IsLevel (suc k) (next_trees ts)
unfolding next_trees
next_trees-IsLevel (last p low) = last p (omega arith)
next_trees-IsLevel (more p (last q low)) = last (beside p q low) (omega arith)
next_trees-IsLevel (more p (more q level)) = more (pair_of p q) (next_trees-IsLevel level)

leaf_trees : (d : Bytes) (ds : List Bytes) → IsLevel 0 (map leaf (d ∷ ds))
leaf_trees d [] = last (perfect (one_leaf d)) (omega arith)
leaf_trees d (e ∷ ds) = more (one_leaf d) (leaf_trees e ds)

all_leaves-leaf : (ds : List Bytes) → all_leaves (map leaf ds) ≡ ds
unfolding all_leaves leaves
all_leaves-leaf [] = refl
all_leaves-leaf (d ∷ ds) = ap (λ t. d ∷ t) (all_leaves-leaf ds)

map-hash-leaf : (ds : List Bytes) → map hash (map leaf ds) ≡ ds
unfolding hash
map-hash-leaf [] = refl
map-hash-leaf (d ∷ ds) = ap (λ t. d ∷ t) (map-hash-leaf ds)

length-map-leaf : (ds : List Bytes) → length (map leaf ds) ≡ length ds
length-map-leaf [] = refl
length-map-leaf (d ∷ ds) = ap suc (length-map-leaf ds)

length-map-leaf_digest :
    (entries : List FileEntry) → length (map compute_leaf_digest entries) ≡ length entries
length-map-leaf_digest [] = refl
length-map-leaf_digest (e ∷ entries) = ap suc (length-map-leaf_digest entries)

-- The end of a reduction: a packed tree over the leaves, or no memory.
data Reduces (digests : List Bytes) : Reduced → Type 0 where
  to_root :
      (k : ℕ) (t : Tree) (d : Bytes)
      → IsPacked k t
      → leaves t ≡ digests
      → d ≡ hash t
      → Reduces digests (root d)
  no_memory : Reduces digests out_of_memory

length-next_trees_pair :
    (a b : Tree) (rest : List Tree) → length (next_trees (a ∷ b ∷ rest)) ≤ suc (length rest)
unfolding next_trees
length-next_trees_pair a b rest = omega (arith, length-next_trees rest)

reduce_loop-Reduces :
    (fuel k : ℕ) (memory : Memory) (ts : List Tree) (digests : List Bytes)
    → IsLevel k ts
    → all_leaves ts ≡ digests
    → length ts ≤ suc fuel
    → Reduces digests (reduce_loop fuel memory (map hash ts))
unfolding reduce_loop all_leaves
reduce_loop-Reduces fuel k memory [] digests level e enough = elim level [ ]
reduce_loop-Reduces fuel k memory (t ∷ []) digests (last {j} p low) e enough =
    to_root j t (hash t) p (sym (append-nil (leaves t)) ∙ e) refl
reduce_loop-Reduces fuel k memory (t ∷ []) digests (more _ none_left) e enough = elim none_left [ ]
reduce_loop-Reduces zero k memory (a ∷ b ∷ rest) digests level e enough = absurd (omega arith)
reduce_loop-Reduces (suc fuel) k memory (a ∷ b ∷ rest) digests level e enough =
    go (allocate memory) refl (λ left.
      subst (λ hashes. Reduces digests (reduce_loop fuel left hashes))
        (map-next_trees (a ∷ b ∷ rest))
        (reduce_loop-Reduces fuel (suc k) left (next_trees (a ∷ b ∷ rest)) digests
          (next_trees-IsLevel level) (all_leaves-next_trees (a ∷ b ∷ rest) ∙ e)
          (omega (arith, length-next_trees_pair a b rest))))
  where
    go :
        (o : Option Memory)
        → allocate memory ≡ o
        → ((left : Memory)
            → Reduces digests (reduce_loop fuel left (next_level (map hash (a ∷ b ∷ rest)))))
        → Reduces digests (reduce_loop (suc fuel) memory (map hash (a ∷ b ∷ rest)))
    go none got above = rw (got, reduce_loop) no_memory
    go (some left) got above = rw (got, reduce_loop) (above left)

-- What is printed for the entries.
pub data IsRootOf (entries : List FileEntry) : Reduced → Type 0 where
  of_nothing : entries ≡ [] → IsRootOf entries (root empty_root)
  of_tree :
      (k : ℕ) (t : Tree) (text : Bytes)
      → IsPacked k t
      → leaves t ≡ map compute_leaf_digest entries
      → text ≡ hex_text (hash t)
      → IsRootOf entries (root text)
  not_known : IsRootOf entries out_of_memory

in_hex-IsRootOf :
    (entries : List FileEntry) (r : Reduced)
    → Reduces (map compute_leaf_digest entries) r
    → IsRootOf entries (in_hex r)
in_hex-IsRootOf entries r (to_root k t d p e h) = of_tree k t (hex_text d) p e (ap hex_text h)
in_hex-IsRootOf entries r no_memory = not_known

reduce_all :
    (left : Memory) (e : FileEntry) (entries : List FileEntry)
    → Reduces
        (map compute_leaf_digest (e ∷ entries))
        (reduce_loop (length (e ∷ entries)) left (map compute_leaf_digest (e ∷ entries)))
reduce_all left e entries =
    subst
      (λ hashes.
        Reduces (map compute_leaf_digest (e ∷ entries))
          (reduce_loop (length (e ∷ entries)) left hashes))
      (map-hash-leaf (map compute_leaf_digest (e ∷ entries)))
      (reduce_loop-Reduces (length (e ∷ entries)) 0 left
        (map leaf (map compute_leaf_digest (e ∷ entries))) (map compute_leaf_digest (e ∷ entries))
        (leaf_trees (compute_leaf_digest e) (map compute_leaf_digest entries))
        (all_leaves-leaf (map compute_leaf_digest (e ∷ entries)))
        (omega (
          arith,
          length-map-leaf (map compute_leaf_digest (e ∷ entries)),
          length-map-leaf_digest (e ∷ entries),
        )))

-- Whatever the memory and the entries, the computation ends, and unless memory runs out what it
-- returns is the constant for no entries, else the hex text of the hash of a binary tree whose leaves
-- are the leaf digests of the entries, in their order, with on the left of every node a perfect tree
-- at least as high as what is on its right.
pub compute_merkle_root-IsRootOf :
    (memory : Memory) (entries : List FileEntry)
    → IsRootOf entries (compute_merkle_root memory entries)
unfolding compute_merkle_root
compute_merkle_root-IsRootOf memory [] = of_nothing refl
compute_merkle_root-IsRootOf memory (e ∷ entries) = go (allocate memory) refl
  where
    go :
        (o : Option Memory)
        → allocate memory ≡ o
        → IsRootOf (e ∷ entries) (compute_merkle_root memory (e ∷ entries))
    go none got = rw (got, compute_merkle_root) not_known
    go (some left) got =
        rw (got, compute_merkle_root)
          (in_hex-IsRootOf (e ∷ entries)
            (reduce_loop (length (e ∷ entries)) left (map compute_leaf_digest (e ∷ entries)))
            (reduce_all left e entries))
