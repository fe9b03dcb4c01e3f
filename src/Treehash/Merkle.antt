-- ===== src/Treehash/Merkle.antt =====
-- src/treehash.c: the digests of the entries and their reduction to one root.
pub mod Root
use linux_utilities.Common.{
  ℕ, zero, suc, ◌+◌, ◌*◌, ◌/◌, ◌%◌, Bool, true, false, List, [], ◌∷◌, ◌++◌, Option, none, some,
  if◌then◌else◌, ltb, length, map, Bytes,
}
use linux_utilities.Common.Memory.{Memory, allocate}
use linux_utilities.Common.Text.{codes}
use linux_utilities.Treehash.Sha256.{sha256_init, sha256_update, sha256_final, zeros}

pub record FileEntry : Type 0 where
  pub rel_path : Bytes
  pub hex : Bytes

-- `%02x`
abbrev pub hex_nibble : ℕ → ℕ
hex_nibble d = if ltb d 10 then 48 + d else 87 + d

unfoldable pub hex_text : Bytes → Bytes
hex_text [] = []
hex_text (b ∷ bytes) = hex_nibble (b / 16) ∷ hex_nibble (b % 16) ∷ hex_text bytes

unfoldable pub compute_leaf_digest : FileEntry → Bytes
compute_leaf_digest entry = sha256_final (
    sha256_update (b'\n' ∷ []) (
      sha256_update entry.rel_path
        (sha256_update (codes "  ") (sha256_update entry.hex (sha256_init (zeros 64))))))

-- Two digests of one level.
unfoldable pub pair_digest : Bytes → Bytes → Bytes
pair_digest left right =
    sha256_final (sha256_update right (sha256_update left (sha256_init (zeros 64))))

-- The `for` over one level; an odd digest at the end goes up as it is.
unfoldable pub next_level : List Bytes → List Bytes
next_level (left ∷ right ∷ rest) = pair_digest left right ∷ next_level rest
next_level current = current

-- What the `while` returns.
pub data Reduced : Type 0 where
  root : Bytes → Reduced
  out_of_memory out_of_fuel : Reduced

-- The `while (count > 1)`. A level has half the digests of the one before, so their number is fuel
-- enough. The test against `SIZE_MAX / 32` cannot fail for what is in memory.
unfoldable pub reduce_loop : ℕ → Memory → List Bytes → Reduced
reduce_loop fuel memory [] = out_of_fuel
reduce_loop fuel memory (digest ∷ []) = root digest
reduce_loop zero memory (a ∷ b ∷ rest) = out_of_fuel
reduce_loop (suc fuel) memory (a ∷ b ∷ rest) = elim (allocate memory) [
  | none ↦ out_of_memory
  | some left ↦ reduce_loop fuel left (next_level (a ∷ b ∷ rest))
]

abbrev empty_root : Bytes
empty_root = codes "e3b0c44298fc1c149afbf4c8996fb92427ae41e4649b934ca495991b7852b855"

abbrev in_hex : Reduced → Reduced
in_hex (root digest) = root (hex_text digest)
in_hex r = r

unfoldable pub compute_merkle_root : Memory → List FileEntry → Reduced
compute_merkle_root memory [] = root empty_root
compute_merkle_root memory (e ∷ entries) = elim (allocate memory) [
  | none ↦ out_of_memory
  | some left ↦
      in_hex (reduce_loop (length (e ∷ entries)) left (map compute_leaf_digest (e ∷ entries)))
]
