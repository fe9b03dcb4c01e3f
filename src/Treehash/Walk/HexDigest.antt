-- ===== src/Treehash/Walk/HexDigest.antt =====
-- The digests of files as text.
use linux_utilities.Common.{
  ℕ, zero, suc, ◌*◌, ◌/◌, ◌%◌, ◌≤◌, ◌<◌, ◌≡◌, ◌⊎◌, inl, inr, refl, ap, subst, List, [], ◌∷◌, ◌++◌,
  All, All-append, Option, none, some, length, ltb, arith, Bytes, Bool-cases, ltb→lt, ltb→le,
}
use linux_utilities.Treehash.Merkle.{hex_text, hex_nibble}
use linux_utilities.Treehash.Sha256.{
  Words, Context, big_endian, digest, sha256_final, sha256_init, zeros,
}
use linux_utilities.Treehash.Sha256.Final.{update_all}
use linux_utilities.Treehash.Walk.{World, hash_pieces, hash_file_sha256}

-- A lowercase hexadecimal digit.
abbrev pub IsHexDigit : ℕ → Type 0
IsHexDigit c = ((48 ≤ c) × (c ≤ 57)) ⊎ ((97 ≤ c) × (c ≤ 102))

pub record IsHexDigest (text : Bytes) : Type 0 where
  pub size : length text ≡ 64
  pub digits : All IsHexDigit text

hex_nibble-IsHexDigit : (d : ℕ) → d < 16 → IsHexDigit (hex_nibble d)
hex_nibble-IsHexDigit d small = elim (Bool-cases (ltb d 10)) [
  | inl t ↦ let h = ltb→lt d 10 t in rw t (inl (omega arith, omega arith))
  | inr f ↦ let h = ltb→le d 10 f in rw f (inr (omega arith, omega arith))
]

abbrev IsByte : ℕ → Type 0
IsByte b = b < 256

length-hex_text : (bytes : Bytes) → length (hex_text bytes) ≡ 2 * length bytes
unfolding hex_text
length-hex_text [] = refl
length-hex_text (b ∷ bytes) = omega (arith, length-hex_text bytes)

hex_text-All : (bytes : Bytes) → All IsByte bytes → All IsHexDigit (hex_text bytes)
unfolding hex_text
hex_text-All [] all = tt
hex_text-All (b ∷ bytes) (small, all) = (
  hex_nibble-IsHexDigit (b / 16) (omega arith),
  (hex_nibble-IsHexDigit (b % 16) (omega arith), hex_text-All bytes all),
)

length-big_endian : (n value : ℕ) → length (big_endian n value) ≡ n
length-big_endian zero value = refl
length-big_endian (suc n) value = ap suc (length-big_endian n value)

big_endian-All : (n value : ℕ) → All IsByte (big_endian n value)
big_endian-All zero value = tt
big_endian-All (suc n) value = (omega arith, big_endian-All n value)

-- 32 bytes.
record IsDigest (bytes : Bytes) : Type 0 where
  size : length bytes ≡ 32
  all_bytes : All IsByte bytes

record AreBytes (bytes : Bytes) : Type 0 where
  are_bytes : All IsByte bytes

big_endian-AreBytes : (w : ℕ) → AreBytes (big_endian 4 w)
big_endian-AreBytes w = record { are_bytes = big_endian-All 4 w }

word-AreBytes : (w : ℕ) {rest : Bytes} → AreBytes rest → AreBytes (big_endian 4 w ++ rest)
word-AreBytes w {rest} all = record {
  are_bytes = All-append IsByte (big_endian 4 w) rest (big_endian-All 4 w) all.are_bytes;
}

digest-AreBytes : (w : Words) → AreBytes (digest w)
digest-AreBytes w = word-AreBytes w.a (
    word-AreBytes w.b (
      word-AreBytes w.c (
        word-AreBytes w.d
          (word-AreBytes w.e (word-AreBytes w.f (word-AreBytes w.g (big_endian-AreBytes w.h)))))))

digest-IsDigest : (w : Words) → IsDigest (digest w)
digest-IsDigest w = record { size = refl; all_bytes = (digest-AreBytes w).are_bytes }

sha256_final-IsDigest : (ctx : Context) → IsDigest (sha256_final ctx)
unfolding sha256_final
sha256_final-IsDigest ctx = digest-IsDigest _

hex_text-IsHexDigest : (bytes : Bytes) → IsDigest bytes → IsHexDigest (hex_text bytes)
hex_text-IsHexDigest bytes d =
    let s = d.size in
    record { size = omega (arith, length-hex_text bytes); digits = hex_text-All bytes d.all_bytes }

hash_pieces-IsHexDigest :
    (o : Option (List Bytes)) (hex : Bytes) → hash_pieces o ≡ some hex → IsHexDigest hex
unfolding hash_pieces
hash_pieces-IsHexDigest none hex e = absurd (ground arith)
hash_pieces-IsHexDigest (some pieces) hex e =
    let same : hex_text (sha256_final (update_all pieces (sha256_init (zeros 64)))) ≡ hex =
      ground arith in
    subst IsHexDigest same (
      hex_text-IsHexDigest (sha256_final (update_all pieces (sha256_init (zeros 64))))
        (sha256_final-IsDigest (update_all pieces (sha256_init (zeros 64)))))

-- If hashing a file succeeds, the text is 64 bytes long, all of them lowercase hexadecimal digits.
pub hash_file_sha256-IsHexDigest :
    (world : World) (path hex : Bytes) → hash_file_sha256 world path ≡ some hex → IsHexDigest hex
unfolding hash_file_sha256
hash_file_sha256-IsHexDigest world path hex e = hash_pieces-IsHexDigest (world.read_file path) hex e
