-- ===== src/Treehash/Sha256.antt =====
-- src/treehash.c: the embedded SHA-256. A `uint32_t` is a number below 2 ^ 32.
pub mod Final
pub mod Stream
use Prim.Native.Nat.{bit_and, bit_or, bit_xor}
use linux_utilities.Common.{
  ℕ, zero, suc, ◌+◌, ◌-◌, ◌*◌, ◌/◌, ◌%◌, ◌^◌, List, [], ◌∷◌, ◌++◌, if◌then◌else◌, ltb, leb, length,
  take, drop, Bytes,
}

abbrev k_table : List ℕ
k_table =
    0x428a2f98 ∷ 0x71374491 ∷ 0xb5c0fbcf ∷ 0xe9b5dba5 ∷ 0x3956c25b ∷ 0x59f111f1 ∷ 0x923f82a4
    ∷ 0xab1c5ed5 ∷ 0xd807aa98 ∷ 0x12835b01 ∷ 0x243185be ∷ 0x550c7dc3 ∷ 0x72be5d74 ∷ 0x80deb1fe
    ∷ 0x9bdc06a7 ∷ 0xc19bf174 ∷ 0xe49b69c1 ∷ 0xefbe4786 ∷ 0x0fc19dc6 ∷ 0x240ca1cc ∷ 0x2de92c6f
    ∷ 0x4a7484aa ∷ 0x5cb0a9dc ∷ 0x76f988da ∷ 0x983e5152 ∷ 0xa831c66d ∷ 0xb00327c8 ∷ 0xbf597fc7
    ∷ 0xc6e00bf3 ∷ 0xd5a79147 ∷ 0x06ca6351 ∷ 0x14292967 ∷ 0x27b70a85 ∷ 0x2e1b2138 ∷ 0x4d2c6dfc
    ∷ 0x53380d13 ∷ 0x650a7354 ∷ 0x766a0abb ∷ 0x81c2c92e ∷ 0x92722c85 ∷ 0xa2bfe8a1 ∷ 0xa81a664b
    ∷ 0xc24b8b70 ∷ 0xc76c51a3 ∷ 0xd192e819 ∷ 0xd6990624 ∷ 0xf40e3585 ∷ 0x106aa070 ∷ 0x19a4c116
    ∷ 0x1e376c08 ∷ 0x2748774c ∷ 0x34b0bcb5 ∷ 0x391c0cb3 ∷ 0x4ed8aa4a ∷ 0x5b9cca4f ∷ 0x682e6ff3
    ∷ 0x748f82ee ∷ 0x78a5636f ∷ 0x84c87814 ∷ 0x8cc70208 ∷ 0x90befffa ∷ 0xa4506ceb ∷ 0xbef9a3f7
    ∷ 0xc67178f2 ∷ []

abbrev pub word : ℕ → ℕ
word n = n % 2 ^ 32

abbrev rotr : ℕ → ℕ → ℕ
rotr x n = bit_or (x / 2 ^ n) (word (x * 2 ^ (32 - n)))

abbrev ch : ℕ → ℕ → ℕ → ℕ
ch x y z = bit_xor (bit_and x y) (bit_and (2 ^ 32 - 1 - x) z)

abbrev maj : ℕ → ℕ → ℕ → ℕ
maj x y z = bit_xor (bit_xor (bit_and x y) (bit_and x z)) (bit_and y z)

abbrev ep0 : ℕ → ℕ
ep0 x = bit_xor (bit_xor (rotr x 2) (rotr x 13)) (rotr x 22)

abbrev ep1 : ℕ → ℕ
ep1 x = bit_xor (bit_xor (rotr x 6) (rotr x 11)) (rotr x 25)

abbrev sig0 : ℕ → ℕ
sig0 x = bit_xor (bit_xor (rotr x 7) (rotr x 18)) (x / 2 ^ 3)

abbrev sig1 : ℕ → ℕ
sig1 x = bit_xor (bit_xor (rotr x 17) (rotr x 19)) (x / 2 ^ 10)

-- The eight words of `state`, and the variables of a round.
pub record Words : Type 0 where
  pub a : ℕ
  pub b : ℕ
  pub c : ℕ
  pub d : ℕ
  pub e : ℕ
  pub f : ℕ
  pub g : ℕ
  pub h : ℕ

-- The first sixteen words of `m`.
big_endian_words : Bytes → List ℕ
big_endian_words (b0 ∷ b1 ∷ b2 ∷ b3 ∷ rest) =
    bit_or (bit_or (bit_or (b0 * 2 ^ 24) (b1 * 2 ^ 16)) (b2 * 2 ^ 8)) b3 ∷ big_endian_words rest
big_endian_words _ = []

abbrev word_at : List ℕ → ℕ → ℕ
word_at [] i = 0
word_at (w ∷ ws) zero = w
word_at (w ∷ ws) (suc i) = word_at ws i

-- The other words, one for each round of the loop.
schedule : ℕ → List ℕ → List ℕ
schedule zero m = m
schedule (suc rounds) m =
    let i = length m in
    schedule rounds (
      m
      ++ word (
          sig1 (word_at m (i - 2))
          + word_at m (i - 7)
          + sig0 (word_at m (i - 15))
          + word_at m (i - 16))
        ∷ [])

one_round : Words → ℕ → ℕ → Words
one_round v k m =
    let t1 = word (v.h + ep1 v.e + ch v.e v.f v.g + k + m) in
    let t2 = word (ep0 v.a + maj v.a v.b v.c) in
    record {
      a = word (t1 + t2);
      b = v.a;
      c = v.b;
      d = v.c;
      e = word (v.d + t1);
      f = v.e;
      g = v.f;
      h = v.g;
    }

all_rounds : List ℕ → List ℕ → Words → Words
all_rounds (k ∷ ks) (m ∷ ms) v = all_rounds ks ms (one_round v k m)
all_rounds _ _ v = v

unfoldable pub sha256_transform : Words → Bytes → Words
unfolding big_endian_words schedule one_round all_rounds
sha256_transform state block =
    let v = all_rounds k_table (schedule 48 (big_endian_words block)) state in
    record {
      a = word (state.a + v.a);
      b = word (state.b + v.b);
      c = word (state.c + v.c);
      d = word (state.d + v.d);
      e = word (state.e + v.e);
      f = word (state.f + v.f);
      g = word (state.g + v.g);
      h = word (state.h + v.h);
    }

-- `SHA256_CTX`; `buffer` has 64 bytes.
pub record Context : Type 0 where
  pub state : Words
  pub count : ℕ
  pub buffer : Bytes

abbrev pub initial_words : Words
initial_words = record {
  a = 0x6a09e667;
  b = 0xbb67ae85;
  c = 0x3c6ef372;
  d = 0xa54ff53a;
  e = 0x510e527f;
  f = 0x9b05688c;
  g = 0x1f83d9ab;
  h = 0x5be0cd19;
}

-- The buffer is left as it is.
unfoldable pub sha256_init : Bytes → Context
sha256_init buffer = record { state = initial_words; count = 0; buffer = buffer }

-- `memcpy(&buffer[at], bytes, ...)`
abbrev pub copy_to : ℕ → Bytes → Bytes → Bytes
copy_to at bytes buffer = take at buffer ++ (bytes ++ drop (at + length bytes) buffer)

-- What the `while` leaves: the state and the bytes that do not fill a block.
pub record Absorbed : Type 0 where
  pub words : Words
  pub rest : Bytes

-- The `while (len >= 64)`. Each round takes 64 bytes, so the number of bytes is fuel enough.
unfoldable pub block_loop : ℕ → Words → Bytes → Absorbed
block_loop zero state p = record { words = state; rest = p }
block_loop (suc fuel) state p =
    let more = block_loop fuel (sha256_transform state (take 64 p)) (drop 64 p) in
    if leb 64 (length p) then more else record { words = state; rest = p }

-- From the `while` on.
unfoldable pub absorb_blocks : Words → Bytes → Context → Context
absorb_blocks state p ctx =
    let done = block_loop (length p) state p in
    record ctx { state = done.words; buffer = copy_to 0 done.rest ctx.buffer }

unfoldable pub sha256_update : Bytes → Context → Context
sha256_update p ctx =
    let at = ctx.count % 64 in
    let needed = 64 - at in
    let counted = record ctx { count = (ctx.count + length p) % 2 ^ 64 } in
    let filled = copy_to at (take needed p) ctx.buffer in
    if ltb 0 at
    then if ltb (length p) needed
      then record counted { buffer = copy_to at p ctx.buffer }
      else absorb_blocks (sha256_transform ctx.state filled) (drop needed p)
          (record counted { buffer = filled })
    else absorb_blocks ctx.state p counted

abbrev pub zeros : ℕ → Bytes
zeros zero = []
zeros (suc n) = 0 ∷ zeros n

-- The low `n` bytes of a number, the highest first.
abbrev pub big_endian : ℕ → ℕ → Bytes
big_endian zero value = []
big_endian (suc n) value = value / 256 ^ n % 256 ∷ big_endian n value

abbrev pub digest : Words → Bytes
digest w =
    big_endian 4 w.a
    ++ (big_endian 4 w.b
        ++ (big_endian 4 w.c
            ++ (big_endian 4 w.d
                ++ (big_endian 4 w.e
                    ++ (big_endian 4 w.f ++ (big_endian 4 w.g ++ big_endian 4 w.h))))))

-- The state and the buffer before the length is written.
unfoldable pub pad_block : Words → Bytes → ℕ → Absorbed
pad_block state buffer at =
    let marked = copy_to at (0x80 ∷ []) buffer in
    let full = copy_to (at + 1) (zeros (64 - (at + 1))) marked in
    if ltb 56 (at + 1)
    then record { words = sha256_transform state full; rest = copy_to 0 (zeros 56) full }
    else record { words = state; rest = copy_to (at + 1) (zeros (56 - (at + 1))) marked }

unfoldable pub sha256_final : Context → Bytes
unfolding pad_block
sha256_final ctx =
    let total_bits = ctx.count * 8 % 2 ^ 64 in
    let padded = pad_block ctx.state ctx.buffer (ctx.count % 64) in
    digest (sha256_transform padded.words (copy_to 56 (big_endian 8 total_bits) padded.rest))
