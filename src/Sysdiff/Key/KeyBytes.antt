-- ===== src/Sysdiff/Key/KeyBytes.antt =====
-- The bytes of a valid key.
use linux_utilities.Common.{
  ℕ, ◌≡◌, ◌≢◌, Bool, true, false, ◌||◌, [], ◌∷◌, ◌++◌, ◌==◌, All, arith, Bytes,
}
use linux_utilities.Sysdiff.Key.{
  is_key_byte, key_loop, is_valid_key, is_blank_line, is_comment_line, ends_with,
}

pub key_loop-All :
    (prev saw : Bool) (key : Bytes)
    → key_loop prev saw key ≡ true
    → All (λ c. is_key_byte c ≡ true) key
unfolding key_loop
key_loop-All prev saw [] h = tt
key_loop-All prev saw (c ∷ key) h =
    (ground arith, key_loop-All (c == b'.') (saw || c == b'.') key (ground arith))

pub is_valid_key-All : (key : Bytes) → is_valid_key key ≡ true → All (λ c. is_key_byte c ≡ true) key
unfolding is_valid_key
is_valid_key-All key h = key_loop-All false false key (ground arith)

-- A key byte is none of the bytes with a meaning of their own.
pub is_key_byte-ne :
    (c : ℕ)
    → is_key_byte c ≡ true
    → (c ≢ b'=') × (c ≢ 0) × (c ≢ b'\n') × (c ≢ b' ') × (c ≢ b'\t') × (c ≢ b'#') × (c ≢ b'>')
unfolding is_key_byte
is_key_byte-ne c h = (
  ground arith,
  ground arith,
  ground arith,
  ground arith,
  ground arith,
  ground arith,
  ground arith,
)

pub All-imp : (P Q : ℕ → Type 0) (xs : Bytes) → ((c : ℕ) → P c → Q c) → All P xs → All Q xs
All-imp P Q [] f h = tt
All-imp P Q (c ∷ xs) f h = (f c h.0, All-imp P Q xs f h.1)

-- A line that begins with a valid key is a record: neither blank nor a comment.
pub is_valid_key-real :
    (key rest : Bytes)
    → is_valid_key key ≡ true
    → (is_blank_line (key ++ rest) || is_comment_line (key ++ rest)) ≡ false
unfolding is_valid_key is_blank_line is_comment_line
is_valid_key-real [] rest h = absurd (ground arith)
is_valid_key-real (c ∷ key) rest h =
    let first = is_key_byte-ne c (is_valid_key-All (c ∷ key) h).0 in ground (arith, first)

pub ends_with-concat : (c : ℕ) (xs : Bytes) → ends_with c (xs ++ c ∷ []) ≡ true
unfolding ends_with
ends_with-concat c [] = ground arith
ends_with-concat c (x ∷ []) = ground arith
ends_with-concat c (x ∷ y ∷ xs) = ends_with-concat c (y ∷ xs)
