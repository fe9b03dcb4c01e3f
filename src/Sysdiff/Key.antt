-- ===== src/Sysdiff/Key.antt =====
-- src/sysdiff.c: blank and comment lines, and the syntax of a key. A line is the byte string up to
-- its terminator.
pub mod KeyBytes
pub mod Syntax
use linux_utilities.Common.{
  ℕ, Bool, true, false, not, ◌&&◌, ◌||◌, List, [], ◌∷◌, leb, ◌==◌, if◌then◌else◌, Bytes,
}

-- The `while` that skips blanks.
skip_blanks : Bytes → Bytes
skip_blanks [] = []
skip_blanks (c ∷ line) =
    let rest = skip_blanks line in if c == b' ' || c == b'\t' then rest else c ∷ line

starts_with_hash : Bytes → Bool
starts_with_hash [] = false
starts_with_hash (c ∷ _) = c == b'#'

is_empty : Bytes → Bool
is_empty [] = true
is_empty (c ∷ _) = false

unfoldable pub is_comment_line : Bytes → Bool
unfolding skip_blanks starts_with_hash
is_comment_line line = starts_with_hash (skip_blanks line)

unfoldable pub is_blank_line : Bytes → Bool
unfolding skip_blanks is_empty
is_blank_line line = is_empty (skip_blanks line)

unfoldable pub is_key_byte : ℕ → Bool
is_key_byte ch =
    leb b'A' ch && leb ch b'Z'
    || leb b'a' ch && leb ch b'z'
    || leb b'0' ch && leb ch b'9'
    || ch == b'.'
    || ch == b'_'
    || ch == b'-'
    || ch == b'/'

-- `key[key_len - 1] == c`, for a key that is not empty.
unfoldable pub ends_with : ℕ → Bytes → Bool
ends_with c [] = false
ends_with c (x ∷ []) = x == c
ends_with c (x ∷ y ∷ key) = ends_with c (y ∷ key)

-- `key[0] == c`
unfoldable pub begins_with : ℕ → Bytes → Bool
begins_with c [] = false
begins_with c (x ∷ _) = x == c

-- The `for`: `prev_dot` is `i > 0 && key[i - 1] == '.'`.
unfoldable pub key_loop : Bool → Bool → Bytes → Bool
unfolding is_key_byte
key_loop prev_dot saw_dot [] = saw_dot
key_loop prev_dot saw_dot (ch ∷ key) =
    let rest = key_loop (ch == b'.') (saw_dot || ch == b'.') key in
    if not (is_key_byte ch) then false else if ch == b'.' && prev_dot then false else rest

unfoldable pub is_valid_key : Bytes → Bool
unfolding key_loop is_empty ends_with begins_with
is_valid_key key =
    if is_empty key || begins_with b'/' key || ends_with b'.' key
    then false
    else key_loop false false key
