-- ===== src/Sysdiff/Escape.antt =====
-- src/sysdiff.c: the escaping of untrusted bytes on output.
pub mod Laws
pub mod Shield
use linux_utilities.Common.{
  ℕ, Bool, ◌&&◌, List, [], ◌∷◌, ◌++◌, Option, some, leb, ◌==◌, if◌then◌else◌, Bytes,
}
use linux_utilities.Common.Stdio.{Stream, fputs, fputc, ◌>>=◌}
use linux_utilities.Common.Text.{codes, hex_escape}

-- The body of both loops for one byte.
put_byte : ℕ → Stream → Option Stream
put_byte ch s =
    if ch == b'\\'
    then fputs (codes "\\\\") s
    else if leb 0x20 ch && leb ch 0x7e
    then fputc ch s
    else fputs (hex_escape ch) s

unfoldable pub put_escaped_bytes : Bytes → Stream → Option Stream
unfolding put_byte fputs fputc
put_escaped_bytes [] s = some s
put_escaped_bytes (ch ∷ text) s = put_byte ch s >>= put_escaped_bytes text

-- `strncmp(p, " ->", 3) == 0`
abbrev pub is_arrow : ℕ → ℕ → ℕ → Bool
is_arrow a b c = a == b' ' && b == b'-' && c == b'>'

unfoldable pub put_escaped_value : Bytes → Stream → Option Stream
unfolding put_byte fputs fputc
put_escaped_value [] s = some s
put_escaped_value (a ∷ b ∷ c ∷ rest) s =
    let shielded = fputs (codes " -\\x3E") s >>= put_escaped_value rest in
    let plain = put_byte a s >>= put_escaped_value (b ∷ c ∷ rest) in
    if is_arrow a b c then shielded else plain
put_escaped_value (a ∷ rest) s = put_byte a s >>= put_escaped_value rest
