-- ===== src/Permguard/Quote.antt =====
-- src/permguard.c: the quoting of untrusted bytes.
pub mod Laws
use linux_utilities.Common.{
  ℕ, Bool, ◌&&◌, List, [], ◌∷◌, ◌++◌, Option, some, leb, ◌==◌, if◌then◌else◌, Bytes,
}
use linux_utilities.Common.Stdio.{Stream, fputs, fputc, ◌>>=◌}
use linux_utilities.Common.Text.{codes, hex_escape}

-- The body of the loop.
unfoldable pub put_quoted_byte : ℕ → Stream → Option Stream
put_quoted_byte ch s =
    if ch == b'"'
    then fputs (codes "\\\"") s
    else if ch == b'\\'
    then fputs (codes "\\\\") s
    else if leb 0x20 ch && leb ch 0x7e
    then fputc ch s
    else fputs (hex_escape ch) s

unfoldable pub put_quoted_loop : Bytes → Stream → Option Stream
put_quoted_loop [] s = some s
put_quoted_loop (ch ∷ text) s = put_quoted_byte ch s >>= put_quoted_loop text

unfoldable pub put_escaped_quoted : Bytes → Stream → Option Stream
put_escaped_quoted text s = fputc b'"' s >>= put_quoted_loop text >>= fputc b'"'
