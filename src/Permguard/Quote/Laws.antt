-- ===== src/Permguard/Quote/Laws.antt =====
-- What `put_escaped_quoted` writes.
use linux_utilities.Common.{
  ℕ, ◌≡◌, sym, ◌&&◌, [], ◌∷◌, ◌++◌, leb, ◌==◌, if◌then◌else◌, arith, Bytes,
}
use linux_utilities.Common.Stdio.{Stream, fputs}
use linux_utilities.Common.Stdio.Laws.{fputs-nil, then-fputs, fputc-fputs}
use linux_utilities.Common.Text.{codes, hex_escape}
use linux_utilities.Permguard.Quote.{put_quoted_byte, put_quoted_loop, put_escaped_quoted}

abbrev quoted_byte : ℕ → Bytes
quoted_byte ch =
    if ch == b'"'
    then codes "\\\""
    else if ch == b'\\'
    then codes "\\\\"
    else if leb 0x20 ch && leb ch 0x7e
    then ch ∷ []
    else hex_escape ch

unfoldable pub quoted_bytes : Bytes → Bytes
quoted_bytes [] = []
quoted_bytes (ch ∷ text) = quoted_byte ch ++ quoted_bytes text

-- A text between quotes.
unfoldable pub quoted : Bytes → Bytes
quoted text = (b'"' ∷ quoted_bytes text) ++ b'"' ∷ []

put_quoted_byte-fputs : (ch : ℕ) (s : Stream) → put_quoted_byte ch s ≡ fputs (quoted_byte ch) s
unfolding put_quoted_byte
put_quoted_byte-fputs ch s = ground (arith, fputc-fputs ch s)

put_quoted_loop-fputs :
    (text : Bytes) (s : Stream) → put_quoted_loop text s ≡ fputs (quoted_bytes text) s
unfolding put_quoted_loop quoted_bytes
put_quoted_loop-fputs [] s = sym (fputs-nil s)
put_quoted_loop-fputs (ch ∷ text) s =
    then-fputs (quoted_byte ch) (quoted_bytes text) s (put_quoted_byte-fputs ch s)
      (put_quoted_loop-fputs text)

pub put_escaped_quoted-fputs :
    (text : Bytes) (s : Stream) → put_escaped_quoted text s ≡ fputs (quoted text) s
unfolding put_escaped_quoted quoted
put_escaped_quoted-fputs text s =
    let open_quote =
      then-fputs (b'"' ∷ []) (quoted_bytes text) s (fputc-fputs b'"' s)
        (put_quoted_loop-fputs text) in
    then-fputs (b'"' ∷ quoted_bytes text) (b'"' ∷ []) s open_quote (fputc-fputs b'"')
