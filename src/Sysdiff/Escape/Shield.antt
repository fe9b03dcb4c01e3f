-- ===== src/Sysdiff/Escape/Shield.antt =====
-- src/sysdiff.c: what a finished `put_escaped_bytes` or `put_escaped_value` has written.
use linux_utilities.Common.{◌<◌, ◌≡◌, ◌++◌, some, false, All, Bytes}
use linux_utilities.Common.Stdio.{Stream}
use linux_utilities.Common.Unescape.{unescape, Mode}
use linux_utilities.Common.Stdio.Laws.{fputs-written}
use linux_utilities.Sysdiff.Escape.{put_escaped_bytes, put_escaped_value}
use linux_utilities.Sysdiff.Escape.Laws.{
  put_escaped_bytes-fputs, put_escaped_value-fputs, escape_bytes, escape_value, IsPrintable,
  has_arrow, unescape-escape_bytes, unescape-escape_value, escape_bytes-IsPrintable,
  escape_value-IsPrintable, has_arrow-escape_value,
}

-- A completed escape of a byte string appends one text to the stream: printable ASCII only, and
-- decoded by `unescape` to exactly the string that was escaped.
pub put_escaped_bytes_decodes :
    (t : Bytes) (s : Stream) {s' : Stream}
    → All (λ c. c < 256) t
    → put_escaped_bytes t s ≡ some s'
    → (w : Bytes) × (s'.written ≡ s.written ++ w) × All IsPrintable w × (unescape Mode.plain w ≡ t)
put_escaped_bytes_decodes t s h e = (
  escape_bytes t,
  (fputs-written (escape_bytes t) s (rw put_escaped_bytes-fputs at e)).0,
  escape_bytes-IsPrintable t h,
  unescape-escape_bytes t h,
)

-- A completed escape of a value appends one text to the stream: printable ASCII only, decoded by
-- `unescape` to exactly the value, and with no occurrence of the delimiter space, hyphen,
-- greater-than.
pub put_escaped_value_shields :
    (t : Bytes) (s : Stream) {s' : Stream}
    → All (λ c. c < 256) t
    → put_escaped_value t s ≡ some s'
    → (w : Bytes) × (s'.written ≡ s.written ++ w)
      × All IsPrintable w
      × (unescape Mode.plain w ≡ t)
      × (has_arrow w ≡ false)
put_escaped_value_shields t s h e = (
  escape_value t,
  (fputs-written (escape_value t) s (rw put_escaped_value-fputs at e)).0,
  escape_value-IsPrintable t h,
  unescape-escape_value t h,
  has_arrow-escape_value t h,
)
