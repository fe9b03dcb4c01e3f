-- ===== src/Sysdiff/Escape/Laws.antt =====
-- The texts that the escaping writes.
use linux_utilities.Common.{
  ℕ, ◌≤◌, ◌<◌, ◌≡◌, refl, sym, ap, ◌∙◌, Bool, true, false, ◌&&◌, ◌||◌, [], ◌∷◌, ◌++◌, inl, inr,
  Bool-cases, arith, leb, ◌==◌, if◌then◌else◌, All, All-append, Bytes,
}
use linux_utilities.Common.Stdio.{Stream, fputs}
use linux_utilities.Common.Stdio.Laws.{fputs-nil, then-fputs, fputc-fputs}
use linux_utilities.Common.Text.{codes, hex_escape}
use linux_utilities.Common.Unescape.{plain, unescape}
use linux_utilities.Sysdiff.Escape.{put_byte, put_escaped_bytes, put_escaped_value, is_arrow}

abbrev pub escape_byte : ℕ → Bytes
escape_byte ch =
    if ch == b'\\'
    then codes "\\\\"
    else if leb 0x20 ch && leb ch 0x7e
    then ch ∷ []
    else hex_escape ch

-- The texts that the two loops write.
unfoldable pub escape_bytes : Bytes → Bytes
escape_bytes [] = []
escape_bytes (ch ∷ text) = escape_byte ch ++ escape_bytes text

unfoldable pub escape_value : Bytes → Bytes
escape_value [] = []
escape_value (a ∷ b ∷ c ∷ rest) =
    let shielded = codes " -\\x3E" ++ escape_value rest in
    let plain = escape_byte a ++ escape_value (b ∷ c ∷ rest) in
    if is_arrow a b c then shielded else plain
escape_value (a ∷ rest) = escape_byte a ++ escape_value rest

put_byte-fputs : (ch : ℕ) (s : Stream) → put_byte ch s ≡ fputs (escape_byte ch) s
unfolding put_byte
put_byte-fputs ch s = ground (arith, fputc-fputs ch s)

pub put_escaped_bytes-fputs :
    (t : Bytes) (s : Stream) → put_escaped_bytes t s ≡ fputs (escape_bytes t) s
unfolding put_escaped_bytes escape_bytes
put_escaped_bytes-fputs [] s = sym (fputs-nil s)
put_escaped_bytes-fputs (ch ∷ t) s =
    then-fputs (escape_byte ch) (escape_bytes t) s (put_byte-fputs ch s) (put_escaped_bytes-fputs t)

pub put_escaped_value-fputs :
    (t : Bytes) (s : Stream) → put_escaped_value t s ≡ fputs (escape_value t) s
unfolding put_escaped_value escape_value
put_escaped_value-fputs [] s = sym (fputs-nil s)
put_escaped_value-fputs (a ∷ b ∷ c ∷ rest) s = elim (Bool-cases (is_arrow a b c)) [
  | inl e ↦
      rw e (then-fputs (codes " -\\x3E") (escape_value rest) s refl (put_escaped_value-fputs rest))
  | inr e ↦ rw e (
      then-fputs (escape_byte a) (escape_value (b ∷ c ∷ rest)) s (put_byte-fputs a s)
        (put_escaped_value-fputs (b ∷ c ∷ rest)))
]
put_escaped_value-fputs (a ∷ rest) s =
    then-fputs (escape_byte a) (escape_value rest) s (put_byte-fputs a s)
      (put_escaped_value-fputs rest)

unescape-escape_byte :
    (ch : ℕ) (w : Bytes) → ch < 256 → unescape plain (escape_byte ch ++ w) ≡ ch ∷ unescape plain w
unfolding unescape
unescape-escape_byte ch w h = ground arith

abbrev pub IsPrintable : ℕ → Type 0
IsPrintable c = (0x20 ≤ c) × (c ≤ 0x7e)

escape_byte-IsPrintable : (ch : ℕ) → ch < 256 → All IsPrintable (escape_byte ch)
escape_byte-IsPrintable ch h = ground arith

pub unescape-escape_bytes : (t : Bytes) → All (λ c. c < 256) t → unescape plain (escape_bytes t) ≡ t
unfolding escape_bytes
unescape-escape_bytes [] h = unfold unescape in refl
unescape-escape_bytes (c ∷ t) (h, hs) =
    rw (unescape-escape_byte c (escape_bytes t) h, unescape-escape_bytes t hs)

unescape-shield :
    (w : Bytes) → unescape plain (codes " -\\x3E" ++ w) ≡ b' ' ∷ b'-' ∷ b'>' ∷ unescape plain w
unfolding unescape
unescape-shield w = refl

is_arrow_iff : (a b c : ℕ) → is_arrow a b c ≡ true → (a ≡ b' ') × (b ≡ b'-') × (c ≡ b'>')
is_arrow_iff a b c h = ground arith

-- Decoding undoes the escaping of a value.
pub unescape-escape_value : (t : Bytes) → All (λ c. c < 256) t → unescape plain (escape_value t) ≡ t
unfolding escape_value
unescape-escape_value [] h = unfold unescape in refl
unescape-escape_value (a ∷ b ∷ c ∷ rest) h = elim (Bool-cases (is_arrow a b c)) [
  | inl e ↦ rw e (
      unescape-shield (escape_value rest)
      ∙ ground (arith, is_arrow_iff a b c e, unescape-escape_value rest h.1.1.1))
  | inr e ↦ rw e (
      unescape-escape_byte a (escape_value (b ∷ c ∷ rest)) h.0
      ∙ ap (◌∷◌ a) (unescape-escape_value (b ∷ c ∷ rest) h.1))
]
unescape-escape_value (a ∷ rest) h =
    unescape-escape_byte a (escape_value rest) h.0 ∙ ap (◌∷◌ a) (unescape-escape_value rest h.1)

pub escape_bytes-IsPrintable : (t : Bytes) → All (λ c. c < 256) t → All IsPrintable (escape_bytes t)
unfolding escape_bytes
escape_bytes-IsPrintable [] h = tt
escape_bytes-IsPrintable (c ∷ t) h =
    All-append IsPrintable (escape_byte c) (escape_bytes t) (escape_byte-IsPrintable c h.0)
      (escape_bytes-IsPrintable t h.1)

pub escape_value-IsPrintable : (t : Bytes) → All (λ c. c < 256) t → All IsPrintable (escape_value t)
unfolding escape_value
escape_value-IsPrintable [] h = tt
escape_value-IsPrintable (a ∷ b ∷ c ∷ rest) h = elim (Bool-cases (is_arrow a b c)) [
  | inl e ↦ rw e (
      All-append IsPrintable (codes " -\\x3E") (escape_value rest) (omega arith)
        (escape_value-IsPrintable rest h.1.1.1))
  | inr e ↦ rw e (
      All-append IsPrintable (escape_byte a) (escape_value (b ∷ c ∷ rest))
        (escape_byte-IsPrintable a h.0) (escape_value-IsPrintable (b ∷ c ∷ rest) h.1))
]
escape_value-IsPrintable (a ∷ rest) h =
    All-append IsPrintable (escape_byte a) (escape_value rest) (escape_byte-IsPrintable a h.0)
      (escape_value-IsPrintable rest h.1)

-- Does the text begin with `>`, with `->`, with the delimiter `" ->"`?
abbrev pub starts_gt : Bytes → Bool
starts_gt [] = false
starts_gt (c ∷ w) = c == b'>'

abbrev pub starts_dash : Bytes → Bool
starts_dash [] = false
starts_dash (b ∷ w) = b == b'-' && starts_gt w

abbrev pub starts_arrow : Bytes → Bool
starts_arrow [] = false
starts_arrow (a ∷ w) = a == b' ' && starts_dash w

-- Does the delimiter occur?
pub has_arrow : Bytes → Bool
has_arrow [] = false
has_arrow (c ∷ w) = starts_arrow (c ∷ w) || has_arrow w

-- Only a space of the value can open the delimiter.
has_arrow-escape_byte :
    (a : ℕ) (w : Bytes)
    → a < 256
    → has_arrow (escape_byte a ++ w) ≡ (a == b' ' && starts_dash w || has_arrow w)
unfolding has_arrow
has_arrow-escape_byte a w h = ground arith

starts_gt-escape_byte : (a : ℕ) (w : Bytes) → starts_gt (escape_byte a ++ w) ≡ (a == b'>')
starts_gt-escape_byte a w = ground arith

starts_dash-escape_byte :
    (a : ℕ) (w : Bytes) → starts_dash (escape_byte a ++ w) ≡ (a == b'-' && starts_gt w)
starts_dash-escape_byte a w = ground arith

starts_gt-escape_value : (t : Bytes) → starts_gt (escape_value t) ≡ starts_gt t
unfolding escape_value
starts_gt-escape_value [] = refl
starts_gt-escape_value (a ∷ b ∷ c ∷ rest) =
    ground (arith, starts_gt-escape_byte a (escape_value (b ∷ c ∷ rest)))
starts_gt-escape_value (a ∷ rest) = starts_gt-escape_byte a (escape_value rest)

starts_dash-escape_value : (t : Bytes) → starts_dash (escape_value t) ≡ starts_dash t
unfolding escape_value
starts_dash-escape_value [] = refl
starts_dash-escape_value (a ∷ b ∷ c ∷ rest) = ground (
  arith,
  starts_dash-escape_byte a (escape_value (b ∷ c ∷ rest)),
  starts_gt-escape_value (b ∷ c ∷ rest),
)
starts_dash-escape_value (a ∷ rest) =
    starts_dash-escape_byte a (escape_value rest)
    ∙ ap (λ b. a == b'-' && b) (starts_gt-escape_value rest)

has_arrow-shield : (w : Bytes) → has_arrow (codes " -\\x3E" ++ w) ≡ has_arrow w
unfolding has_arrow
has_arrow-shield w = refl

-- No delimiter is left in an escaped value.
pub has_arrow-escape_value : (t : Bytes) → All (λ c. c < 256) t → has_arrow (escape_value t) ≡ false
unfolding escape_value
has_arrow-escape_value [] h = unfold has_arrow in refl
has_arrow-escape_value (a ∷ b ∷ c ∷ rest) h = elim (Bool-cases (is_arrow a b c)) [
  | inl e ↦ rw e (has_arrow-shield (escape_value rest) ∙ has_arrow-escape_value rest h.1.1.1)
  | inr e ↦ rw e (
      has_arrow-escape_byte a (escape_value (b ∷ c ∷ rest)) h.0
      ∙ ground (
        arith,
        starts_dash-escape_value (b ∷ c ∷ rest),
        has_arrow-escape_value (b ∷ c ∷ rest) h.1,
      ))
]
has_arrow-escape_value (a ∷ rest) h =
    has_arrow-escape_byte a (escape_value rest) h.0
    ∙ ground (arith, starts_dash-escape_value rest, has_arrow-escape_value rest h.1)
