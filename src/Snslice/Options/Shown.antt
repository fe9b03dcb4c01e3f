-- ===== src/Snslice/Options/Shown.antt =====
-- src/snslice.c: the text that a diagnostic shows of a string.
use linux_utilities.Common.{
  ℕ, zero, suc, ◌+◌, ◌<◌, ◌≤◌, ◌≡◌, ◌≢◌, ◌⊎◌, inl, inr, refl, ap, ◌∙◌, [], ◌∷◌, ◌++◌, Option, some,
  ltb, length, take, All, All-append, Bool-cases, arith, Bytes, length-append,
}
use linux_utilities.Common.Unescape.{plain, unescape}
use linux_utilities.Snslice.Options.{sanitize_byte, sanitize_loop, sanitize_string}

-- Printable ASCII, and no double quote.
abbrev pub IsShown : ℕ → Type 0
IsShown c = (0x20 ≤ c) × (c ≤ 0x7E) × (c ≢ b'"')

-- What a buffer of some size shows of a string: `read` bytes of it, all of them unless what is
-- written leaves less room than another escape may take.
pub record IsSanitized (src : Bytes) (size : ℕ) (shown : Option Bytes) : Type 0 where
  pub text : Bytes
  pub shown_is : shown ≡ some text
  pub printable : All IsShown text
  pub fits : length text < size
  pub read : ℕ
  pub decodes : unescape plain text ≡ take read src
  pub complete : (read ≡ length src) ⊎ (size ≤ length text + 5)

sanitize_byte-All :
    (b : ℕ) → b < 256 → All IsShown (sanitize_byte b) × (length (sanitize_byte b) ≤ 4)
sanitize_byte-All b small = ground arith

unescape-sanitize_byte :
    (b : ℕ) (w : Bytes) → b < 256 → unescape plain (sanitize_byte b ++ w) ≡ b ∷ unescape plain w
unfolding unescape
unescape-sanitize_byte b w small = ground arith

-- The same of the loop, with `d` bytes written before.
record IsLooped (src : Bytes) (size d : ℕ) (text : Bytes) : Type 0 where
  printable : All IsShown text
  fits : d + length text < size
  read : ℕ
  decodes : unescape plain text ≡ take read src
  complete : (read ≡ length src) ⊎ (size ≤ d + length text + 5)

IsLooped-cons :
    (b : ℕ) (src : Bytes) (size d : ℕ) (rest : Bytes)
    → b < 256
    → IsLooped src size (d + length (sanitize_byte b)) rest
    → IsLooped (b ∷ src) size d (sanitize_byte b ++ rest)
IsLooped-cons b src size d rest small l =
    let joined = length-append (sanitize_byte b) rest in
    let fits = l.fits in
    record {
      printable =
          All-append IsShown (sanitize_byte b) rest (sanitize_byte-All b small).0 l.printable;
      fits = omega arith;
      read = suc l.read;
      decodes = unescape-sanitize_byte b rest small ∙ ap (◌∷◌ b) l.decodes;
      complete = elim l.complete [ inl e ↦ inl (ap suc e) | inr e ↦ inr (omega arith) ];
    }

sanitize_loop-IsLooped :
    (size : ℕ) (src : Bytes) (d : ℕ)
    → All (λ b. b < 256) src
    → d < size
    → IsLooped src size d (sanitize_loop size src d)
unfolding sanitize_loop
sanitize_loop-IsLooped size [] d bytes room = record {
  printable = tt;
  fits = omega arith;
  read = 0;
  decodes = unfold unescape in refl;
  complete = inl refl;
}
sanitize_loop-IsLooped size (b ∷ src) d (small, bytes) room = elim (Bool-cases (ltb (d + 5) size)) [
  | inl fits ↦
      let short = (sanitize_byte-All b small).1 in
      rw fits (
        IsLooped-cons b src size d (sanitize_loop size src (d + length (sanitize_byte b))) small
          (sanitize_loop-IsLooped size src (d + length (sanitize_byte b)) bytes (ground arith)))
  | inr full ↦ rw full (record {
    printable = tt;
    fits = omega arith;
    read = 0;
    decodes = unfold unescape in refl;
    complete = inr (ground arith);
  })
]

-- For a string of bytes and a buffer that is not empty, `sanitize_string` leaves a text that fits the
-- buffer with its terminator, of printable ASCII without a double quote, that decodes to the first
-- bytes of the string: to all of them, unless fewer than six bytes of the buffer are left.
pub sanitize_string-IsSanitized :
    (src : Bytes) (size : ℕ)
    → All (λ b. b < 256) src
    → 0 < size
    → IsSanitized src size (sanitize_string (some src) size)
unfolding sanitize_string
sanitize_string-IsSanitized src zero bytes room = absurd (omega arith)
sanitize_string-IsSanitized src (suc n) bytes room =
    let l = sanitize_loop-IsLooped (suc n) src 0 bytes (omega arith) in
    let fits = l.fits in
    record {
      text = sanitize_loop (suc n) src 0;
      shown_is = refl;
      printable = l.printable;
      fits = omega arith;
      read = l.read;
      decodes = l.decodes;
      complete = elim l.complete [ inl e ↦ inl e | inr e ↦ inr (omega arith) ];
    }
