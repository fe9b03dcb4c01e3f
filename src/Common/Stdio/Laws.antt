-- ===== src/Common/Stdio/Laws.antt =====
-- Laws of writing to a stream.
use mathlib.Core.Path.{fun_ext}
use linux_utilities.Common.{
  ℕ, ◌-◌, ◌≤◌, ◌<◌, ◌≡◌, refl, sym, [], ◌∷◌, ◌++◌, Option, none, some, arith, length, length-append,
  append_assoc, append-nil, Bytes,
}
use linux_utilities.Common.Stdio.{Stream, fputs, fputc, ◌>>=◌}

pub fputs-nil : (s : Stream) → fputs [] s ≡ some s
unfolding fputs
fputs-nil s = ground (arith, append-nil s.written)

pub fputs-append : (a b : Bytes) (s : Stream) → fputs (a ++ b) s ≡ (fputs a s >>= fputs b)
unfolding fputs
fputs-append a b s = ground (arith, length-append a b, append_assoc s.written a b)

-- A write and what follows it, as one write.
pub then-fputs :
    (a b : Bytes) {m : Option Stream} {f : Stream → Option Stream} (s : Stream)
    → m ≡ fputs a s
    → ((x : Stream) → f x ≡ fputs b x)
    → (m >>= f) ≡ fputs (a ++ b) s
then-fputs a b s p q = rw (p, fun_ext q) (sym (fputs-append a b s))

pub fputc-fputs : (c : ℕ) (s : Stream) → fputc c s ≡ fputs (c ∷ []) s
unfolding fputc
fputc-fputs c s = refl

-- What a successful write leaves.
pub fputs-written :
    (t : Bytes) (s : Stream) {s' : Stream}
    → fputs t s ≡ some s'
    → (s'.written ≡ s.written ++ t) × (s'.flushes ≡ s.flushes) × (s'.errno ≡ s.errno)
unfolding fputs
fputs-written t s h = ground arith

-- With room for the text a write succeeds.
pub fputs-room :
    (t : Bytes) (s : Stream)
    → length t ≤ s.room
    → fputs t s ≡ some (record s { written = s.written ++ t; room = s.room - length t })
unfolding fputs
fputs-room t s h = ground arith

pub fputs_full : (t : Bytes) (s : Stream) → s.room < length t → fputs t s ≡ none
unfolding fputs
fputs_full t s h = ground arith
