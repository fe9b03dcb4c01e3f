-- ===== src/Common/Stdio.antt =====
-- An output stream of C's stdio, as far as the utilities use it: a call writes all of its text or
-- fails. The environment decides by `room` at which byte writing begins to fail, and by `flushes`
-- whether the final `fflush` succeeds with no error recorded. `errno` is what a failed call leaves.
pub mod Laws
use linux_utilities.Common.{
  ℕ, ◌+◌, ◌-◌, Bool, List, [], ◌∷◌, ◌++◌, Option, none, some, leb, if◌then◌else◌, length, Bytes,
}

pub record Stream : Type 0 where
  pub written : Bytes
  pub room : ℕ
  pub flushes : Bool
  pub errno : ℕ

-- `none` is a failed write.
infixl 5 ◌>>=◌
abbrev pub ◌>>=◌ {ℓ κ} : {A : Type ℓ} {B : Type κ} → Option A → (A → Option B) → Option B
none >>= f = none
some a >>= f = f a

unfoldable pub fputs : Bytes → Stream → Option Stream
fputs text s =
    if leb (length text) s.room
    then some (record s { written = s.written ++ text; room = s.room - length text })
    else none

unfoldable pub fputc : ℕ → Stream → Option Stream
unfolding fputs
fputc ch s = fputs (ch ∷ []) s
