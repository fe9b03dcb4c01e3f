-- ===== src/Common/Unescape.antt =====
-- The decoder of the escapes `\xHH` and `\\` that the utilities print.
use Prim.Native.Nat.{ℕ, ◌+◌, ◌-◌, ◌*◌}
use mathlib.Core.List.{[], ◌∷◌}
use linux_utilities.Common.Order.{Bytes}
use linux_utilities.Common.Tests.{ltb, ◌==◌, if◌then◌else◌}

-- Reading escaped text back: the number of hexadecimal digits still to come and their value so far
-- stand in the mode.
pub data Mode : Type 0 where
  plain slash high : Mode
  low : ℕ → Mode

abbrev hex_value : ℕ → ℕ
hex_value c = if ltb c 58 then c - 48 else c - 55

unfoldable pub unescape : Mode → Bytes → Bytes
unescape m [] = []
unescape plain (c ∷ w) =
    let escaped = unescape slash w in
    let literal = c ∷ unescape plain w in if c == b'\\' then escaped else literal
unescape slash (c ∷ w) =
    let hex = unescape high w in
    let literal = c ∷ unescape plain w in if c == b'x' then hex else literal
unescape high (c ∷ w) = unescape (low (hex_value c)) w
unescape (low h) (c ∷ w) = (h * 16 + hex_value c) ∷ unescape plain w
