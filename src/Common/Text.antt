-- ===== src/Common/Text.antt =====
-- Literal texts as bytes, and `%02X`.
use Prim.Native.Nat.{ℕ, ◌+◌, ◌/◌, ◌%◌}
use Prim.Native.Char.{code}
use Prim.Native.String.{String}
use mathlib.Core.List.{[], ◌∷◌}
use linux_utilities.Common.Order.{Bytes}
use linux_utilities.Common.Tests.{ltb, if◌then◌else◌}

-- The code points of a text: its bytes, if it is ASCII.
abbrev pub codes : String → Bytes
codes String.[] = []
codes (String.◌∷◌ c s) = code c ∷ codes s

-- An uppercase hexadecimal digit.
abbrev pub hex_digit : ℕ → ℕ
hex_digit d = if ltb d 10 then 48 + d else 55 + d

-- `printf("\\x%02X", ch)` of an `unsigned char`.
abbrev pub hex_escape : ℕ → Bytes
hex_escape ch = b'\\' ∷ b'x' ∷ hex_digit (ch / 16) ∷ hex_digit (ch % 16) ∷ []
