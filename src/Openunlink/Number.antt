-- ===== src/Openunlink/Number.antt =====
-- src/openunlink.c: the canonical numerals of process and descriptor numbers.
pub mod Laws
use linux_utilities.Common.{
  ℕ, ◌+◌, ◌-◌, ◌*◌, ◌/◌, ◌^◌, Bool, true, false, not, ◌||◌, [], ◌∷◌, Option, none, some,
  if◌then◌else◌, ltb, ◌==◌, Bytes,
}

abbrev pub int_max : ℕ
int_max = 2147483647

-- `INT_DECIMAL_BOUND` and `UINTMAX_DECIMAL_BOUND`, for an `int` of four and a `uintmax_t` of eight bytes.
abbrev pub int_decimal_bound : ℕ
int_decimal_bound = 12

abbrev pub uintmax_decimal_bound : ℕ
uintmax_decimal_bound = 24

-- One byte of the loop: the next `acc`. It is an `unsigned long` and stays far below its limit.
unfoldable pub next_acc : ℕ → ℕ → Option ℕ
next_acc acc ch =
    if ltb ch b'0' || ltb b'9' ch
    then none
    else if ltb (int_max / 10) acc
    then none
    else if ltb int_max (acc * 10 + (ch - b'0'))
    then none
    else some (acc * 10 + (ch - b'0'))

-- The loop, with the accumulator and the number of digits so far.
unfoldable pub digit_loop : ℕ → ℕ → Bytes → Option ℕ
digit_loop acc count [] = some acc
digit_loop acc count (ch ∷ text) = elim (next_acc acc ch) [
  | none ↦ none
  | some next ↦ if ltb int_decimal_bound (count + 1) then none else digit_loop next (count + 1) text
]

is_end : Bytes → Bool
is_end [] = true
is_end (_ ∷ _) = false

unfoldable pub parse_canonical_int : Bool → Bytes → Option ℕ
unfolding is_end
parse_canonical_int allow_zero [] = none
parse_canonical_int allow_zero (ch ∷ text) =
    if ch == b'0'
    then if not allow_zero || not (is_end text) then none else some 0
    else if ltb ch b'1' || ltb b'9' ch
    then none
    else elim (digit_loop 0 0 (ch ∷ text)) [
      | none ↦ none
      | some acc ↦ if ltb acc 1 then none else some acc
    ]

unfoldable pub parse_pid : Bytes → Option ℕ
unfolding parse_canonical_int
parse_pid text = parse_canonical_int false text

unfoldable pub parse_fd_name : Bytes → Option ℕ
unfolding parse_canonical_int
parse_fd_name text = parse_canonical_int true text
