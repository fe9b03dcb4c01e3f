-- ===== src/Common/Memory.antt =====
-- Checked sizes and an allocator that fails from some call on.
use linux_utilities.Common.{
  ℕ, zero, suc, ◌+◌, ◌-◌, ◌*◌, ◌/◌, ◌^◌, Option, none, some, ltb, ◌==◌, not, ◌&&◌, if◌then◌else◌,
}

-- `SIZE_MAX` of a 64-bit `size_t`.
abbrev pub size_max : ℕ
size_max = 2 ^ 64 - 1

-- The number of calls of `malloc` and `realloc` that still succeed.
abbrev pub Memory : Type 0
Memory = ℕ

-- One call: `none` is a null pointer.
unfoldable pub allocate : Memory → Option Memory
allocate zero = none
allocate (suc m) = some m

unfoldable pub checked_size_add : ℕ → ℕ → Option ℕ
checked_size_add left right = if ltb (size_max - right) left then none else some (left + right)

unfoldable pub checked_size_mul : ℕ → ℕ → Option ℕ
checked_size_mul left right =
    if not (right == 0) && ltb (size_max / right) left then none else some (left * right)
