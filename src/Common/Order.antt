-- ===== src/Common/Order.antt =====
-- The order of byte strings that `strcmp` computes.
use Prim.Native.Nat.{ℕ, compare, Ordering}
use mathlib.Core.Path.{◌≡◌, refl}
use mathlib.Core.Bool.{Bool, true, false}
use mathlib.Core.List.{List, [], ◌∷◌}
use native.Mathlib.Omega.{arith}

-- A byte string, with no terminator.
abbrev pub Bytes : Type 0
Bytes = List ℕ

-- C's `strcmp` on NUL-free byte strings: the sign of its result.
unfoldable pub strcmp : Bytes → Bytes → Ordering
strcmp [] [] = Ordering.eq
strcmp [] (y ∷ ys) = Ordering.lt
strcmp (x ∷ xs) [] = Ordering.gt
strcmp (x ∷ xs) (y ∷ ys) =
    let rest = strcmp xs ys in
    elim (compare x y) [
      | Ordering.lt ↦ Ordering.lt
      | Ordering.eq ↦ rest
      | Ordering.gt ↦ Ordering.gt
    ]

-- `strcmp(a, b) == 0`
unfoldable pub same_text : Bytes → Bytes → Bool
unfolding strcmp
same_text a b = elim (strcmp a b) [ Ordering.eq ↦ true | _ ↦ false ]

pub strcmp_refl : (a : Bytes) → strcmp a a ≡ Ordering.eq
unfolding strcmp
strcmp_refl [] = refl
strcmp_refl (x ∷ a) = ground (arith, strcmp_refl a)

pub eq-strcmp : (a b : Bytes) → strcmp a b ≡ Ordering.eq → a ≡ b
unfolding strcmp
eq-strcmp [] [] h = refl
eq-strcmp [] (y ∷ b) h = cc
eq-strcmp (x ∷ a) [] h = cc
eq-strcmp (x ∷ a) (y ∷ b) h = ground (arith, eq-strcmp a b)

pub eq-same_text : (a b : Bytes) → same_text a b ≡ true → a ≡ b
unfolding same_text
eq-same_text a b h = ground (arith, eq-strcmp a b)

pub strcmp_flip : (a b : Bytes) → strcmp a b ≡ Ordering.gt → strcmp b a ≡ Ordering.lt
unfolding strcmp
strcmp_flip [] [] h = cc
strcmp_flip [] (y ∷ b) h = cc
strcmp_flip (x ∷ a) [] h = refl
strcmp_flip (x ∷ a) (y ∷ b) h = ground (arith, strcmp_flip a b)

pub strcmp_flop : (a b : Bytes) → strcmp a b ≡ Ordering.lt → strcmp b a ≡ Ordering.gt
unfolding strcmp
strcmp_flop [] [] h = cc
strcmp_flop [] (y ∷ b) h = refl
strcmp_flop (x ∷ a) [] h = cc
strcmp_flop (x ∷ a) (y ∷ b) h = ground (arith, strcmp_flop a b)

pub strcmp_trans :
    (a b c : Bytes) → strcmp a b ≡ Ordering.lt → strcmp b c ≡ Ordering.lt → strcmp a c ≡ Ordering.lt
unfolding strcmp
strcmp_trans [] [] c h k = cc
strcmp_trans [] (y ∷ b) [] h k = cc
strcmp_trans [] (y ∷ b) (z ∷ c) h k = refl
strcmp_trans (x ∷ a) [] c h k = cc
strcmp_trans (x ∷ a) (y ∷ b) [] h k = cc
strcmp_trans (x ∷ a) (y ∷ b) (z ∷ c) h k = ground (arith, strcmp_trans a b c)
