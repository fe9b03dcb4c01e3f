-- ===== src/Sysdiff/Parse/Lines.antt =====
-- Line endings, and the parts of a line at its separator.
use linux_utilities.Common.{
  ℕ, zero, suc, ◌+◌, ◌<◌, ◌≡◌, ◌≢◌, ◌⊎◌, inl, inr, refl, ap, false, [], ◌∷◌, ◌++◌, none, some,
  if◌then◌else◌, All, Bool-cases, Option-cases, length, take, drop, append-nil, arith, Bytes,
}
use linux_utilities.Sysdiff.Key.{ends_with}
use linux_utilities.Sysdiff.Key.KeyBytes.{ends_with-concat}
use linux_utilities.Sysdiff.Line.Sound.{IsClean}
use linux_utilities.Sysdiff.Parse.{drop_last, strip_ending, index_of}

pub drop_last-concat : (c : ℕ) (xs : Bytes) → drop_last (xs ++ c ∷ []) ≡ xs
unfolding drop_last
drop_last-concat c [] = refl
drop_last-concat c (x ∷ []) = refl
drop_last-concat c (x ∷ y ∷ xs) = ap (◌∷◌ x) (drop_last-concat c (y ∷ xs))

pub All-drop_last : (P : ℕ → Type 0) (xs : Bytes) → All P xs → All P (drop_last xs)
unfolding drop_last
All-drop_last P [] h = tt
All-drop_last P (x ∷ []) h = tt
All-drop_last P (x ∷ y ∷ xs) h = (h.0, All-drop_last P (y ∷ xs) h.1)

ends_with-IsClean : (xs : Bytes) → IsClean xs → ends_with b'\n' xs ≡ false
unfolding ends_with
ends_with-IsClean [] h = refl
ends_with-IsClean (x ∷ []) h = ground (arith, h.0.1)
ends_with-IsClean (x ∷ y ∷ xs) h = ends_with-IsClean (y ∷ xs) h.1

-- A line with its newline loses it, and a carriage return before it.
pub strip_ending-newline :
    (xs : Bytes)
    → strip_ending (xs ++ b'\n' ∷ []) ≡ (if ends_with b'\r' xs then drop_last xs else xs)
unfolding strip_ending
strip_ending-newline xs = rw (ends_with-concat b'\n' xs, drop_last-concat b'\n' xs) refl

pub strip_ending-IsClean_lem : (xs : Bytes) → IsClean xs → strip_ending xs ≡ xs
unfolding strip_ending
strip_ending-IsClean_lem xs h = rw (ends_with-IsClean xs h)

-- What is left of a line that was read holds neither NUL nor newline.
pub IsClean-strip_ending :
    (clean tail : Bytes)
    → IsClean clean
    → (tail ≡ b'\n' ∷ []) ⊎ (tail ≡ [])
    → IsClean (strip_ending (clean ++ tail))
IsClean-strip_ending clean tail h (inl e) =
    rw (e, strip_ending-newline clean)
      (elim (Bool-cases (ends_with b'\r' clean)) [
        | inl cr ↦ rw cr (All-drop_last _ clean h)
        | inr no_cr ↦ rw no_cr h
      ])
IsClean-strip_ending clean tail h (inr e) =
    rw (e, append-nil clean, strip_ending-IsClean_lem clean h) h

pub All-take : (P : ℕ → Type 0) (n : ℕ) (xs : Bytes) → All P xs → All P (take n xs)
All-take P zero xs h = tt
All-take P (suc n) [] h = tt
All-take P (suc n) (x ∷ xs) h = (h.0, All-take P n xs h.1)

pub All-drop : (P : ℕ → Type 0) (n : ℕ) (xs : Bytes) → All P xs → All P (drop n xs)
All-drop P zero xs h = h
All-drop P (suc n) [] h = tt
All-drop P (suc n) (x ∷ xs) h = All-drop P n xs h.1

pub index_of-absent : (c : ℕ) (xs : Bytes) → All (λ x. x ≢ c) xs → index_of c xs ≡ none
unfolding index_of
index_of-absent c [] h = refl
index_of-absent c (x ∷ xs) h = ground (arith, index_of-absent c xs h.1, h.0)

-- The first separator stands behind the part that has none.
pub index_of-append :
    (c : ℕ) (xs ys : Bytes) → All (λ x. x ≢ c) xs → index_of c (xs ++ c ∷ ys) ≡ some (length xs)
unfolding index_of
index_of-append c [] ys h = ground arith
index_of-append c (x ∷ xs) ys h = ground (arith, index_of-append c xs ys h.1, h.0)

pub index_of-lt : (c : ℕ) (xs : Bytes) {n : ℕ} → index_of c xs ≡ some n → n < length xs
unfolding index_of
index_of-lt c [] h = absurd (ground arith)
index_of-lt c (x ∷ xs) {n} h = elim (Option-cases (index_of c xs)) [
  | inl e ↦ ground arith
  | inr (m, e) ↦ ground (arith, index_of-lt c xs {n = m} e)
]

-- Key, separator and value make up the line.
pub split_length :
    (xs : Bytes) (n : ℕ)
    → n < length xs
    → length (take n xs) + 1 + length (drop (n + 1) xs) ≡ length xs
split_length [] n h = absurd (omega arith)
split_length (x ∷ xs) zero h = omega arith
split_length (x ∷ xs) (suc n) h = ground (arith, split_length xs n)

-- The two parts around the separator are recovered.
pub take-append : (xs ys : Bytes) → take (length xs) (xs ++ ys) ≡ xs
take-append [] ys = refl
take-append (x ∷ xs) ys = ap (◌∷◌ x) (take-append xs ys)

pub drop-append : (c : ℕ) (xs ys : Bytes) → drop (length xs + 1) (xs ++ c ∷ ys) ≡ ys
drop-append c [] ys = refl
drop-append c (x ∷ xs) ys = ground (arith, drop-append c xs ys)
