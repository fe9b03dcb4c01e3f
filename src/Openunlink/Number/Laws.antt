-- ===== src/Openunlink/Number/Laws.antt =====
-- The numerals that are accepted, and those that `printf` writes.
use linux_utilities.Common.{
  ℕ, zero, suc, ◌+◌, ◌-◌, ◌*◌, ◌/◌, ◌%◌, ◌≤◌, ◌<◌, ◌≡◌, ◌⊎◌, ◌↔◌, inl, inr, sym, ap, ◌∙◌, Bool,
  true, [], ◌∷◌, ◌++◌, some, ltb, ◌==◌, arith, Bytes, length, append_assoc, append-nil,
  Option-cases, Bool-cases,
}
use linux_utilities.Common.Decimal.{
  decimal, decimal_small, decimal_large, decimal-step, length-decimal,
}
use linux_utilities.Openunlink.Number.{int_max, next_acc, digit_loop, parse_canonical_int}

next_acc-some :
    (acc ch next : ℕ)
    → next_acc acc ch ≡ some next
    → (48 ≤ ch) × (ch < 58) × (next ≡ acc * 10 + (ch - 48)) × (next ≤ int_max)
unfolding next_acc
next_acc-some acc ch next e = ground arith

next_acc_ok :
    (acc ch : ℕ)
    → 48 ≤ ch
    → ch < 58
    → acc * 10 + (ch - 48) ≤ int_max
    → next_acc acc ch ≡ some (acc * 10 + (ch - 48))
unfolding next_acc
next_acc_ok acc ch low high small = ground arith

-- What the loop has read so far is the numeral of `acc`.
digit_loop-extends :
    (acc count : ℕ) (text : Bytes) {n : ℕ}
    → 0 < acc
    → acc ≤ int_max
    → digit_loop acc count text ≡ some n
    → (decimal n ≡ decimal acc ++ text) × (n ≤ int_max) × (0 < n)
unfolding digit_loop
digit_loop-extends acc count [] {n} pos small e =
    let same : acc ≡ n = ground arith in rw (← same) (sym (append-nil (decimal acc)), small, pos)
digit_loop-extends acc count (ch ∷ text) {n} pos small e = elim (Option-cases (next_acc acc ch)) [
  | inl f ↦ absurd (ground arith)
  | inr (next, f) ↦
      let (low, high, is, bound) = next_acc-some acc ch next f in
      let rest : digit_loop next (count + 1) text ≡ some n = ground arith in
      let (same, most, least) =
        digit_loop-extends next (count + 1) text {n = n} (omega arith) bound rest in
      let digit : 48 + (ch - 48) ≡ ch = omega arith in
      let step : decimal next ≡ decimal acc ++ ch ∷ [] =
        rw is
          (decimal-step acc (ch - 48) pos (omega arith) ∙ ap (λ d. decimal acc ++ d ∷ []) digit) in
      (same ∙ ap (λ t. t ++ text) step ∙ append_assoc (decimal acc) (ch ∷ []) text, most, least)
]

-- Two runs of the loop, one behind the other.
digit_loop-append :
    (acc count : ℕ) (text : Bytes) (ch n : ℕ)
    → digit_loop acc count text ≡ some n
    → count + length text < 12
    → 48 ≤ ch
    → ch < 58
    → n * 10 + (ch - 48) ≤ int_max
    → digit_loop acc count (text ++ ch ∷ []) ≡ some (n * 10 + (ch - 48))
unfolding digit_loop
digit_loop-append acc count [] ch n e short low high small =
    let same : acc ≡ n = ground arith in ground (arith, next_acc_ok acc ch low high)
digit_loop-append acc count (c ∷ text) ch n e short low high small =
    elim (Option-cases (next_acc acc c)) [
      | inl f ↦ absurd (ground arith)
      | inr (next, f) ↦ ground (arith, digit_loop-append next (count + 1) text ch n)
    ]

-- A numeral is read back, by induction on a bound of the number.
digit_loop-decimal : (k n : ℕ) → n < k → 0 < n → n ≤ int_max → digit_loop 0 0 (decimal n) ≡ some n
digit_loop-decimal zero n below pos small = absurd (omega arith)
digit_loop-decimal (suc k) n below pos small = elim (Bool-cases (ltb n 10)) [
  | inl one ↦ rw (decimal_small n (ground arith)) (single (ground arith))
  | inr more ↦
      let short = length-decimal 8 (n / 10) (omega (arith, small)) in
      let again =
        digit_loop-append 0 0 (decimal (n / 10)) (48 + n % 10) (n / 10)
          (digit_loop-decimal k (n / 10) (ground arith) (ground arith) (omega arith))
          (omega (arith, short)) (omega arith) (omega arith) (omega arith) in
      let value : n / 10 * 10 + (48 + n % 10 - 48) ≡ n = omega arith in
      rw (decimal_large n (ground arith)) (again ∙ ap some value)
]
  where
    single : n < 10 → digit_loop 0 0 ((48 + n) ∷ []) ≡ some n
    single h = unfold digit_loop in ground (arith, next_acc_ok 0 (48 + n))

decimal-head :
    (k n : ℕ)
    → n < k
    → 0 < n
    → (c : ℕ) × (rest : Bytes) × (decimal n ≡ c ∷ rest) × (49 ≤ c) × (c < 58)
decimal-head zero n below pos = absurd (omega arith)
decimal-head (suc k) n below pos = elim (Bool-cases (ltb n 10)) [
  | inl one ↦ (48 + n, [], decimal_small n (ground arith), omega arith, ground arith)
  | inr more ↦
      let (c, rest, is, low, high) = decimal-head k (n / 10) (ground arith) (ground arith) in
      (
        c,
        rest ++ (48 + n % 10) ∷ [],
        decimal_large n (ground arith) ∙ ap (λ t. t ++ (48 + n % 10) ∷ []) is,
        low,
        high,
      )
]

-- What a numeral that is accepted is.
abbrev pub IsNumeral : Bool → Bytes → ℕ → Type 0
IsNumeral allow_zero text n = (text ≡ decimal n) × (n ≤ int_max) × ((allow_zero ≡ true) ⊎ (0 < n))

digit_loop-first :
    (ch : ℕ) (text : Bytes) (n : ℕ)
    → 49 ≤ ch
    → ch < 58
    → digit_loop 0 0 (ch ∷ text) ≡ some n
    → digit_loop (ch - 48) 1 text ≡ some n
unfolding digit_loop
digit_loop-first ch text n low high e = ground (arith, next_acc_ok 0 ch)

nonzero_first :
    (ch : ℕ) (text : Bytes) (n : ℕ)
    → 49 ≤ ch
    → ch < 58
    → digit_loop 0 0 (ch ∷ text) ≡ some n
    → (ch ∷ text ≡ decimal n) × (n ≤ int_max) × (0 < n)
nonzero_first ch text n low high e =
    let (same, small, pos) =
      digit_loop-extends (ch - 48) 1 text {n = n} (omega arith) (omega arith)
        (digit_loop-first ch text n low high e) in
    let first : decimal (ch - 48) ≡ ch ∷ [] =
      decimal_small (ch - 48) (omega arith) ∙ ap (λ d. d ∷ []) (omega arith) in
    (sym (same ∙ ap (λ t. t ++ text) first), small, pos)

module _ (allow_zero : Bool) where
  zero_first :
      (text : Bytes) (n : ℕ)
      → parse_canonical_int allow_zero (b'0' ∷ text) ≡ some n
      → IsNumeral allow_zero (b'0' ∷ text) n
  unfolding parse_canonical_int
  zero_first [] n e =
      let is : n ≡ 0 = ground arith in
      rw is (sym (decimal_small 0 (omega arith)), omega arith, ground arith)
  zero_first (c ∷ text) n e = ground arith

  parse_sound :
      (text : Bytes) (n : ℕ)
      → parse_canonical_int allow_zero text ≡ some n
      → IsNumeral allow_zero text n
  unfolding parse_canonical_int
  parse_sound [] n e = ground arith
  parse_sound (ch ∷ text) n e = elim (Bool-cases (ch == b'0')) [
    | inl f ↦ let is : ch ≡ 48 = ground arith in rw is (zero_first text n (rw is at e))
    | inr other ↦
        let (same, small, pos) =
          nonzero_first ch text n (ground arith) (ground arith) (ground arith) in
        (same, small, inr pos)
  ]

  parse_complete :
      (text : Bytes) (n : ℕ)
      → IsNumeral allow_zero text n
      → parse_canonical_int allow_zero text ≡ some n
  unfolding parse_canonical_int
  parse_complete text n (is, small, may) = elim (Bool-cases (n == 0)) [
    | inl f ↦
        let none_left : n ≡ 0 = ground arith in
        rw (is, none_left, decimal_small 0 (omega arith)) (ground arith)
    | inr f ↦
        let (c, rest, numeral, low, high) = decimal-head (suc n) n (ground arith) (ground arith) in
        let read : digit_loop 0 0 (c ∷ rest) ≡ some n =
          rw numeral at (digit_loop-decimal (suc n) n (ground arith) (ground arith) small) in
        rw (is, numeral) (ground arith)
  ]

-- A text is accepted as a process or descriptor number exactly when it is the decimal numeral that
-- `printf` writes for it: no sign, no leading zero, at most INT_MAX, and 0 only where zero is
-- allowed.
pub parse_canonical_int_iff :
    (allow_zero : Bool) (text : Bytes) (n : ℕ)
    → (parse_canonical_int allow_zero text ≡ some n) ↔ IsNumeral allow_zero text n
parse_canonical_int_iff allow_zero text n =
    (parse_sound allow_zero text n, parse_complete allow_zero text n)
