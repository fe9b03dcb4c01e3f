-- ===== src/Treehash/Sha256/Stream.antt =====
-- A message that is taken in pieces by `sha256_update`.
use linux_utilities.Common.{
  ℕ, zero, suc, ◌+◌, ◌-◌, ◌*◌, ◌%◌, ◌^◌, ◌≤◌, ◌<◌, ◌≡◌, refl, sym, ap, ◌∙◌, [], ◌∷◌, ◌++◌, ltb, leb,
  leb→le, le→leb, ltb→lt, ltb→le, length, length-append, append_assoc, append-nil, take, drop,
  Bytes, Bool-cases, inl, inr, arith,
}
use linux_utilities.Treehash.Sha256.{
  Words, sha256_transform, Context, initial_words, sha256_init, copy_to, Absorbed, block_loop,
  absorb_blocks, sha256_update,
}

pub length-take : (n : ℕ) (xs : Bytes) → n ≤ length xs → length (take n xs) ≡ n
length-take zero xs h = refl
length-take (suc n) [] h = absurd (omega arith)
length-take (suc n) (x ∷ xs) h = omega (arith, length-take n xs)

pub length-drop : (n : ℕ) (xs : Bytes) → length (drop n xs) ≡ length xs - n
length-drop zero xs = omega arith
length-drop (suc n) [] = omega arith
length-drop (suc n) (x ∷ xs) = omega (arith, length-drop n xs)

take-append_left : (n : ℕ) (xs ys : Bytes) → n ≤ length xs → take n (xs ++ ys) ≡ take n xs
take-append_left zero xs ys h = refl
take-append_left (suc n) [] ys h = absurd (omega arith)
take-append_left (suc n) (x ∷ xs) ys h = ap (◌∷◌ x) (take-append_left n xs ys (omega arith))

drop-append_left : (n : ℕ) (xs ys : Bytes) → n ≤ length xs → drop n (xs ++ ys) ≡ drop n xs ++ ys
drop-append_left zero xs ys h = refl
drop-append_left (suc n) [] ys h = absurd (omega arith)
drop-append_left (suc n) (x ∷ xs) ys h = drop-append_left n xs ys (omega arith)

pub take-append_self : (xs ys : Bytes) → take (length xs) (xs ++ ys) ≡ xs
take-append_self [] ys = refl
take-append_self (x ∷ xs) ys = ap (◌∷◌ x) (take-append_self xs ys)

pub drop-append_self : (xs ys : Bytes) → drop (length xs) (xs ++ ys) ≡ ys
drop-append_self [] ys = refl
drop-append_self (x ∷ xs) ys = drop-append_self xs ys

-- The fuel of the loop does not matter once it is enough.
pub block_loop-fuel :
    (f g : ℕ) (state : Words) (p : Bytes)
    → length p < 64 * f + 64
    → length p < 64 * g + 64
    → block_loop f state p ≡ block_loop g state p
unfolding block_loop
block_loop-fuel zero zero state p h k = refl
block_loop-fuel zero (suc g) state p h k = ground arith
block_loop-fuel (suc f) zero state p h k = ground arith
block_loop-fuel (suc f) (suc g) state p h k =
    ground (
      arith,
      block_loop-fuel f g (sha256_transform state (take 64 p)) (drop 64 p),
      length-drop 64 p,
    )

-- All full blocks of a text: the reference for the streaming code.
unfoldable pub absorb : Words → Bytes → Absorbed
absorb state p = block_loop (length p) state p

pub absorb_short :
    (state : Words) (p : Bytes)
    → length p < 64
    → absorb state p ≡ record { words = state; rest = p }
unfolding absorb block_loop
absorb_short state p h = block_loop-fuel (length p) 0 state p (omega arith) (omega arith)

block_loop-suc :
    (f : ℕ) (state : Words) (p : Bytes)
    → 64 ≤ length p
    → block_loop (suc f) state p ≡ block_loop f (sha256_transform state (take 64 p)) (drop 64 p)
unfolding block_loop
block_loop-suc f state p h = rw (le→leb 64 (length p) h) refl

pub absorb_block :
    (state : Words) (p : Bytes)
    → 64 ≤ length p
    → absorb state p ≡ absorb (sha256_transform state (take 64 p)) (drop 64 p)
unfolding absorb
absorb_block state p h =
    block_loop-fuel (length p) (suc (length (drop 64 p))) state p (omega arith)
      (omega (arith, length-drop 64 p, h))
    ∙ block_loop-suc (length (drop 64 p)) state p h

-- Two texts, one behind the other.
pub absorb-append :
    (f : ℕ) (state : Words) (a b : Bytes)
    → length a < 64 * f + 64
    → absorb state (a ++ b) ≡ absorb (absorb state a).words ((absorb state a).rest ++ b)
absorb-append zero state a b h = rw (absorb_short state a (omega arith)) refl
absorb-append (suc f) state a b h = elim (Bool-cases (leb 64 (length a))) [
  | inr e ↦ rw (absorb_short state a (ground arith)) refl
  | inl e ↦
      let full = leb→le 64 (length a) e in
      let left = length-drop 64 a in
      let joined = length-append a b in
      rw
        (
          absorb_block state a full,
          absorb_block state (a ++ b) (omega (arith, joined, full)),
          take-append_left 64 a b full,
          drop-append_left 64 a b full,
        )
        (absorb-append f (sha256_transform state (take 64 a)) (drop 64 a) b
          (omega (arith, left, full)))
]

pub absorb-rest :
    (f : ℕ) (state : Words) (p : Bytes)
    → length p < 64 * f + 64
    → length (absorb state p).rest ≡ length p % 64
absorb-rest zero state p h = rw (absorb_short state p (omega arith)) (omega arith)
absorb-rest (suc f) state p h = elim (Bool-cases (leb 64 (length p))) [
  | inr e ↦
      let short : length p < 64 = ground arith in
      rw (absorb_short state p short) (omega (arith, short))
  | inl e ↦
      let full = leb→le 64 (length p) e in
      let left = length-drop 64 p in
      rw (absorb_block state p full) (
        absorb-rest f (sha256_transform state (take 64 p)) (drop 64 p) (omega (arith, left, full))
        ∙ omega (arith, left, full))
]

-- Copying into a buffer of 64 bytes.
pub length-copy_to :
    (at : ℕ) (bytes buffer : Bytes)
    → length buffer ≡ 64
    → at + length bytes ≤ 64
    → length (copy_to at bytes buffer) ≡ 64
length-copy_to at bytes buffer size fits =
    let head = length-take at buffer (omega (arith, size, fits)) in
    let tail = length-drop (at + length bytes) buffer in
    length-append (take at buffer) (bytes ++ drop (at + length bytes) buffer)
    ∙ omega (arith, head, tail, size, fits, length-append bytes (drop (at + length bytes) buffer))

pub drop_all : (n : ℕ) (xs : Bytes) → length xs ≤ n → drop n xs ≡ []
drop_all zero [] h = refl
drop_all zero (x ∷ xs) h = absurd (omega arith)
drop_all (suc n) [] h = refl
drop_all (suc n) (x ∷ xs) h = drop_all n xs (omega arith)

pub empty : (xs : Bytes) → length xs ≡ 0 → xs ≡ []
empty [] h = refl
empty (x ∷ xs) h = absurd (omega arith)

-- Cutting behind a short text.
pub take_at :
    (n : ℕ) (xs ys : Bytes) → length xs ≤ n → take n (xs ++ ys) ≡ xs ++ take (n - length xs) ys
take_at n [] ys h = ap (λ k. take k ys) (omega arith)
take_at zero (x ∷ xs) ys h = absurd (omega arith)
take_at (suc n) (x ∷ xs) ys h =
    ap (◌∷◌ x) (take_at n xs ys (omega arith) ∙ ap (λ k. xs ++ take k ys) (omega arith))

drop_at : (n : ℕ) (xs ys : Bytes) → length xs ≤ n → drop n (xs ++ ys) ≡ drop (n - length xs) ys
drop_at n [] ys h = ap (λ k. drop k ys) (omega arith)
drop_at zero (x ∷ xs) ys h = absurd (omega arith)
drop_at (suc n) (x ∷ xs) ys h = drop_at n xs ys (omega arith) ∙ ap (λ k. drop k ys) (omega arith)

drop_across : (xs ys : Bytes) → length xs ≤ 64 → drop 64 (xs ++ ys) ≡ drop (64 - length xs) ys
drop_across xs ys h = drop_at 64 xs ys h

take_across : (xs ys : Bytes) → length xs ≤ 64 → take 64 (xs ++ ys) ≡ xs ++ take (64 - length xs) ys
take_across xs ys h = take_at 64 xs ys h

-- What a context is that has taken in `msg`.
pub record HasTaken (msg : Bytes) (ctx : Context) : Type 0 where
  pub state_is : ctx.state ≡ (absorb initial_words msg).words
  pub buffer_is :
      take (length (absorb initial_words msg).rest) ctx.buffer ≡ (absorb initial_words msg).rest
  pub count_is : ctx.count ≡ length msg % 2 ^ 64
  pub size_is : length ctx.buffer ≡ 64

pub sha256_init-HasTaken : (buffer : Bytes) → length buffer ≡ 64 → HasTaken [] (sha256_init buffer)
unfolding sha256_init absorb block_loop
sha256_init-HasTaken buffer size = record {
  state_is = refl;
  buffer_is = refl;
  count_is = refl;
  size_is = size;
}

module _ (state : Words) (p : Bytes) (ctx : Context) (size : length ctx.buffer ≡ 64) where
  absorb_blocks_lem :
      ((absorb_blocks state p ctx).state ≡ (absorb state p).words)
      × (take (length (absorb state p).rest) (absorb_blocks state p ctx).buffer
          ≡ (absorb state p).rest)
      × ((absorb_blocks state p ctx).count ≡ ctx.count)
      × (length (absorb_blocks state p ctx).buffer ≡ 64)
  unfolding absorb_blocks absorb
  absorb_blocks_lem = (
    refl,
    take-append_self (absorb state p).rest (drop (0 + length (absorb state p).rest) ctx.buffer),
    refl,
    length-copy_to 0 (absorb state p).rest ctx.buffer size
        (omega (arith, absorb-rest (length p) state p (omega arith))),
  )

module _ (msg p : Bytes) (ctx : Context) (taken : HasTaken msg ctx) where
  abbrev left : Bytes
  left = (absorb initial_words msg).rest

  at_is : ctx.count % 64 ≡ length left
  at_is =
      let size = absorb-rest (length msg) initial_words msg (omega arith) in
      omega (arith, taken.count_is, size)

  joined : absorb initial_words (msg ++ p) ≡ absorb (absorb initial_words msg).words (left ++ p)
  joined = absorb-append (length msg) initial_words msg p (omega arith)

  count_lem : (ctx.count + length p) % 2 ^ 64 ≡ length (msg ++ p) % 2 ^ 64
  count_lem = omega (arith, taken.count_is, length-append msg p)

  copied :
      (bytes : Bytes)
      → copy_to (length left) bytes ctx.buffer
        ≡ left ++ (bytes ++ drop (length left + length bytes) ctx.buffer)
  copied bytes = rw taken.buffer_is refl

  update_short :
      length left + length p < 64
      → HasTaken (msg ++ p) (record ctx {
        count = (ctx.count + length p) % 2 ^ 64;
        buffer = copy_to (ctx.count % 64) p ctx.buffer;
      })
  update_short short =
      let same : absorb initial_words (msg ++ p)
          ≡ record { words = (absorb initial_words msg).words; rest = left ++ p } =
        joined ∙ absorb_short _ (left ++ p) (omega (arith, length-append left p, short)) in
      let at = at_is in
      let whole : copy_to (ctx.count % 64) p ctx.buffer
          ≡ (left ++ p) ++ drop (length left + length p) ctx.buffer =
        rw at (copied p ∙ sym (append_assoc left p (drop (length left + length p) ctx.buffer))) in
      record {
        state_is = taken.state_is ∙ ap (λ (x : Absorbed). x.words) (sym same);
        buffer_is =
            rw (same, whole)
              (take-append_self (left ++ p) (drop (length left + length p) ctx.buffer));
        count_is = count_lem;
        size_is =
            length-copy_to (ctx.count % 64) p ctx.buffer taken.size_is
              (omega (arith, at_is, short));
      }

  filled : Bytes
  filled = copy_to (ctx.count % 64) (take (64 - ctx.count % 64) p) ctx.buffer

  filled_lem : 64 ≤ length left + length p → filled ≡ left ++ take (64 - length left) p
  unfolding filled
  filled_lem full =
      let at = at_is in
      let rest_size = absorb-rest (length msg) initial_words msg (omega arith) in
      let needed = 64 - length left in
      let sized = length-take needed p (omega (arith, full)) in
      let end : drop (length left + length (take needed p)) ctx.buffer ≡ [] =
        drop_all _ ctx.buffer (omega (arith, taken.size_is, sized, rest_size)) in
      rw at (
        copied (take needed p)
        ∙ ap (λ t. left ++ (take needed p ++ t)) end
        ∙ ap (λ t. left ++ t) (append-nil (take needed p)))

  length-filled : 64 ≤ length left + length p → length filled ≡ 64
  length-filled full =
      let rest_size = absorb-rest (length msg) initial_words msg (omega arith) in
      let sized = length-take (64 - length left) p (omega (arith, full)) in
      rw (filled_lem full)
        (length-append left (take (64 - length left) p) ∙ omega (arith, sized, rest_size))

  refilled :
      64 ≤ length left + length p
      → absorb initial_words (msg ++ p)
        ≡ absorb (sha256_transform ctx.state filled) (drop (64 - ctx.count % 64) p)
  refilled full =
      let at = at_is in
      let state = taken.state_is in
      let rest_size = absorb-rest (length msg) initial_words msg (omega arith) in
      let first = take_across left p (omega (arith, rest_size)) in
      let second = drop_across left p (omega (arith, rest_size)) in
      joined
      ∙ absorb_block _ (left ++ p) (omega (arith, length-append left p, full))
      ∙ rw (first, second, filled_lem full, at, state) refl

  update_full :
      64 ≤ length left + length p
      → HasTaken (msg ++ p) (
          absorb_blocks
            (sha256_transform ctx.state filled)
            (drop (64 - ctx.count % 64) p)
            (record ctx { count = (ctx.count + length p) % 2 ^ 64; buffer = filled }))
  update_full full =
      let same = refilled full in
      let (state_is, buffer_is, count_is, size_is) =
        absorb_blocks_lem (sha256_transform ctx.state filled) (drop (64 - ctx.count % 64) p)
          (record ctx { count = (ctx.count + length p) % 2 ^ 64; buffer = filled })
          (length-filled full) in
      record {
        state_is = state_is ∙ ap (λ (x : Absorbed). x.words) (sym same);
        buffer_is = rw same buffer_is;
        count_is = count_is ∙ count_lem;
        size_is = size_is;
      }

  update_empty :
      length left ≡ 0
      → HasTaken
          (msg ++ p)
          (absorb_blocks ctx.state p (record ctx { count = (ctx.count + length p) % 2 ^ 64 }))
  update_empty e =
      let none_left = empty left e in
      let same : absorb initial_words (msg ++ p) ≡ absorb ctx.state p =
        joined
        ∙ ap (λ t. absorb (absorb initial_words msg).words (t ++ p)) none_left
        ∙ ap (λ w. absorb w p) (sym taken.state_is) in
      let (state_is, buffer_is, count_is, size_is) =
        absorb_blocks_lem ctx.state p (record ctx { count = (ctx.count + length p) % 2 ^ 64 })
          taken.size_is in
      record {
        state_is = state_is ∙ ap (λ (x : Absorbed). x.words) (sym same);
        buffer_is = rw same buffer_is;
        count_is = count_is ∙ count_lem;
        size_is = size_is;
      }

  pub sha256_update-HasTaken : HasTaken (msg ++ p) (sha256_update p ctx)
  unfolding sha256_update filled
  sha256_update-HasTaken =
      let at = at_is in
      let rest_size = absorb-rest (length msg) initial_words msg (omega arith) in
      elim (Bool-cases (ltb 0 (ctx.count % 64))) [
        | inl some_left ↦ elim (Bool-cases (ltb (length p) (64 - ctx.count % 64))) [
          | inl short ↦
              rw (some_left, short)
                (update_short
                  (omega (arith, at, rest_size, ltb→lt (length p) (64 - ctx.count % 64) short)))
          | inr full ↦
              rw (some_left, full)
                (update_full
                  (omega (arith, at, rest_size, ltb→le (length p) (64 - ctx.count % 64) full)))
        ]
        | inr none_left ↦
            rw none_left (update_empty (omega (arith, at, ltb→le 0 (ctx.count % 64) none_left)))
      ]
