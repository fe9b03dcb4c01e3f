-- ===== src/Treehash/Sha256/Final.antt =====
-- `sha256_final`: the padding of the standard, in one block or two.
use linux_utilities.Common.{
  List, ℕ, zero, suc, ◌+◌, ◌-◌, ◌*◌, ◌%◌, ◌^◌, ◌≤◌, ◌<◌, ◌≡◌, refl, sym, ap, ◌∙◌, [], ◌∷◌, ◌++◌,
  ltb, ltb→lt, ltb→le, length, length-append, append_assoc, append-nil, take, drop, Bytes,
  Bool-cases, inl, inr, arith,
}
use linux_utilities.Treehash.Sha256.{
  Words, sha256_transform, Context, initial_words, copy_to, Absorbed, zeros, big_endian, digest,
  pad_block, sha256_final, sha256_init, sha256_update,
}
use linux_utilities.Treehash.Sha256.Stream.{
  absorb, absorb_short, absorb_block, absorb-append, absorb-rest, take-append_self, length-copy_to,
  drop_all, HasTaken, sha256_init-HasTaken, sha256_update-HasTaken,
}

-- The number of zero bytes of the padding.
abbrev pub zero_count : ℕ → ℕ
zero_count n = (119 - n % 64) % 64

-- The message with its padding, in full blocks.
unfoldable pub padding : ℕ → Bytes
padding n = (0x80 ∷ zeros (zero_count n)) ++ big_endian 8 (n * 8 % 2 ^ 64)

-- SHA-256 of a message: its blocks one after the other.
unfoldable pub sha256 : Bytes → Bytes
sha256 msg = digest (absorb initial_words (msg ++ padding (length msg))).words

-- A buffer that begins with a text.
abbrev Begins : Bytes → Bytes → Type 0
Begins r buffer = take (length r) buffer ≡ r

copy_to-Begins :
    (r bytes buffer : Bytes)
    → Begins r buffer
    → Begins (r ++ bytes) (copy_to (length r) bytes buffer)
copy_to-Begins r bytes buffer h =
    rw (h, ← append_assoc r bytes (drop (length r + length bytes) buffer))
      (take-append_self (r ++ bytes) (drop (length r + length bytes) buffer))

take_all : (xs : Bytes) → take (length xs) xs ≡ xs
take_all [] = refl
take_all (x ∷ xs) = ap (◌∷◌ x) (take_all xs)

-- A full buffer is what it begins with.
Begins-full : (r buffer : Bytes) → length buffer ≡ length r → Begins r buffer → buffer ≡ r
Begins-full r buffer e h = sym (take_all buffer) ∙ ap (λ n. take n buffer) e ∙ h

length-zeros : (n : ℕ) → length (zeros n) ≡ n
length-zeros zero = refl
length-zeros (suc n) = omega (arith, length-zeros n)

zeros-add : (n m : ℕ) → zeros (n + m) ≡ zeros n ++ zeros m
zeros-add zero m = ap zeros (omega arith)
zeros-add (suc n) m =
    let e : suc n + m ≡ suc (n + m) = omega arith in rw e (ap (◌∷◌ 0) (zeros-add n m))

length-big_endian : (n value : ℕ) → length (big_endian n value) ≡ n
length-big_endian zero value = refl
length-big_endian (suc n) value = omega (arith, length-big_endian n value)

-- One block.
absorb_one :
    (state : Words) (p : Bytes)
    → length p ≡ 64
    → absorb state p ≡ record { words = sha256_transform state p; rest = [] }
absorb_one state p h =
    let whole : take 64 p ≡ p = ap (λ n. take n p) (sym h) ∙ take_all p in
    let none_left = drop_all 64 p (omega (arith, h)) in
    rw (absorb_block state p (omega (arith, h)), whole, none_left)
      (absorb_short (sha256_transform state p) [] (omega arith))

absorb_two :
    (state : Words) (p q : Bytes)
    → length p ≡ 64
    → length q ≡ 64
    → (absorb state (p ++ q)).words ≡ sha256_transform (sha256_transform state p) q
absorb_two state p q h k =
    rw
      (
        absorb-append 1 state p q (omega (arith, h)),
        absorb_one state p h,
        absorb_one (sha256_transform state p) q k,
      )
      refl

-- A buffer of 64 bytes that begins with a text.
Filled : Bytes → Bytes → Type 0
Filled r buffer = Begins r buffer × (length buffer ≡ 64)

write :
    (at : ℕ) (r bytes buffer : Bytes)
    → Filled r buffer
    → at ≡ length r
    → length r + length bytes ≤ 64
    → Filled (r ++ bytes) (copy_to at bytes buffer)
unfolding Filled
write at r bytes buffer (begins, size) e fits =
    rw e (copy_to-Begins r bytes buffer begins, length-copy_to (length r) bytes buffer size fits)

unfilled : (r buffer : Bytes) → Filled r buffer → Filled [] buffer
unfolding Filled
unfilled r buffer (begins, size) = (refl, size)

whole_block : (r buffer : Bytes) → Filled r buffer → length r ≡ 64 → buffer ≡ r
unfolding Filled
whole_block r buffer (begins, size) e = Begins-full r buffer (omega (arith, size, e)) begins

-- The two ways of padding: `r` are the bytes that are left in the buffer.
module _ (state : Words) (r buffer len : Bytes) (start : Filled r buffer)
    (eight : length len ≡ 8) where
  abbrev marked : Bytes
  marked = copy_to (length r) (0x80 ∷ []) buffer

  length-marked : length (r ++ 0x80 ∷ []) ≡ length r + 1
  length-marked = length-append r (0x80 ∷ [])

  zeroed :
      (n : ℕ)
      → length r + 1 + n ≤ 64
      → Filled ((r ++ 0x80 ∷ []) ++ zeros n) (copy_to (length r + 1) (zeros n) marked)
  zeroed n fits =
      write (length r + 1) (r ++ 0x80 ∷ []) (zeros n) marked
        (write (length r) r (0x80 ∷ []) buffer start refl (omega (arith, fits))) (sym length-marked)
        (omega (arith, length-marked, length-zeros n, fits))

  length-zeroed : (n : ℕ) → length ((r ++ 0x80 ∷ []) ++ zeros n) ≡ length r + 1 + n
  length-zeroed n =
      length-append (r ++ 0x80 ∷ []) (zeros n) ∙ omega (arith, length-marked, length-zeros n)

  one_block :
      (n : ℕ)
      → length r + 1 + n ≡ 56
      → sha256_transform state (copy_to 56 len (copy_to (length r + 1) (zeros n) marked))
        ≡ (absorb state (((r ++ 0x80 ∷ []) ++ zeros n) ++ len)).words
  one_block n e =
      let size : length (((r ++ 0x80 ∷ []) ++ zeros n) ++ len) ≡ 64 =
        length-append ((r ++ 0x80 ∷ []) ++ zeros n) len
        ∙ omega (arith, length-zeroed n, e, eight) in
      let block =
        whole_block _ _
          (write 56 ((r ++ 0x80 ∷ []) ++ zeros n) len _ (zeroed n (omega (arith, e)))
            (omega (arith, length-zeroed n, e)) (omega (arith, length-zeroed n, e, eight)))
          size in
      rw (block, absorb_one state (((r ++ 0x80 ∷ []) ++ zeros n) ++ len) size) refl

  two_blocks :
      (n : ℕ)
      → length r + 1 + n ≡ 64
      → (let full = copy_to (length r + 1) (zeros n) marked in
          sha256_transform
            (sha256_transform state full)
            (copy_to 56 len (copy_to 0 (zeros 56) full)))
        ≡ (absorb state (((r ++ 0x80 ∷ []) ++ zeros n) ++ (zeros 56 ++ len))).words
  two_blocks n e =
      let full = copy_to (length r + 1) (zeros n) marked in
      let filled = zeroed n (omega (arith, e)) in
      let first = whole_block _ full filled (length-zeroed n ∙ e) in
      let second_size : length (zeros 56 ++ len) ≡ 64 =
        length-append (zeros 56) len ∙ omega (arith, eight, length-zeros 56) in
      let second =
        whole_block _ _
          (write 56 (zeros 56) len (copy_to 0 (zeros 56) full)
            (write 0 [] (zeros 56) full (unfilled _ full filled) refl
              (omega (arith, length-zeros 56)))
            (sym (length-zeros 56)) (omega (arith, length-zeros 56, eight)))
          second_size in
      let both =
        absorb_two state ((r ++ 0x80 ∷ []) ++ zeros n) (zeros 56 ++ len) (length-zeroed n ∙ e)
          second_size in
      rw (both, second, first) refl

  pad_lem :
      length r < 64
      → (let padded = pad_block state buffer (length r) in
          sha256_transform padded.words (copy_to 56 len padded.rest))
        ≡ (absorb state (r ++ ((0x80 ∷ zeros (zero_count (length r))) ++ len))).words
  unfolding pad_block
  pad_lem short = elim (Bool-cases (ltb 56 (length r + 1))) [
    | inl two ↦
        let n = 64 - (length r + 1) in
        let long = ltb→lt 56 (length r + 1) two in
        let count : zero_count (length r) ≡ n + 56 = omega (arith, short, long) in
        rw (two, count, zeros-add n 56)
          (two_blocks n (omega (arith, short))
            ∙ ap (λ t. (absorb state t).words) (regroup (zeros n) (zeros 56)))
    | inr one ↦
        let n = 56 - (length r + 1) in
        let fits = ltb→le 56 (length r + 1) one in
        let count : zero_count (length r) ≡ n = omega (arith, fits) in
        rw (one, count)
          (one_block n (omega (arith, fits))
            ∙ ap (λ t. (absorb state t).words) (regroup_one (zeros n)))
  ]
    where
      regroup :
          (a b : Bytes) → ((r ++ 0x80 ∷ []) ++ a) ++ (b ++ len) ≡ r ++ ((0x80 ∷ (a ++ b)) ++ len)
      regroup a b = simp (append_assoc)

      regroup_one : (a : Bytes) → ((r ++ 0x80 ∷ []) ++ a) ++ len ≡ r ++ ((0x80 ∷ a) ++ len)
      regroup_one a = simp (append_assoc)

final_of : Words → Bytes → ℕ → Bytes → Bytes
final_of state buffer at len =
    let padded = pad_block state buffer at in
    digest (sha256_transform padded.words (copy_to 56 len padded.rest))

sha256_final-of :
    (ctx : Context)
    → sha256_final ctx
      ≡ final_of ctx.state ctx.buffer (ctx.count % 64) (big_endian 8 (ctx.count * 8 % 2 ^ 64))
unfolding sha256_final final_of
sha256_final-of ctx = refl

final_of-sha256 :
    (msg buffer : Bytes)
    → Filled (absorb initial_words msg).rest buffer
    → final_of
        (absorb initial_words msg).words
        buffer
        (length (absorb initial_words msg).rest)
        (big_endian 8 (length msg * 8 % 2 ^ 64))
      ≡ sha256 msg
unfolding sha256 final_of padding
final_of-sha256 msg buffer start =
    let left = (absorb initial_words msg).rest in
    let size = absorb-rest (length msg) initial_words msg (omega arith) in
    let zeros_same : zero_count (length msg) ≡ zero_count (length left) = omega (arith, size) in
    let pad =
      pad_lem (absorb initial_words msg).words left buffer (big_endian 8 (length msg * 8 % 2 ^ 64))
        start (length-big_endian 8 (length msg * 8 % 2 ^ 64)) (omega (arith, size)) in
    ap digest (
      pad
      ∙ ap
          (λ z.
            (absorb (absorb initial_words msg).words
              (left ++ ((0x80 ∷ zeros z) ++ big_endian 8 (length msg * 8 % 2 ^ 64)))).words)
          (sym zeros_same)
      ∙ ap (λ (x : Absorbed). x.words)
          (sym (
            absorb-append (length msg) initial_words msg
              ((0x80 ∷ zeros (zero_count (length msg))) ++ big_endian 8 (length msg * 8 % 2 ^ 64))
              (omega arith))))

-- Behind any calls of `sha256_update`, `sha256_final` computes the digest of all that they were given.
pub sha256_final-HasTaken :
    (msg : Bytes) (ctx : Context) → HasTaken msg ctx → sha256_final ctx ≡ sha256 msg
unfolding Filled
sha256_final-HasTaken msg ctx taken =
    let size = absorb-rest (length msg) initial_words msg (omega arith) in
    let at : ctx.count % 64 ≡ length (absorb initial_words msg).rest =
      omega (arith, taken.count_is, size) in
    let bits : ctx.count * 8 % 2 ^ 64 ≡ length msg * 8 % 2 ^ 64 = omega (arith, taken.count_is) in
    let state = taken.state_is in
    sha256_final-of ctx
    ∙ ap (λ w. final_of w ctx.buffer (ctx.count % 64) (big_endian 8 (ctx.count * 8 % 2 ^ 64))) state
    ∙ ap
        (λ k.
          final_of (absorb initial_words msg).words ctx.buffer k
            (big_endian 8 (ctx.count * 8 % 2 ^ 64)))
        at
    ∙ ap
        (λ k.
          final_of (absorb initial_words msg).words ctx.buffer
            (length (absorb initial_words msg).rest) (big_endian 8 k))
        bits
    ∙ final_of-sha256 msg ctx.buffer (taken.buffer_is, taken.size_is)

-- The calls of `sha256_update` for some pieces.
unfoldable pub update_all : List Bytes → Context → Context
update_all [] ctx = ctx
update_all (p ∷ pieces) ctx = update_all pieces (sha256_update p ctx)

unfoldable pub joined_pieces : List Bytes → Bytes
joined_pieces [] = []
joined_pieces (p ∷ pieces) = p ++ joined_pieces pieces

update_all-HasTaken :
    (pieces : List Bytes) (msg : Bytes) (ctx : Context)
    → HasTaken msg ctx
    → HasTaken (msg ++ joined_pieces pieces) (update_all pieces ctx)
unfolding update_all joined_pieces
update_all-HasTaken [] msg ctx taken = rw (append-nil msg) taken
update_all-HasTaken (p ∷ pieces) msg ctx taken = rw (← append_assoc msg p (joined_pieces pieces)) (
    update_all-HasTaken pieces (msg ++ p) (sha256_update p ctx)
      (sha256_update-HasTaken msg p ctx taken))

-- However a message is cut into calls of `sha256_update`, the digest is that of the whole message.
pub sha256_final-update_all :
    (pieces : List Bytes) (buffer : Bytes)
    → length buffer ≡ 64
    → sha256_final (update_all pieces (sha256_init buffer)) ≡ sha256 (joined_pieces pieces)
sha256_final-update_all pieces buffer size =
    sha256_final-HasTaken (joined_pieces pieces) (update_all pieces (sha256_init buffer))
      (update_all-HasTaken pieces [] (sha256_init buffer) (sha256_init-HasTaken buffer size))
