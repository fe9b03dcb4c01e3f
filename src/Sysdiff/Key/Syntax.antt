-- ===== src/Sysdiff/Key/Syntax.antt =====
-- The syntax of keys as the snapshot format documents it, and `is_valid_key`.
use linux_utilities.Common.{
  ℕ, ◌≤◌, ◌≡◌, ◌≢◌, ◌↔◌, ◌⊎◌, inl, inr, refl, ap, ◌∙◌, Bool, true, false, not, ◌&&◌, ◌||◌, [], ◌∷◌,
  ◌++◌, ◌==◌, All, any, Bool-cases, arith, Bytes,
}
use linux_utilities.Sysdiff.Key.{
  is_key_byte, key_loop, is_valid_key, ends_with, begins_with, is_empty,
}
use linux_utilities.Sysdiff.Key.KeyBytes.{ends_with-concat}

-- Letters, digits, dot, underscore, hyphen and slash.
pub data IsKeyByte (c : ℕ) : Type 0 where
  upper : b'A' ≤ c → c ≤ b'Z' → IsKeyByte c
  lower : b'a' ≤ c → c ≤ b'z' → IsKeyByte c
  digit : b'0' ≤ c → c ≤ b'9' → IsKeyByte c
  mark : (c ≡ b'.') ⊎ (c ≡ b'_') ⊎ (c ≡ b'-') ⊎ (c ≡ b'/') → IsKeyByte c

-- The documented rules.
pub record IsKey (key : Bytes) : Type 0 where
  pub bytes : All IsKeyByte key
  pub has_dot : (xs : Bytes) × (ys : Bytes) × (key ≡ xs ++ b'.' ∷ ys)
  pub no_double_dot : (xs ys : Bytes) → key ≢ xs ++ (b'.' ∷ b'.' ∷ ys)
  pub no_leading_slash : (ys : Bytes) → key ≢ b'/' ∷ ys
  pub no_trailing_dot : (xs : Bytes) → key ≢ xs ++ b'.' ∷ []

IsKeyByte-complete : (c : ℕ) → IsKeyByte c → is_key_byte c ≡ true
unfolding is_key_byte
IsKeyByte-complete c (upper a b) = ground arith
IsKeyByte-complete c (lower a b) = ground arith
IsKeyByte-complete c (digit a b) = ground arith
IsKeyByte-complete c (mark m) = ground arith

-- The four groups, one test each.
KeyByte-cases :
    (c : ℕ)
    → is_key_byte c ≡ true
    → ((b'A' ≤ c) × (c ≤ b'Z'))
      ⊎ ((b'a' ≤ c) × (c ≤ b'z'))
      ⊎ ((b'0' ≤ c) × (c ≤ b'9'))
      ⊎ ((c ≡ b'.') ⊎ (c ≡ b'_') ⊎ (c ≡ b'-') ⊎ (c ≡ b'/'))
unfolding is_key_byte
KeyByte-cases c h = ground arith

is_key_byte_sound : (c : ℕ) → is_key_byte c ≡ true → IsKeyByte c
is_key_byte_sound c h = elim (KeyByte-cases c h) [
  | inl r ↦ upper r.0 r.1
  | inr (inl r) ↦ lower r.0 r.1
  | inr (inr (inl r)) ↦ digit r.0 r.1
  | inr (inr (inr m)) ↦ mark m
]

double_dot : Bool → Bytes → Bool
double_dot prev [] = false
double_dot prev (c ∷ key) = c == b'.' && prev || double_dot (c == b'.') key

all_key_bytes : Bytes → Bool
all_key_bytes [] = true
all_key_bytes (c ∷ key) = is_key_byte c && all_key_bytes key

abbrev is_dot : ℕ → Bool
is_dot c = c == b'.'

key_loop_lem :
    (prev saw : Bool) (key : Bytes)
    → key_loop prev saw key
      ≡ (all_key_bytes key && (not (double_dot prev key) && (saw || any is_dot key)))
unfolding key_loop all_key_bytes double_dot
key_loop_lem prev saw [] = ground arith
key_loop_lem prev saw (c ∷ key) = ground (arith, key_loop_lem (c == b'.') (saw || c == b'.') key)

all_key_bytes_sound : (key : Bytes) → all_key_bytes key ≡ true → All IsKeyByte key
unfolding all_key_bytes
all_key_bytes_sound [] h = tt
all_key_bytes_sound (c ∷ key) h =
    (is_key_byte_sound c (ground arith), all_key_bytes_sound key (ground arith))

all_key_bytes_complete : (key : Bytes) → All IsKeyByte key → all_key_bytes key ≡ true
unfolding all_key_bytes
all_key_bytes_complete [] h = refl
all_key_bytes_complete (c ∷ key) h =
    ground (arith, IsKeyByte-complete c h.0, all_key_bytes_complete key h.1)

any_dot_sound :
    (key : Bytes) → any is_dot key ≡ true → (xs : Bytes) × (ys : Bytes) × (key ≡ xs ++ b'.' ∷ ys)
any_dot_sound [] h = absurd (ground arith)
any_dot_sound (c ∷ key) h = elim (Bool-cases (c == b'.')) [
  | inl dot ↦ ([], key, ground arith)
  | inr other ↦ let (xs, ys, e) = any_dot_sound key (ground arith) in (c ∷ xs, ys, ap (◌∷◌ c) e)
]

double_dot_sound :
    (key : Bytes)
    → double_dot false key ≡ true
    → (xs : Bytes) × (ys : Bytes) × (key ≡ xs ++ (b'.' ∷ b'.' ∷ ys))
unfolding double_dot
double_dot_sound [] h = absurd (ground arith)
double_dot_sound (c ∷ []) h = absurd (ground arith)
double_dot_sound (c ∷ d ∷ key) h = elim (Bool-cases (c == b'.' && d == b'.')) [
  | inl dots ↦ ([], key, ground arith)
  | inr other ↦
      let (xs, ys, e) = double_dot_sound (d ∷ key) (ground arith) in (c ∷ xs, ys, ap (◌∷◌ c) e)
]

double_dot_complete :
    (prev : Bool) (xs ys : Bytes) → double_dot prev (xs ++ (b'.' ∷ b'.' ∷ ys)) ≡ true
unfolding double_dot
double_dot_complete prev [] ys = ground arith
double_dot_complete prev (c ∷ xs) ys = ground (arith, double_dot_complete (c == b'.') xs ys)

ends_with_sound :
    (c : ℕ) (key : Bytes) → ends_with c key ≡ true → (xs : Bytes) × (key ≡ xs ++ c ∷ [])
unfolding ends_with
ends_with_sound c [] h = absurd (ground arith)
ends_with_sound c (x ∷ []) h = ([], ground arith)
ends_with_sound c (x ∷ y ∷ key) h =
    let (xs, e) = ends_with_sound c (y ∷ key) h in (x ∷ xs, ap (◌∷◌ x) e)

-- `is_valid_key` as its five tests.
is_valid_key_lem :
    (key : Bytes)
    → is_valid_key key ≡ (
        not (is_empty key || begins_with b'/' key || ends_with b'.' key)
        && (all_key_bytes key && (not (double_dot false key) && any is_dot key)))
unfolding is_valid_key
is_valid_key_lem key = ground (arith, key_loop_lem false false key)

begins_with_sound : (c : ℕ) (key : Bytes) → begins_with c key ≡ true → (ys : Bytes) × (key ≡ c ∷ ys)
unfolding begins_with
begins_with_sound c [] h = absurd (ground arith)
begins_with_sound c (x ∷ key) h = (key, ground arith)

IsKey-sound : (key : Bytes) → is_valid_key key ≡ true → IsKey key
unfolding begins_with
IsKey-sound key h =
    let tests = is_valid_key_lem key in
    record {
      bytes = all_key_bytes_sound key (ground arith);
      has_dot = any_dot_sound key (ground arith);
      no_double_dot = λ xs ys e.
          absurd (ground (arith, ap (double_dot false) e, double_dot_complete false xs ys));
      no_leading_slash = λ ys e. absurd (ground (arith, ap (begins_with b'/') e));
      no_trailing_dot =
          λ xs e. absurd (ground (arith, ap (ends_with b'.') e, ends_with-concat b'.' xs));
    }

not_true : (b : Bool) → ¬ (b ≡ true) → b ≡ false
not_true true h = absurd (h refl)
not_true false h = refl

any_dot_complete : (xs ys : Bytes) → any is_dot (xs ++ b'.' ∷ ys) ≡ true
any_dot_complete [] ys = ground arith
any_dot_complete (c ∷ xs) ys = ground (arith, any_dot_complete xs ys)

not_empty_of_dot : (key : Bytes) → any is_dot key ≡ true → is_empty key ≡ false
unfolding is_empty
not_empty_of_dot [] h = absurd (ground arith)
not_empty_of_dot (c ∷ key) h = refl

IsKey-complete : (key : Bytes) → IsKey key → is_valid_key key ≡ true
IsKey-complete key k =
    let (xs, ys, dot) = k.has_dot in
    let found : any is_dot key ≡ true = ap (any is_dot) dot ∙ any_dot_complete xs ys in
    let no_double =
      not_true (double_dot false key)
        λ h. let (us, vs, e) = double_dot_sound key h in k.no_double_dot us vs e in
    let no_slash =
      not_true (begins_with b'/' key)
        λ h. let (us, e) = begins_with_sound b'/' key h in k.no_leading_slash us e in
    let no_end =
      not_true (ends_with b'.' key)
        λ h. let (us, e) = ends_with_sound b'.' key h in k.no_trailing_dot us e in
    is_valid_key_lem key
    ∙ ground (
      arith,
      found,
      not_empty_of_dot key,
      no_double,
      no_slash,
      no_end,
      all_key_bytes_complete key k.bytes,
    )

-- The code accepts exactly the documented keys: letters, digits, dot, underscore, hyphen and slash,
-- with at least one dot, no two dots in a row, no leading slash and no trailing dot.
pub is_valid_key_iff : (key : Bytes) → (is_valid_key key ≡ true) ↔ IsKey key
is_valid_key_iff key = (IsKey-sound key, IsKey-complete key)
