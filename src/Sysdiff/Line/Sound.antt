-- ===== src/Sysdiff/Line/Sound.antt =====
-- What `read_line` returns when it returns a line.
use linux_utilities.Common.{
  ℕ, ◌+◌, ◌*◌, ◌≤◌, ◌<◌, ◌≡◌, ◌≢◌, ◌⊎◌, inl, inr, refl, ap, ◌∙◌, Bool, [], ◌∷◌, ◌++◌, some, ◌==◌,
  All, Bool-cases, Option-cases, length, length-append, append_assoc, append-nil, arith, Bytes,
}
use linux_utilities.Sysdiff.Line.{
  line_ok, Reader, LineResult, grow, read_loop, read_line, max_line_bytes, max_snapshot_bytes,
}

-- No terminator of a C string and no newline.
abbrev pub IsClean : Bytes → Type 0
IsClean = All (λ c. (c ≢ 0) × (c ≢ b'\n'))

-- The buffer: not allocated yet, or with room for a terminator behind the bytes.
abbrev pub Buffered : ℕ → ℕ → Type 0
Buffered len cap = ((len ≡ 0) × (cap ≡ 0)) ⊎ ((128 ≤ cap) × (len < cap) × (cap ≤ 2 * len + 128))

-- After the growth there is room for one more byte and a terminator.
pub grow-Buffered :
    (len cap memory : ℕ) {cap' m : ℕ}
    → Buffered len cap
    → grow len cap memory ≡ some (cap', m)
    → (len + 1 < cap') × (128 ≤ cap') × (cap' ≤ 2 * (len + 1) + 128)
unfolding grow
grow-Buffered len cap memory b h = ground arith

module _ (ch : ℕ) (unread : Bytes) (failing : Bool) (total memory : ℕ) (line : Bytes)
    (len cap : ℕ) where
  -- The two ways on from a byte that is stored.
  pub data Stored (r : LineResult) : Type 0 where
    newline :
        (cap' m : ℕ)
        → grow len cap memory ≡ some (cap', m)
        → ch ≡ b'\n'
        → r ≡ record {
          status = line_ok;
          line = line ++ ch ∷ [];
          cap = cap';
          reader = record {
            unread = unread;
            failing = failing;
            total_bytes = total + 1;
            memory = m;
          };
        }
        → Stored r
    further :
        (cap' m : ℕ)
        → grow len cap memory ≡ some (cap', m)
        → ch ≢ b'\n'
        → len ≤ max_line_bytes
        → r ≡ read_loop unread failing (total + 1) m (line ++ ch ∷ []) (len + 1) cap'
        → Stored r

  read_loop-Stored :
      (read_loop (ch ∷ unread) failing total memory line len cap).status ≡ line_ok
      → (ch ≢ 0)
        × (total < max_snapshot_bytes)
        × Stored (read_loop (ch ∷ unread) failing total memory line len cap)
  unfolding read_loop
  read_loop-Stored h = elim (Option-cases (grow len cap memory)) [
    | inl e ↦ absurd (ground arith)
    | inr ((cap', m), e) ↦ elim (Bool-cases (ch == b'\n')) [
      | inl nl ↦ (ground arith, ground arith, newline cap' m e (ground arith) (ground arith))
      | inr more ↦ (
        ground arith,
        ground arith,
        further cap' m e (ground arith) (ground arith) (ground arith),
      )
    ]
  ]

-- The line that `read_line` returned: bytes taken from the input in order, with no NUL byte, up to
-- and with the first newline or to the end of the input; counted, within the limits and stored
-- within the buffer, its terminator included.
pub record Taken (unread line : Bytes) (total : ℕ) (r : LineResult) : Type 0 where
  pub clean : Bytes
  pub tail : Bytes
  pub is_clean : IsClean clean
  pub tail_is : (tail ≡ b'\n' ∷ []) ⊎ ((tail ≡ []) × (r.reader.unread ≡ []))
  pub line_is : r.line ≡ line ++ (clean ++ tail)
  pub unread_is : unread ≡ (clean ++ tail) ++ r.reader.unread
  pub counted : r.reader.total_bytes ≡ total + length (clean ++ tail)
  pub within_total : r.reader.total_bytes ≤ max_snapshot_bytes
  pub within_line : length line + length clean ≤ max_line_bytes + 1
  pub in_buffer : length r.line < r.cap
  pub not_empty : 0 < length r.line

module _ (ch : ℕ) (unread line : Bytes) (total : ℕ) where
  Taken-newline :
      {r : LineResult} (cap' m : ℕ) (failing : Bool)
      → ch ≡ b'\n'
      → length line ≤ max_line_bytes + 1
      → total < max_snapshot_bytes
      → length line + 1 < cap'
      → r ≡ record {
        status = line_ok;
        line = line ++ ch ∷ [];
        cap = cap';
        reader = record { unread = unread; failing = failing; total_bytes = total + 1; memory = m };
      }
      → Taken (ch ∷ unread) line total r
  Taken-newline {r} cap' m failing nl within room fits e = record {
    clean = [];
    tail = b'\n' ∷ [];
    is_clean = tt;
    tail_is = inl refl;
    line_is = ground arith;
    unread_is = ground arith;
    counted = ground arith;
    within_total = ground arith;
    within_line = omega arith;
    in_buffer = ground (arith, length-append line (ch ∷ []));
    not_empty = ground (arith, length-append line (ch ∷ []));
  }

  Taken-further :
      {r : LineResult}
      → ch ≢ 0
      → ch ≢ b'\n'
      → Taken unread (line ++ ch ∷ []) (total + 1) r
      → Taken (ch ∷ unread) line total r
  Taken-further {r} nz nl t = record {
    clean = ch ∷ t.clean;
    tail = t.tail;
    is_clean = ((nz, nl), t.is_clean);
    tail_is = t.tail_is;
    line_is = t.line_is ∙ append_assoc line (ch ∷ []) (t.clean ++ t.tail);
    unread_is = ap (◌∷◌ ch) t.unread_is;
    counted = omega (arith, t.counted);
    within_total = t.within_total;
    within_line = omega (arith, t.within_line, length-append line (ch ∷ []));
    in_buffer = t.in_buffer;
    not_empty = t.not_empty;
  }

Taken-end :
    (failing : Bool) (total memory : ℕ) (line : Bytes) (len cap : ℕ)
    → len ≡ length line
    → Buffered len cap
    → len ≤ max_line_bytes + 1
    → total ≤ max_snapshot_bytes
    → (read_loop [] failing total memory line len cap).status ≡ line_ok
    → Taken [] line total (read_loop [] failing total memory line len cap)
unfolding read_loop
Taken-end failing total memory line len cap l b within room h = record {
  clean = [];
  tail = [];
  is_clean = tt;
  tail_is = inr (refl, ground arith);
  line_is = ground (arith, append-nil line);
  unread_is = ground arith;
  counted = ground arith;
  within_total = ground arith;
  within_line = omega arith;
  in_buffer = ground arith;
  not_empty = ground arith;
}

pub read_loop-Taken :
    (unread : Bytes) (failing : Bool) (total memory : ℕ) (line : Bytes) (len cap : ℕ)
    → len ≡ length line
    → Buffered len cap
    → len ≤ max_line_bytes + 1
    → total ≤ max_snapshot_bytes
    → (read_loop unread failing total memory line len cap).status ≡ line_ok
    → Taken unread line total (read_loop unread failing total memory line len cap)
read_loop-Taken [] failing total memory line len cap l b within room h =
    Taken-end failing total memory line len cap l b within room h
read_loop-Taken (ch ∷ unread) failing total memory line len cap l b within room h =
    let (nz, more, stored) = read_loop-Stored ch unread failing total memory line len cap h in
    go nz more stored
      (λ cap' m. read_loop-Taken unread failing (total + 1) m (line ++ ch ∷ []) (len + 1) cap')
  where
    go :
        ch ≢ 0
        → total < max_snapshot_bytes
        → Stored ch unread failing total memory line len cap
            (read_loop (ch ∷ unread) failing total memory line len cap)
        → ((cap' m : ℕ)
            → len + 1 ≡ length (line ++ ch ∷ [])
            → Buffered (len + 1) cap'
            → len + 1 ≤ max_line_bytes + 1
            → total + 1 ≤ max_snapshot_bytes
            → (read_loop unread failing (total + 1) m (line ++ ch ∷ []) (len + 1) cap').status
              ≡ line_ok
            → Taken unread
                (line ++ ch ∷ [])
                (total + 1)
                (read_loop unread failing (total + 1) m (line ++ ch ∷ []) (len + 1) cap'))
        → Taken (ch ∷ unread) line total (read_loop (ch ∷ unread) failing total memory line len cap)
    go nz more (newline cap' m grown nl e) ih =
        Taken-newline ch unread line total cap' m failing nl (omega arith) more
          (omega (arith, (grow-Buffered len cap memory b grown).0)) e
    go nz more (further cap' m grown nl short e) ih =
        let (r1, r2, r3) = grow-Buffered len cap memory b grown in
        Taken-further ch unread line total nz nl (
          rw e (
            ih cap' m (omega (arith, length-append line (ch ∷ []))) (inr (r2, omega arith, r3))
              (omega arith) (omega arith) (rw e at h)))

-- Whenever `read_line` returns a line, it has consumed exactly the bytes up to and with the next
-- newline, or all that were left, none of them NUL; it has counted each of them, kept within the
-- byte limit and one byte above the line limit, and the line with its terminator lies within the
-- buffer, whatever the allocator does.
pub read_line_sound :
    (r : Reader)
    → r.total_bytes ≤ max_snapshot_bytes
    → (read_line r).status ≡ line_ok
    → Taken r.unread [] r.total_bytes (read_line r)
unfolding read_line
read_line_sound r room h =
    read_loop-Taken r.unread r.failing r.total_bytes r.memory [] 0 0 refl (inl (refl, refl))
      (omega arith) room h

-- A line that is returned has shortened the input.
pub read_line_shortens :
    (r : Reader)
    → r.total_bytes ≤ max_snapshot_bytes
    → (read_line r).status ≡ line_ok
    → (length (read_line r).reader.unread < length r.unread)
      × ((read_line r).reader.total_bytes ≤ max_snapshot_bytes)
read_line_shortens r room h =
    let t = read_line_sound r room h in
    let consumed = t.clean ++ t.tail in
    let rest = (read_line r).reader.unread in
    (
      omega (
        arith,
        ap length t.line_is,
        ap length t.unread_is,
        t.not_empty,
        length-append consumed rest,
      ),
      t.within_total,
    )
