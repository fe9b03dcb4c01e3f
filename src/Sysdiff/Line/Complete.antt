-- ===== src/Sysdiff/Line/Complete.antt =====
-- When `read_line` returns the next line.
use linux_utilities.Common.{
  ℕ, ◌+◌, ◌≤◌, ◌<◌, ◌≡◌, ◌≢◌, inl, inr, refl, ◌∙◌, Bool, false, [], ◌∷◌, ◌++◌, Option, none, some,
  Option-cases, length, append_assoc, arith, Bytes,
}
use linux_utilities.Common.Memory.{Memory}
use linux_utilities.Sysdiff.Line.{
  line_ok, line_eof, Reader, LineResult, grow, read_loop, read_line, max_line_bytes,
  max_snapshot_bytes,
}
use linux_utilities.Sysdiff.Line.Sound.{IsClean, Buffered, grow-Buffered}

-- The buffer has grown, at the cost of at most one call of the allocator.
abbrev pub Grows : Memory → Option (ℕ × Memory) → Type 0
Grows memory none = ⊥
Grows memory (some (cap, m)) = memory ≤ m + 1

grow-Grows :
    (len cap memory : ℕ)
    → Buffered len cap
    → len ≤ max_line_bytes + 1
    → 0 < memory
    → Grows memory (grow len cap memory)
unfolding grow
grow-Grows len cap memory b short enough = ground arith

-- A line that was read up to its newline.
pub record Read (xs rest : Bytes) (failing : Bool) (total memory : ℕ) (line : Bytes)
    (r : LineResult) : Type 0 where
  pub status_is : r.status ≡ line_ok
  pub line_is : r.line ≡ line ++ (xs ++ b'\n' ∷ [])
  pub unread_is : r.reader.unread ≡ rest
  pub failing_is : r.reader.failing ≡ failing
  pub total_is : r.reader.total_bytes ≡ total + length xs + 1
  pub memory_left : memory ≤ r.reader.memory + length xs + 1

read_loop-newline :
    (rest : Bytes) (failing : Bool) (total memory : ℕ) (line : Bytes) (len cap cap' m : ℕ)
    → grow len cap memory ≡ some (cap', m)
    → total < max_snapshot_bytes
    → memory ≤ m + 1
    → Read [] rest failing total memory line
        (read_loop (b'\n' ∷ rest) failing total memory line len cap)
unfolding read_loop
read_loop-newline rest failing total memory line len cap cap' m e room left = record {
  status_is = ground arith;
  line_is = ground arith;
  unread_is = ground arith;
  failing_is = ground arith;
  total_is = ground arith;
  memory_left = ground arith;
}

read_loop-further :
    (ch : ℕ) (unread : Bytes) (failing : Bool) (total memory : ℕ) (line : Bytes)
    (len cap cap' m : ℕ)
    → grow len cap memory ≡ some (cap', m)
    → total < max_snapshot_bytes
    → len ≤ max_line_bytes
    → (ch ≢ 0) × (ch ≢ b'\n')
    → read_loop (ch ∷ unread) failing total memory line len cap
      ≡ read_loop unread failing (total + 1) m (line ++ ch ∷ []) (len + 1) cap'
unfolding read_loop
read_loop-further ch unread failing total memory line len cap cap' m e room short clean =
    ground arith

pub read_loop-Read :
    (xs rest : Bytes) (failing : Bool) (total memory : ℕ) (line : Bytes) (len cap : ℕ)
    → IsClean xs
    → Buffered len cap
    → len + length xs ≤ max_line_bytes + 1
    → total + length xs < max_snapshot_bytes
    → length xs < memory
    → Read xs rest failing total memory line
        (read_loop (xs ++ b'\n' ∷ rest) failing total memory line len cap)
read_loop-Read [] rest failing total memory line len cap clean b short room enough =
    elim (Option-cases (grow len cap memory)) [
      | inl e ↦ absurd (rw e at (grow-Grows len cap memory b (omega arith) (omega arith)))
      | inr ((cap', m), e) ↦
          read_loop-newline rest failing total memory line len cap cap' m e (omega arith)
            (rw e at (grow-Grows len cap memory b (omega arith) (omega arith)))
    ]
read_loop-Read (ch ∷ xs) rest failing total memory line len cap clean b short room enough =
    elim (Option-cases (grow len cap memory)) [
      | inl e ↦ absurd (rw e at (grow-Grows len cap memory b (omega arith) (omega arith)))
      | inr ((cap', m), e) ↦
          let left : memory ≤ m + 1 =
            rw e at (grow-Grows len cap memory b (omega arith) (omega arith)) in
          let (r1, r2, r3) = grow-Buffered len cap memory b e in
          let ih =
            read_loop-Read xs rest failing (total + 1) m (line ++ ch ∷ []) (len + 1) cap' clean.1
              (inr (r2, omega arith, r3)) (omega arith) (omega arith) (omega arith) in
          rw
            (read_loop-further ch (xs ++ b'\n' ∷ rest) failing total memory line len cap cap' m e
              (omega arith) (omega arith) clean.0)
            (record {
              status_is = ih.status_is;
              line_is = ih.line_is ∙ append_assoc line (ch ∷ []) (xs ++ b'\n' ∷ []);
              unread_is = ih.unread_is;
              failing_is = ih.failing_is;
              total_is = omega (arith, ih.total_is);
              memory_left = omega (arith, ih.memory_left);
            })
    ]

-- A line within the limits is read whole, ended by its newline, whatever follows it.
pub read_line-Read :
    (xs rest : Bytes) (r : Reader)
    → r.unread ≡ xs ++ b'\n' ∷ rest
    → IsClean xs
    → length xs ≤ max_line_bytes + 1
    → r.total_bytes + length xs < max_snapshot_bytes
    → length xs < r.memory
    → Read xs rest r.failing r.total_bytes r.memory [] (read_line r)
unfolding read_line
read_line-Read xs rest r e clean short room enough = rw e (
    read_loop-Read xs rest r.failing r.total_bytes r.memory [] 0 0 clean (inl (refl, refl))
      (omega arith) room enough)

pub read_line_end :
    (r : Reader) → r.unread ≡ [] → r.failing ≡ false → (read_line r).status ≡ line_eof
unfolding read_line read_loop
read_line_end r e ok = rw (e, ok) refl
