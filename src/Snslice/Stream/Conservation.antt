-- ===== src/Snslice/Stream/Conservation.antt =====
-- The bytes of the input, in the chunks and still to come.
use linux_utilities.Common.{
  ℕ, ◌≡◌, inl, inr, refl, sym, ap, ◌∙◌, subst, Bool, true, false, [], ◌∷◌, ◌++◌, none,
  if◌then◌else◌, ltb, ◌==◌, append_assoc, append-nil, Option-cases, Bool-cases, arith, Bytes,
}
use linux_utilities.Snslice.Boundary.{CsvState, SnSliceConfig, boundary_step}
use linux_utilities.Snslice.Chunk.{
  Hazard, Disk, SnSliceState, record_length_limit, malformed_csv, Result, ok, err, ◌>>=◌, add_size,
  abort_cleanup, close_chunk, write_to_chunk,
}
use linux_utilities.Snslice.Chunk.Laws.{
  contents, active_content, held, Failed, Appends, Closes, write_to_chunk-Appends,
  close_chunk-Closes,
}
use linux_utilities.Snslice.Stream.{
  malformed, should_split, end_record, slice_loop, max_record_bytes,
}

-- A run that stopped: no open chunk is left, and the completed chunks hold a prefix of the input.
pub record Stopped (input : Bytes) (st : SnSliceState) : Type 0 where
  pub no_active : st.active ≡ none
  pub lost : Bytes
  pub is_prefix : contents st.closed ++ lost ≡ input

-- The files hold the input so far, or the run stopped.
abbrev pub Holds : Bytes → Result → Type 0
Holds input (ok st) = held st ≡ input
Holds input (err h st) = Stopped input st

pub Stopped-more :
    {input : Bytes} {st : SnSliceState} (more : Bytes)
    → Stopped input st
    → Stopped (input ++ more) st
Stopped-more {st = st} more s = record {
  no_active = s.no_active;
  lost = s.lost ++ more;
  is_prefix = sym (append_assoc (contents st.closed) s.lost more) ∙ ap (λ t. t ++ more) s.is_prefix;
}

-- A failed step stops the run, whatever was still to come.
pub Failed-Stopped :
    (st : SnSliceState) {st' : SnSliceState} (more : Bytes)
    → Failed st.closed st'
    → Stopped (held st ++ more) st'
Failed-Stopped st more f = record {
  no_active = f.no_active;
  lost = active_content st.active ++ more;
  is_prefix =
      rw f.same_closed (sym (append_assoc (contents st.closed) (active_content st.active) more));
}

Appends-Holds :
    (st : SnSliceState) (bytes : Bytes) (r : Result)
    → Appends st.closed (held st ++ bytes) r
    → Holds (held st ++ bytes) r
Appends-Holds st bytes (ok s) a = a
Appends-Holds st bytes (err h s) f = Failed-Stopped st bytes f

pub abort-Stopped :
    (st : SnSliceState) (more : Bytes) → Stopped (held st ++ more) (abort_cleanup st)
unfolding abort_cleanup
abort-Stopped st more = Failed-Stopped st more (record { no_active = refl; same_closed = refl })

Closes-Holds : (st : SnSliceState) (r : Result) → Closes st.closed (held st) r → Holds (held st) r
Closes-Holds st (ok s) (c, a) = rw a (append-nil (contents s.closed) ∙ c)
Closes-Holds st (err h s) f =
    subst (λ i. Stopped i s) (append-nil (held st)) (Failed-Stopped st [] f)

-- The two ways of ending a record keep what is held.
split-Holds :
    (disk : Disk) (split : Bool) (input : Bytes) (st : SnSliceState)
    → held st ≡ input
    → Holds input (if split then close_chunk disk st else ok st)
split-Holds disk true input st e = rw (← e) (Closes-Holds st _ (close_chunk-Closes disk st))
split-Holds disk false input st e = e

-- A bind: the first step holds some input, and the second goes on from there.
pub bind-Holds :
    (input more : Bytes) (r : Result) (f : SnSliceState → Result)
    → Holds input r
    → ((st : SnSliceState) → held st ≡ input → Holds (input ++ more) (f st))
    → Holds (input ++ more) (r >>= f)
bind-Holds input more (ok st) f h k = k st h
bind-Holds input more (err z st) f h k = Stopped-more more h

module _ (disk : Disk) (cfg : SnSliceConfig) (st : SnSliceState) (bytes : Bytes) where
  abbrev counted : SnSliceState → SnSliceState
  counted written = record written {
    record_bytes = 0;
    chunk_records = add_size written.chunk_records 1;
  }

  end_record-Holds : Holds (held st ++ bytes) (end_record disk cfg st bytes)
  unfolding end_record
  end_record-Holds =
      go (write_to_chunk disk cfg st bytes)
        (Appends-Holds st bytes _ (write_to_chunk-Appends disk cfg st bytes))
    where
      go :
          (r : Result)
          → Holds (held st ++ bytes) r
          → Holds (held st ++ bytes) (
              r >>= λ written.
              if should_split cfg (counted written)
              then close_chunk disk (counted written)
              else ok (counted written))
      go (ok s) h = split-Holds disk (should_split cfg (counted s)) _ (counted s) h
      go (err z s) h = h

-- One byte of the buffer: what `slice_loop` does with it, by the result of its tests.
module _ (disk : Disk) (cfg : SnSliceConfig) (c : ℕ) (buffer slice : Bytes)
    (st : SnSliceState) where
  read_one : SnSliceState
  read_one = record st { record_bytes = add_size st.record_bytes 1 }

  stepped : CsvState → SnSliceState
  unfolding read_one
  stepped state = record read_one { csv_state = state }

  pub data ByteCases : Type 0 where
    stops :
        (h : Hazard) (s : SnSliceState)
        → held s ≡ held st
        → s.total_input_bytes ≡ st.total_input_bytes
        → slice_loop disk cfg (c ∷ buffer) slice st ≡ err h (abort_cleanup s)
        → ByteCases
    goes_on :
        (s : SnSliceState)
        → held s ≡ held st
        → s.total_input_bytes ≡ st.total_input_bytes
        → slice_loop disk cfg (c ∷ buffer) slice st ≡ slice_loop disk cfg buffer (slice ++ c ∷ []) s
        → ByteCases
    ends_record :
        (s : SnSliceState)
        → held s ≡ held st
        → s.total_input_bytes ≡ st.total_input_bytes
        → slice_loop disk cfg (c ∷ buffer) slice st
          ≡ (end_record disk cfg s (slice ++ c ∷ []) >>= slice_loop disk cfg buffer [])
        → ByteCases

  pub slice_loop-byte : ByteCases
  unfolding slice_loop read_one stepped
  slice_loop-byte = elim (Bool-cases (c == 0)) [
    | inl zero_byte ↦ stops (malformed cfg.format) st refl refl (ground arith)
    | inr nonzero ↦ elim (Bool-cases (ltb max_record_bytes (add_size st.record_bytes 1))) [
      | inl too_long ↦ stops record_length_limit read_one refl refl (ground arith)
      | inr short ↦ elim (Option-cases (boundary_step cfg.format st.csv_state c)) [
        | inl bad ↦ stops malformed_csv read_one refl refl (ground arith)
        | inr ((state, false), e) ↦ goes_on (stepped state) refl refl (ground arith)
        | inr ((state, true), e) ↦ ends_record (stepped state) refl refl (ground arith)
      ]
    ]
  ]

pub slice_loop-nil :
    (disk : Disk) (cfg : SnSliceConfig) (slice : Bytes) (st : SnSliceState)
    → slice_loop disk cfg [] slice st ≡ write_to_chunk disk cfg st slice
unfolding slice_loop
slice_loop-nil disk cfg slice st = refl

-- One buffer: `slice` is what waits in it, the rest is to be read.
pub slice_loop-Holds :
    (disk : Disk) (cfg : SnSliceConfig) (buffer slice : Bytes) (st : SnSliceState)
    → Holds (held st ++ (slice ++ buffer)) (slice_loop disk cfg buffer slice st)
slice_loop-Holds disk cfg [] slice st =
    rw (slice_loop-nil disk cfg slice st, append-nil slice)
      (Appends-Holds st slice _ (write_to_chunk-Appends disk cfg st slice))
slice_loop-Holds disk cfg (c ∷ buffer) slice st =
    elim (slice_loop-byte disk cfg c buffer slice st) [
      | stops h s same _ is ↦ rw (is, ← same) (abort-Stopped s (slice ++ c ∷ buffer))
      | goes_on s same _ is ↦
          rw (is, ← same, ← append_assoc slice (c ∷ []) buffer)
            (slice_loop-Holds disk cfg buffer (slice ++ c ∷ []) s)
      | ends_record s same _ is ↦
          rw
            (
              is,
              ← same,
              ← append_assoc slice (c ∷ []) buffer,
              ← append_assoc (held s) (slice ++ c ∷ []) buffer,
            )
            (bind-Holds (held s ++ (slice ++ c ∷ [])) buffer
              (end_record disk cfg s (slice ++ c ∷ [])) (slice_loop disk cfg buffer [])
              (end_record-Holds disk cfg s (slice ++ c ∷ []))
              (λ s' e. rw (← e) (slice_loop-Holds disk cfg buffer [] s')))
    ]
