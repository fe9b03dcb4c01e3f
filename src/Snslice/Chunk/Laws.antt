-- ===== src/Snslice/Chunk/Laws.antt =====
-- What the chunk operations do to the bytes that are held in the files.
use linux_utilities.Common.{
  ℕ, zero, suc, ◌≡◌, refl, sym, ap, ◌∙◌, List, [], ◌∷◌, ◌++◌, Option, none, some, ◌==◌,
  if◌then◌else◌, take, drop, take-append-drop, append_assoc, append-nil, length, Option-cases,
  Bool-cases, inl, inr, arith, Bytes,
}
use linux_utilities.Snslice.Boundary.{SnSliceConfig}
use linux_utilities.Snslice.Chunk.{
  Hazard, broken_pipe, chunk_write_error, epipe, WriteAnswer, wrote, write_interrupted,
  write_failed, Disk, Chunk, SnSliceState, Result, ok, err, ◌>>=◌, add_size, abort_cleanup,
  chunk_path, open_chunk, close_active, close_chunk, write_all, write_active, write_to_chunk,
}

-- The bytes of completed chunks, one behind the other.
unfoldable pub contents : List Chunk → Bytes
contents [] = []
contents (c ∷ cs) = c.content ++ contents cs

abbrev pub active_content : Option Chunk → Bytes
active_content none = []
active_content (some c) = c.content

-- All bytes that the files hold.
abbrev pub held : SnSliceState → Bytes
held st = contents st.closed ++ active_content st.active

pub contents-append : (cs ds : List Chunk) → contents (cs ++ ds) ≡ contents cs ++ contents ds
unfolding contents
contents-append [] ds = refl
contents-append (c ∷ cs) ds = rw (contents-append cs ds, append_assoc) refl

-- A completed `write_all` has written everything behind what was written before.
write_all-done :
    (answers : List WriteAnswer) (bytes done : Bytes)
    → (write_all answers bytes done).failure ≡ none
    → (write_all answers bytes done).done ≡ done ++ bytes
unfolding write_all
write_all-done answers [] done h = sym (append-nil done)
write_all-done [] (c ∷ pending) done h = refl
write_all-done (write_interrupted ∷ answers) (c ∷ pending) done h =
    write_all-done answers (c ∷ pending) done h
write_all-done (write_failed errno ∷ answers) (c ∷ pending) done h = absurd (ground arith)
write_all-done (wrote zero ∷ answers) (c ∷ pending) done h = absurd (ground arith)
write_all-done (wrote (suc n) ∷ answers) (c ∷ pending) done h =
    write_all-done answers (drop n pending) (done ++ c ∷ take n pending) h
    ∙ append_assoc done (c ∷ take n pending) (drop n pending)
    ∙ ap (λ t. done ++ c ∷ t) (take-append-drop n pending)

-- What a step leaves: on success the bytes held are `input`; a failure leaves no open chunk, and the
-- completed chunks as they were.
pub record Failed (closed : List Chunk) (st : SnSliceState) : Type 0 where
  pub no_active : st.active ≡ none
  pub same_closed : st.closed ≡ closed

abbrev pub Appends : List Chunk → Bytes → Result → Type 0
Appends closed input (ok st) = held st ≡ input
Appends closed input (err h st) = Failed closed st

module _ (st : SnSliceState) (bytes : Bytes) (chunk : Chunk) where
  write_active-ok :
      (write_all st.writes bytes []).failure ≡ none
      → write_active st bytes (some chunk)
        ≡ ok (record st {
          writes = (write_all st.writes bytes []).left;
          active = some (record chunk { content = chunk.content ++ bytes });
          chunk_bytes = add_size st.chunk_bytes (length bytes);
        })
  unfolding write_active
  write_active-ok e = ground (arith, write_all-done st.writes bytes [] e)

  write_active-err :
      {errno : ℕ}
      → (write_all st.writes bytes []).failure ≡ some errno
      → (h : Hazard) × (st' : SnSliceState) × (write_active st bytes (some chunk) ≡ err h st')
        × Failed st.closed st'
  unfolding write_active abort_cleanup
  write_active-err {errno} e = (
    (if errno == epipe then broken_pipe else chunk_write_error),
    abort_cleanup (record st {
      writes = (write_all st.writes bytes []).left;
      active =
          some (record chunk { content = chunk.content ++ (write_all st.writes bytes []).done });
    }),
    ground arith,
    record { no_active = refl; same_closed = refl },
  )

  write_active-Appends :
      Appends st.closed
        ((contents st.closed ++ chunk.content) ++ bytes)
        (write_active st bytes (some chunk))
  write_active-Appends = elim (Option-cases (write_all st.writes bytes []).failure) [
    | inl e ↦ rw (write_active-ok e) (sym (append_assoc (contents st.closed) chunk.content bytes))
    | inr (errno, e) ↦ let (h, st', is, failed) = write_active-err e in rw is failed
  ]

-- A chunk that was just opened is empty; a failure changes nothing.
abbrev Opens : Bytes → SnSliceState → Result → Type 0
Opens path st (ok s) = s ≡ record st { active = some (record { path = path; content = [] }) }
Opens path st (err h s) = s ≡ st

open_chunk-Opens :
    (disk : Disk) (cfg : SnSliceConfig) (st : SnSliceState)
    → Opens (chunk_path cfg st.chunk_index) st (open_chunk disk cfg st)
unfolding open_chunk
open_chunk-Opens disk cfg st = ground arith

module _ (disk : Disk) (cfg : SnSliceConfig) (st : SnSliceState) (bytes : Bytes) where
  write_opened :
      (r : Result)
      → st.active ≡ none
      → Opens (chunk_path cfg st.chunk_index) st r
      → Appends st.closed
          ((contents st.closed ++ []) ++ bytes)
          (r >>= λ opened. write_active opened bytes opened.active)
  write_opened (ok s) a e = rw e (
      write_active-Appends
        (record st {
          active = some (record { path = chunk_path cfg st.chunk_index; content = [] });
        })
        bytes (record { path = chunk_path cfg st.chunk_index; content = [] }))
  write_opened (err h s) a e = rw e (record { no_active = a; same_closed = refl })

-- `write_to_chunk` adds exactly its bytes, or it fails.
pub write_to_chunk-Appends :
    (disk : Disk) (cfg : SnSliceConfig) (st : SnSliceState) (bytes : Bytes)
    → Appends st.closed (held st ++ bytes) (write_to_chunk disk cfg st bytes)
unfolding write_to_chunk
write_to_chunk-Appends disk cfg st [] = sym (append-nil (held st))
write_to_chunk-Appends disk cfg st (c ∷ bytes) = elim (Option-cases st.active) [
  | inl e ↦
      rw (e, write_to_chunk)
        (write_opened disk cfg st (c ∷ bytes) (open_chunk disk cfg st) e
          (open_chunk-Opens disk cfg st))
  | inr (chunk, e) ↦ rw (e, write_to_chunk) (write_active-Appends st (c ∷ bytes) chunk)
]

-- `close_chunk` moves the open chunk to the completed ones, or removes it.
abbrev pub Closes : List Chunk → Bytes → Result → Type 0
Closes closed input (ok st) = (contents st.closed ≡ input) × (st.active ≡ none)
Closes closed input (err h st) = Failed closed st

close_active-Closes :
    (disk : Disk) (st : SnSliceState) (chunk : Chunk)
    → Closes st.closed (contents st.closed ++ chunk.content) (close_active disk st chunk)
unfolding close_active
close_active-Closes disk st chunk = elim (Bool-cases (disk.close_fails chunk.path)) [
  | inl bad ↦ rw bad (record { no_active = refl; same_closed = refl })
  | inr fine ↦ rw fine (
    contents-append st.closed (chunk ∷ [])
        ∙ unfold contents in ap (◌++◌ (contents st.closed)) (append-nil chunk.content),
    refl,
  )
]

pub close_chunk-Closes :
    (disk : Disk) (st : SnSliceState) → Closes st.closed (held st) (close_chunk disk st)
unfolding close_chunk
close_chunk-Closes disk st = elim (Option-cases st.active) [
  | inl e ↦ rw (e, close_chunk) (sym (append-nil (contents st.closed)), e)
  | inr (chunk, e) ↦ rw (e, close_chunk) (close_active-Closes disk st chunk)
]
