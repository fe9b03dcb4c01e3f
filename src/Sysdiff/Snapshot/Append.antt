-- ===== src/Sysdiff/Snapshot/Append.antt =====
-- The growing array of entries and its capacity.
use linux_utilities.Common.{◌+◌, ◌≤◌, ◌<◌, ◌≡◌, [], ◌∷◌, ◌++◌, length, length-append, arith, Bytes}
use linux_utilities.Common.Memory.{Memory}
use linux_utilities.Sysdiff.Snapshot.{
  Snapshot, AppendResult, append_ok, append_entry_limit, append_alloc_error, snapshot_append,
  max_snapshot_entries,
}

-- The entry was stored, at the cost of at most one call of the allocator.
abbrev pub Succeeds : Memory → AppendResult → Type 0
Succeeds memory (append_ok s m) = memory ≤ m + 1
Succeeds memory append_entry_limit = ⊥
Succeeds memory append_alloc_error = ⊥

module _ (s : Snapshot) (key value : Bytes) (memory : Memory) where
  -- An entry that is stored goes to the end, within the array, and the array within its limit.
  pub snapshot_append_ok :
      {s' : Snapshot} {m : Memory}
      → length s.items ≤ s.cap
      → s.cap ≤ max_snapshot_entries
      → snapshot_append s key value memory ≡ append_ok s' m
      → (s'.items ≡ s.items ++ (record { key = key; value = value }) ∷ [])
        × (length s'.items ≤ s'.cap)
        × (s'.cap ≤ max_snapshot_entries)
  unfolding snapshot_append
  snapshot_append_ok i w h =
      ground (arith, length-append s.items ((record { key = key; value = value }) ∷ []))

  -- With room below the entry limit and an allocator that answers once, an entry is stored.
  pub snapshot_append_room :
      length s.items ≤ s.cap
      → s.cap ≤ max_snapshot_entries
      → length s.items < max_snapshot_entries
      → 0 < memory
      → Succeeds memory (snapshot_append s key value memory)
  unfolding snapshot_append
  snapshot_append_room i w room mem = ground arith
