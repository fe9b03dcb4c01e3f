-- ===== src/Sysdiff/Snapshot/Ascending.antt =====
-- Snapshots with strictly ascending keys, as finite maps.
use linux_utilities.Common.{
  ◌≡◌, refl, List, [], ◌∷◌, Option, none, some, Ordering, strcmp, strcmp_trans, strcmp_flop, All,
  Bytes, arith,
}
use linux_utilities.Sysdiff.Snapshot.{Entry}

abbrev pub Below : Bytes → Bytes → Type 0
Below j k = strcmp j k ≡ Ordering.lt

-- All keys are above `k`.
abbrev pub Above : Bytes → List Entry → Type 0
Above k = All (λ e. Below k e.key)

-- Strictly ascending keys: sorted, and without duplicates.
abbrev pub IsAscending : List Entry → Type 0
IsAscending [] = Unit
IsAscending (e ∷ es) = Above e.key es × IsAscending es

-- The value of a key.
unfoldable pub find : Bytes → List Entry → Option Bytes
find k [] = none
find k (e ∷ es) =
    let rest = find k es in elim (strcmp e.key k) [ Ordering.eq ↦ some e.value | _ ↦ rest ]

pub Above-Below : (j k : Bytes) (es : List Entry) → Below j k → Above k es → Above j es
Above-Below j k [] h a = tt
Above-Below j k (e ∷ es) h (b, a) = (strcmp_trans j k e.key h b, Above-Below j k es h a)

-- A key below all others is not there.
pub find-Above : (k : Bytes) (es : List Entry) → Above k es → find k es ≡ none
unfolding find
find-Above k [] a = refl
find-Above k (e ∷ es) (b, a) = ground (arith, strcmp_flop k e.key b, find-Above k es a)
