-- ===== src/Treehash/Operand/Segments.antt =====
-- The test for `..` by the segments of the path.
use linux_utilities.Common.{
  ◌≡◌, refl, Bool, true, false, ◌&&◌, ◌||◌, List, [], ◌∷◌, if◌then◌else◌, ◌==◌, any, arith, Bytes,
  ==_iff,
}
use linux_utilities.Treehash.Operand.{dotdot_here, dotdot_from, has_dotdot_segment}

-- What stands between the slashes: the first piece, and the others.
unfoldable pub segments : Bytes → Bytes × List Bytes
segments [] = ([], [])
segments (c ∷ path) =
    let rest = segments path in if c == b'/' then ([], rest.0 ∷ rest.1) else (c ∷ rest.0, rest.1)

unfoldable pub is_dotdot : Bytes → Bool
is_dotdot (a ∷ b ∷ []) = (a == b'.') && (b == b'.')
is_dotdot segment = false

-- The first piece starts as the path does.
dotdot_here_lem : (path : Bytes) → dotdot_here path ≡ is_dotdot (segments path).0
unfolding dotdot_here is_dotdot segments
dotdot_here_lem [] = refl
dotdot_here_lem (a ∷ []) = ground arith
dotdot_here_lem (a ∷ b ∷ []) =
    ground (arith, ==_iff a b'/', ==_iff b b'/', ==_iff a b'.', ==_iff b b'.')
dotdot_here_lem (a ∷ b ∷ c ∷ path) =
    ground (arith, ==_iff a b'/', ==_iff b b'/', ==_iff a b'.', ==_iff b b'.', ==_iff c b'/')

dotdot_from_lem :
    (starts : Bool) (path : Bytes)
    → dotdot_from starts path
      ≡ ((starts && is_dotdot (segments path).0) || any is_dotdot (segments path).1)
unfolding dotdot_from segments is_dotdot
dotdot_from_lem starts [] = ground arith
dotdot_from_lem starts (c ∷ path) =
    let h = dotdot_here_lem (c ∷ path) in
    ground (arith, dotdot_from_lem (c == b'/') path, ==_iff c b'/')

-- Whatever the path: it is refused exactly when one of the pieces between its slashes is `..`.
pub has_dotdot_segment_lem :
    (path : Bytes) → has_dotdot_segment path ≡ any is_dotdot ((segments path).0 ∷ (segments path).1)
unfolding has_dotdot_segment
has_dotdot_segment_lem path = dotdot_from_lem true path
