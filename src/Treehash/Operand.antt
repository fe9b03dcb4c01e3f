-- ===== src/Treehash/Operand.antt =====
-- src/treehash.c: the operand of main, refused if a segment of it is `..`, then shortened.
pub mod Segments
use linux_utilities.Common.{
  ℕ, Bool, true, false, ◌&&◌, ◌||◌, List, [], ◌∷◌, ◌++◌, if◌then◌else◌, ◌==◌, Bytes,
}

-- `..`, and then a slash or the end.
unfoldable pub dotdot_here : Bytes → Bool
dotdot_here (a ∷ b ∷ []) = (a == b'.') && (b == b'.')
dotdot_here (a ∷ b ∷ c ∷ path) = (a == b'.') && (b == b'.') && (c == b'/')
dotdot_here path = false

-- The `while` over the path; the flag says that a segment starts here.
unfoldable pub dotdot_from : Bool → Bytes → Bool
dotdot_from starts [] = false
dotdot_from starts (c ∷ path) = (starts && dotdot_here (c ∷ path)) || dotdot_from (c == b'/') path

unfoldable pub has_dotdot_segment : Bytes → Bool
has_dotdot_segment path = dotdot_from true path

unfoldable pub backwards : Bytes → Bytes
backwards [] = []
backwards (c ∷ path) = backwards path ++ c ∷ []

-- The `while` that cuts slashes and `/.` off the end; the name is given backwards.
unfoldable pub cut_end : Bytes → Bytes
cut_end [] = []
cut_end (c ∷ []) = c ∷ []
cut_end (c ∷ d ∷ path) =
    let less_one = cut_end (d ∷ path) in
    let less_two = cut_end path in
    if c == b'/' then less_one else if (d == b'/') && (c == b'.') then less_two else c ∷ d ∷ path

-- An empty name becomes `.`.
unfoldable pub or_dot : Bytes → Bytes
or_dot [] = b'.' ∷ []
or_dot (c ∷ path) = c ∷ path

unfoldable pub norm_dir : Bytes → Bytes
norm_dir operand = or_dot (backwards (cut_end (backwards operand)))
