-- ===== src/Openunlink/Finding/Capacity.antt =====
-- The computed capacity of the line buffer, against the length of a finding.
use linux_utilities.Common.{
  ℕ, ◌+◌, ◌-◌, ◌*◌, ◌^◌, ◌≤◌, ◌<◌, ◌≡◌, refl, sym, ap, false, [], ◌∷◌, ◌++◌, some, ltb, leb, Bytes,
  length, length-append, append_assoc, append-nil, arith,
}
use linux_utilities.Common.Decimal.{decimal, length-decimal}
use linux_utilities.Common.Text.{codes}
use linux_utilities.Openunlink.Number.{int_max}
use linux_utilities.Openunlink.Finding.{
  finding_line_capacity, escape_piece, escape_append, finding_head, finding_line,
}

unfoldable pub escaped : Bytes → Bytes
escaped [] = []
escaped (ch ∷ src) = escape_piece ch ++ escaped src

-- The line of a finding, whatever the buffer.
unfoldable pub finding_text : ℕ → ℕ → ℕ → Bytes → Bytes
finding_text pid fd size target = (finding_head pid fd size ++ escaped target) ++ codes "\"\n"

length-escape_piece : (ch : ℕ) → length (escape_piece ch) ≤ 4
length-escape_piece ch = ground arith

length-escaped : (src : Bytes) → length (escaped src) ≤ 4 * length src
unfolding escaped
length-escaped [] = omega arith
length-escaped (ch ∷ src) = omega (
  arith,
  length-append (escape_piece ch) (escaped src),
  length-escape_piece ch,
  length-escaped src,
)

escape_append_fits :
    (cap : ℕ) (dst src : Bytes)
    → length dst + 4 * length src ≤ cap
    → escape_append cap dst src ≡ some (dst ++ escaped src)
unfolding escape_append escaped
escape_append_fits cap dst [] h = ap some (sym (append-nil dst))
escape_append_fits cap dst (ch ∷ src) h =
    let short = length-escape_piece ch in
    let joined = length-append dst (escape_piece ch) in
    ground (
      arith,
      escape_append_fits cap (dst ++ escape_piece ch) src,
      append_assoc dst (escape_piece ch) (escaped src),
    )

length-finding_head :
    (pid fd size : ℕ)
    → pid ≤ int_max
    → fd ≤ int_max
    → size < 2 ^ 64
    → length (finding_head pid fd size) ≤ 77
unfolding finding_head
length-finding_head pid fd size p f s =
    let a = length-decimal 9 pid (omega arith) in
    let b = length-decimal 9 fd (omega arith) in
    let c = length-decimal 19 size (omega arith) in
    omega (
      arith,
      length-append (decimal pid) (
          codes "\tfd="
          ++ (decimal fd ++ (codes "\tsize=" ++ (decimal size ++ codes "\ttarget=\"")))),
      length-append (decimal fd) (codes "\tsize=" ++ (decimal size ++ codes "\ttarget=\"")),
      length-append (decimal size) (codes "\ttarget=\""),
    )

pub capacity : finding_line_capacity ≡ 262232
unfolding finding_line_capacity
capacity = refl

-- For a process and a descriptor number up to INT_MAX, a size below 2 ^ 64 and a target of at most
-- 65536 bytes, the computed capacity holds the whole line of the finding: building it never fails
-- and cuts nothing off.
pub finding_line_fits :
    (pid fd size : ℕ) (target : Bytes)
    → pid ≤ int_max
    → fd ≤ int_max
    → size < 2 ^ 64
    → length target ≤ 65536
    → finding_line finding_line_capacity pid fd size target ≡ some (finding_text pid fd size target)
unfolding finding_line finding_text
finding_line_fits pid fd size target p f s t =
    let head = length-finding_head pid fd size p f s in
    let esc = length-escaped target in
    let joined = length-append (finding_head pid fd size) (escaped target) in
    let fits =
      escape_append_fits finding_line_capacity (finding_head pid fd size) target
        (omega (arith, capacity, head, t)) in
    let room : (ltb (finding_line_capacity - length (finding_head pid fd size ++ escaped target)) 3)
        ≡ false =
      ground (arith, capacity) in
    let enough : leb finding_line_capacity (length (finding_head pid fd size)) ≡ false =
      ground (arith, capacity) in
    rw (enough, fits, room) refl
