-- ===== src/Snslice/Options.antt =====
-- src/snslice.c: the command line, as far as the configuration.
pub mod Shown
pub mod Valid
use linux_utilities.Common.{
  same_text, ℕ, zero, suc, ◌+◌, ◌-◌, ◌*◌, ◌^◌, Bool, true, false, not, ◌&&◌, ◌||◌, List, [], ◌∷◌,
  ◌++◌, Option, none, some, if◌then◌else◌, ltb, leb, ◌==◌, length, Bytes,
}
use linux_utilities.Common.Text.{codes, hex_escape}
use linux_utilities.Snslice.Boundary.{FormatType, format_ndjson, format_csv, SnSliceConfig}
use linux_utilities.Snslice.Chunk.{
  Hazard, usage_error, unknown_option, invalid_limit, invalid_format,
}

-- What one byte is written as.
abbrev sanitize_byte : ℕ → Bytes
sanitize_byte b =
    if b == b'"'
    then codes "\\x22"
    else if b == b'\\'
    then codes "\\x5C"
    else if leb 0x20 b && leb b 0x7E
    then b ∷ []
    else hex_escape b

-- The loop, with `d` bytes written so far.
unfoldable pub sanitize_loop : ℕ → Bytes → ℕ → Bytes
sanitize_loop size [] d = []
sanitize_loop size (b ∷ src) d =
    let rest = sanitize_loop size src (d + length (sanitize_byte b)) in
    if ltb (d + 5) size then sanitize_byte b ++ rest else []

-- The text before the terminator that is left in a buffer of the given size, for a string or a null
-- pointer; nothing is written to a buffer of size 0.
unfoldable pub sanitize_string : Option Bytes → ℕ → Option Bytes
sanitize_string src zero = none
sanitize_string none (suc n) = some []
sanitize_string (some src) (suc n) = some (sanitize_loop (suc n) src 0)

-- `char san[1024]`, filled from a string.
unfoldable pub sanitized : Bytes → Bytes
unfolding sanitize_loop sanitize_string
sanitized src = elim (sanitize_string (some src) 1024) [ none ↦ [] | some text ↦ text ]

-- `strtoull(str, &endptr, 10)` of digits: `none` if it stops before the end.
unfoldable pub strtoull : ℕ → Bytes → Option ℕ
strtoull value [] = some value
strtoull value (c ∷ str) =
    let rest = strtoull (10 * value + (c - b'0')) str in
    if leb b'0' c && leb c b'9' then rest else none

-- A value that does not fit is `ERANGE`.
unfoldable pub parse_positive_size : Bytes → Option ℕ
unfolding strtoull
parse_positive_size [] = none
parse_positive_size (c ∷ str) =
    if ltb c b'0' || ltb b'9' c then none else elim (strtoull 0 (c ∷ str)) [
      | none ↦ none
      | some val ↦ if leb (2 ^ 64) val || val == 0 then none else some val
    ]

-- The configuration, or the hazard and the text that is reported with it.
pub data Parsed : Type 0 where
  parsed : SnSliceConfig → Parsed
  refused : Hazard → Bytes → Parsed

infixl 5 ◌>>=◌
abbrev pub ◌>>=◌ : Parsed → (SnSliceConfig → Parsed) → Parsed
parsed cfg >>= f = f cfg
refused h text >>= f = refused h text

pub data Field : Type 0 where
  bytes_field records_field format_field out_dir_field prefix_field : Field

unfoldable pub set_limit : (ℕ → SnSliceConfig) → Bytes → Parsed
set_limit set val = elim (parse_positive_size val) [
  | none ↦ refused invalid_limit (sanitized val)
  | some n ↦ parsed (set n)
]

-- The value of an option.
unfoldable pub set_field : Field → Bytes → SnSliceConfig → Parsed
set_field bytes_field val cfg = set_limit (λ n. record cfg { limit_bytes = n }) val
set_field records_field val cfg = set_limit (λ n. record cfg { limit_records = n }) val
set_field format_field val cfg =
    if same_text val (codes "ndjson")
    then parsed (record cfg { format = format_ndjson })
    else if same_text val (codes "csv")
    then parsed (record cfg { format = format_csv })
    else refused invalid_format (sanitized val)
set_field out_dir_field val cfg = parsed (record cfg { out_dir = val })
set_field prefix_field val cfg = parsed (record cfg { prefix = val })

-- `strncmp(arg, start, length) == 0`, and what follows.
unfoldable pub strip_start : Bytes → Bytes → Option Bytes
strip_start [] arg = some arg
strip_start (c ∷ start) [] = none
strip_start (c ∷ start) (d ∷ arg) =
    let rest = strip_start start arg in if c == d then rest else none

-- What the chain of tests in the loop finds out about an argument.
pub data Argument : Type 0 where
  end_of_options unrecognized positional : Argument
  wants_value : Field → Argument
  with_value : Field → Bytes → Argument

-- One pair of tests: `-b`, `--bytes`, then `--bytes=`.
abbrev try_option : Field → Bytes → Bytes → Bytes → Bytes → Argument → Argument
try_option field short long assign arg otherwise =
    if same_text arg short || same_text arg long
    then wants_value field
    else elim (strip_start assign arg) [ some val ↦ with_value field val | none ↦ otherwise ]

option_named : Bytes → Argument
unfolding same_text strip_start
option_named arg = try_option bytes_field (codes "-b") (codes "--bytes") (codes "--bytes=") arg (
    try_option records_field (codes "-r") (codes "--records") (codes "--records=") arg (
      try_option format_field (codes "-f") (codes "--format") (codes "--format=") arg (
        try_option out_dir_field (codes "-d") (codes "--out-dir") (codes "--out-dir=") arg (
          try_option prefix_field (codes "-p") (codes "--prefix") (codes "--prefix=") arg
            unrecognized))))

-- `arg[0] == '-' && arg[1] != '\0'`
is_option : Bytes → Bool
is_option (c ∷ _ ∷ _) = c == b'-'
is_option _ = false

unfoldable pub classify : Bool → Bytes → Argument
unfolding option_named is_option same_text
classify stop_options arg =
    if not stop_options && same_text arg (codes "--")
    then end_of_options
    else if not stop_options && is_option arg
    then option_named arg
    else positional

unfoldable pub take_positional : Bytes → SnSliceConfig → Parsed
take_positional arg cfg = elim cfg.input_path [
  | some _ ↦ refused usage_error (sanitized arg)
  | none ↦ parsed (record cfg { input_path = some arg })
]

-- The loop over `argv`.
unfoldable pub parse_options : Bool → List Bytes → SnSliceConfig → Parsed
parse_options stop [] cfg = parsed cfg
parse_options stop (arg ∷ []) cfg = elim (classify stop arg) [
  | end_of_options ↦ parsed cfg
  | unrecognized ↦ refused unknown_option (sanitized arg)
  | positional ↦ take_positional arg cfg
  | wants_value field ↦ refused usage_error (sanitized arg)
  | with_value field val ↦ set_field field val cfg
]
parse_options stop (arg ∷ next ∷ rest) cfg = elim (classify stop arg) [
  | end_of_options ↦ parse_options true (next ∷ rest) cfg
  | unrecognized ↦ refused unknown_option (sanitized arg)
  | positional ↦ take_positional arg cfg >>= parse_options stop (next ∷ rest)
  | wants_value field ↦ set_field field next cfg >>= parse_options stop rest
  | with_value field val ↦ set_field field val cfg >>= parse_options stop (next ∷ rest)
]

unfoldable pub has_slash : Bytes → Bool
has_slash [] = false
has_slash (c ∷ text) = c == b'/' || has_slash text

unfoldable pub has_dots : Bytes → Bool
has_dots (a ∷ b ∷ text) = a == b'.' && b == b'.' || has_dots (b ∷ text)
has_dots _ = false

unfoldable pub is_empty : Bytes → Bool
is_empty [] = true
is_empty (_ ∷ _) = false

-- The tests behind the loop.
unfoldable pub check_config : SnSliceConfig → Parsed
check_config cfg =
    if is_empty cfg.prefix || has_slash cfg.prefix || has_dots cfg.prefix
    then refused usage_error (sanitized cfg.prefix)
    else if cfg.limit_bytes == 0 && cfg.limit_records == 0
    then refused usage_error []
    else parsed cfg

abbrev pub default_config : SnSliceConfig
default_config = record {
  format = format_ndjson;
  limit_bytes = 0;
  limit_records = 0;
  out_dir = codes ".";
  prefix = codes "chunk_";
  input_path = none;
}

unfoldable pub configure : List Bytes → Parsed
configure args = parse_options false args default_config >>= check_config
