-- ===== src/Treehash/Ignore.antt =====
-- src/treehash.c: the ignore rules, from the lines of a `.gitignore` to the verdict on a path.
-- `fnmatch` is a parameter: the pattern, the string, and whether `FNM_PATHNAME` is set.
pub mod Verdict
pub mod Loading
pub mod Popping
pub mod Below
use linux_utilities.Common.{
  ℕ, zero, suc, ◌+◌, ◌-◌, ◌*◌, ◌/◌, ◌%◌, Bool, true, false, not, ◌&&◌, ◌||◌, List, [], ◌∷◌, ◌++◌,
  Option, none, some, if◌then◌else◌, leb, ltb, ◌==◌, any, length, take, drop, Bytes,
}
use linux_utilities.Common.Memory.{Memory, allocate, size_max}

pub record IgnoreRule : Type 0 where
  pub pattern : Bytes
  pub dir_rel : Bytes
  pub depth : ℕ
  pub is_negated : Bool
  pub is_dir_only : Bool
  pub is_anchored : Bool

pub record IgnoreRuleArray : Type 0 where
  pub items : List IgnoreRule
  pub capacity : ℕ

-- Room for one more item of the given size: the new capacity and the memory left. Doubling wraps
-- around as `size_t` does.
unfoldable pub grow : ℕ → ℕ → ℕ → ℕ → Memory → Option (ℕ × Memory)
grow first item_size count capacity memory =
    if ltb count capacity
    then some (capacity, memory)
    else (let new_cap = if capacity == 0 then first else (capacity * 2) % (size_max + 1) in
        if leb new_cap capacity || ltb (size_max / item_size) new_cap
        then none
        else elim (allocate memory) [ none ↦ none | some left ↦ some (new_cap, left) ])

-- `none` is the result -1; the rule goes in after two calls of `strdup`.
unfoldable pub add_ignore_rule :
    IgnoreRuleArray → IgnoreRule → Memory → Option (IgnoreRuleArray × Memory)
add_ignore_rule arr rule memory = elim (grow 32 24 (length arr.items) arr.capacity memory) [
  | none ↦ none
  | some (capacity, left) ↦ elim (allocate left) [
    | none ↦ none
    | some last ↦ elim (allocate last) [
      | none ↦ none
      | some rest ↦ some (record { items = arr.items ++ rule ∷ []; capacity = capacity }, rest)
    ]
  ]
]

-- The `while` of `pop_rules`, with `i` as its fuel.
unfoldable pub pop_loop : ℕ → ℕ → List IgnoreRule → List IgnoreRule
pop_loop zero depth rules = rules
pop_loop (suc i) depth rules = elim (drop i rules) [
  | [] ↦ rules
  | r ∷ _ ↦ elim (r.depth == depth) [ true ↦ pop_loop i depth (take i rules) | false ↦ rules ]
]

unfoldable pub pop_rules : IgnoreRuleArray → ℕ → IgnoreRuleArray
pop_rules arr depth = record arr { items = pop_loop (length arr.items) depth arr.items }

abbrev is_trailing : ℕ → Bool
is_trailing c = (c == b'\r') || (c == b'\n') || (c == b' ') || (c == b'\t')

-- The `while` that cuts bytes off the end of the line.
unfoldable pub trim_end : Bytes → Bytes
trim_end [] = []
trim_end (c ∷ line) =
    let rest = trim_end line in
    elim rest [ [] ↦ if is_trailing c then [] else c ∷ [] | d ∷ more ↦ c ∷ d ∷ more ]

-- What a string function sees of the bytes.
unfoldable pub until_nul : Bytes → Bytes
until_nul [] = []
until_nul (c ∷ text) = let rest = until_nul text in if c == 0 then [] else c ∷ rest

-- Nothing but blanks, or a comment.
unfoldable pub is_skipped : Bytes → Bool
is_skipped [] = true
is_skipped (c ∷ text) =
    let rest = is_skipped text in if (c == b' ') || (c == b'\t') then rest else c == b'#'

-- Whether the line starts with `!`, and what follows.
unfoldable pub negation : Bytes → Bool × Bytes
negation [] = (false, [])
negation (c ∷ text) = if c == b'!' then (true, text) else (false, c ∷ text)

-- Whether the pattern ends in `/`, and the pattern without it.
unfoldable pub final_slash : Bytes → Bool × Bytes
final_slash [] = (false, [])
final_slash (c ∷ []) = if c == b'/' then (true, []) else (false, c ∷ [])
final_slash (c ∷ d ∷ text) = let rest = final_slash (d ∷ text) in (rest.0, c ∷ rest.1)

-- Whether the pattern is anchored, and the pattern that is kept.
unfoldable pub anchor : Bytes → Bool × Bytes
anchor [] = (false, [])
anchor (c ∷ text) = if c == b'/' then (true, text) else (any (λ d. d == b'/') (c ∷ text), c ∷ text)

-- The end of a round, with the pattern less its final slash.
unfoldable pub load_kept :
    Bool → Bool → Bytes → Bytes → ℕ → IgnoreRuleArray → Memory → Option (IgnoreRuleArray × Memory)
load_kept negated dir_only [] rel_dir depth rules memory = some (rules, memory)
load_kept negated dir_only (c ∷ kept) rel_dir depth rules memory =
    add_ignore_rule rules
      (record {
        pattern = (anchor (c ∷ kept)).1;
        dir_rel = rel_dir;
        depth = depth;
        is_negated = negated;
        is_dir_only = dir_only;
        is_anchored = (anchor (c ∷ kept)).0;
      })
      memory

-- A round from the copy of the pattern on.
unfoldable pub load_pattern :
    Bool → Bytes → Bytes → ℕ → IgnoreRuleArray → Memory → Option (IgnoreRuleArray × Memory)
load_pattern negated [] rel_dir depth rules memory = some (rules, memory)
load_pattern negated (c ∷ pat) rel_dir depth rules memory = elim (allocate memory) [
  | none ↦ none
  | some left ↦
      load_kept negated (final_slash (c ∷ pat)).0 (final_slash (c ∷ pat)).1 rel_dir depth rules left
]

-- One round of the `while` over the lines, `none` when memory is out.
unfoldable pub load_line :
    Bytes → Bytes → ℕ → IgnoreRuleArray → Memory → Option (IgnoreRuleArray × Memory)
load_line line rel_dir depth rules memory =
    let text = until_nul (trim_end line) in
    if is_skipped text
    then some (rules, memory)
    else load_pattern (negation text).0 (negation text).1 rel_dir depth rules memory

-- What `fopen` of the file gives: an error number, or the lines that `getline` reads before it
-- returns -1.
pub data Opened : Type 0 where
  not_opened : ℕ → Opened
  lines_read : List Bytes → Opened

pub data Loaded : Type 0 where
  loaded : IgnoreRuleArray → Memory → Loaded
  load_error load_memory : Loaded

unfoldable pub load_lines : List Bytes → Bytes → ℕ → IgnoreRuleArray → Memory → Loaded
load_lines [] rel_dir depth rules memory = loaded rules memory
load_lines (line ∷ more) rel_dir depth rules memory =
    elim (load_line line rel_dir depth rules memory) [
      | none ↦ load_memory
      | some (longer, left) ↦ load_lines more rel_dir depth longer left
    ]

abbrev enoent : ℕ
enoent = 2

-- `load_error` is the result 2, `load_memory` the result -1.
unfoldable pub load_gitignore : Opened → Bytes → ℕ → IgnoreRuleArray → Memory → Loaded
load_gitignore (not_opened errno) rel_dir depth rules memory =
    if errno == enoent then loaded rules memory else load_error
load_gitignore (lines_read lines) rel_dir depth rules memory =
    load_lines lines rel_dir depth rules memory

-- The rest of the path after a directory, as `strncmp` on its length finds it.
unfoldable pub after_prefix : Bytes → Bytes → Option Bytes
after_prefix [] path = some path
after_prefix (c ∷ dir) [] = none
after_prefix (c ∷ dir) (d ∷ path) =
    let rest = after_prefix dir path in if c == d then rest else none

-- The path relative to the directory of a rule, if it lies under it.
unfoldable pub relative : Bytes → Bytes → Option Bytes
relative [] path = some path
relative (c ∷ dir) path = elim (after_prefix (c ∷ dir) path) [
  | none ↦ none
  | some [] ↦ some []
  | some (d ∷ rel) ↦ if d == b'/' then some rel else none
]

-- What follows the last slash.
unfoldable pub base_name : Bytes → Bytes
base_name [] = []
base_name (c ∷ path) =
    let rest = base_name path in if (c == b'/') || any (λ d. d == b'/') path then rest else c ∷ path

module _ (fnmatch : Bytes → Bytes → Bool → Bool) where
  unfoldable pub match_rule : IgnoreRule → Bytes → Bool → Bool
  match_rule r cand_path cand_is_dir =
      if r.is_dir_only && not cand_is_dir then false else elim (relative r.dir_rel cand_path) [
        | none ↦ false
        | some [] ↦ false
        | some (c ∷ rel) ↦
            if r.is_anchored
            then fnmatch r.pattern (c ∷ rel) true
            else (fnmatch r.pattern (base_name (c ∷ rel)) false || fnmatch r.pattern (c ∷ rel) true)
      ]

  -- The `for` over the rules.
  unfoldable pub judge : List IgnoreRule → Bytes → Bool → Bool → Bool
  judge [] cand_path cand_is_dir ignored = ignored
  judge (r ∷ rules) cand_path cand_is_dir ignored =
      judge rules cand_path cand_is_dir
        (if match_rule r cand_path cand_is_dir then not r.is_negated else ignored)

  unfoldable pub is_path_ignored : IgnoreRuleArray → Bytes → Bool → Bool
  is_path_ignored arr cand_path cand_is_dir = judge arr.items cand_path cand_is_dir false
