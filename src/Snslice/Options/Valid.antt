-- ===== src/Snslice/Options/Valid.antt =====
-- src/snslice.c: what holds of every configuration that is accepted.
use linux_utilities.Common.{
  same_text, ℕ, ◌<◌, ◌^◌, ◌≡◌, ◌≢◌, ◌⊎◌, inl, inr, refl, ap, Bool, true, false, List, [], ◌∷◌, ◌++◌,
  some, ◌==◌, ◌&&◌, All, Option-cases, Bool-cases, arith, Bytes,
}
use linux_utilities.Common.Text.{codes}
use linux_utilities.Snslice.Boundary.{SnSliceConfig}
use linux_utilities.Snslice.Options.{
  parse_positive_size, Parsed, parsed, refused, ◌>>=◌, Field, bytes_field, records_field,
  format_field, out_dir_field, prefix_field, set_limit, set_field, classify, take_positional,
  parse_options, has_slash, has_dots, is_empty, check_config, default_config, configure, Argument,
  end_of_options, unrecognized, positional, wants_value, with_value,
}

-- The limits are `size_t` values.
pub record Fits (cfg : SnSliceConfig) : Type 0 where
  pub bytes_fit : cfg.limit_bytes < 2 ^ 64
  pub records_fit : cfg.limit_records < 2 ^ 64

abbrev AllFits : Parsed → Type 0
AllFits (parsed cfg) = Fits cfg
AllFits (refused h text) = Unit

bind-AllFits :
    (r : Parsed) (f : SnSliceConfig → Parsed)
    → AllFits r
    → ((cfg : SnSliceConfig) → Fits cfg → AllFits (f cfg))
    → AllFits (r >>= f)
bind-AllFits (parsed cfg) f fits k = k cfg fits
bind-AllFits (refused h text) f fits k = tt

parse_positive_size-bound : (str : Bytes) (n : ℕ) → parse_positive_size str ≡ some n → n < 2 ^ 64
unfolding parse_positive_size
parse_positive_size-bound [] n e = ground (arith, e)
parse_positive_size-bound (c ∷ str) n e = ground (arith, e)

set_limit-AllFits :
    (set : ℕ → SnSliceConfig) (val : Bytes)
    → ((n : ℕ) → n < 2 ^ 64 → Fits (set n))
    → AllFits (set_limit set val)
unfolding set_limit
set_limit-AllFits set val k = elim (Option-cases (parse_positive_size val)) [
  | inl e ↦ rw (e, set_limit) tt
  | inr (n, e) ↦ rw (e, set_limit) (k n (parse_positive_size-bound val n e))
]

set_field-AllFits :
    (field : Field) (val : Bytes) (cfg : SnSliceConfig)
    → Fits cfg
    → AllFits (set_field field val cfg)
unfolding set_field
set_field-AllFits bytes_field val cfg fits =
    set_limit-AllFits _ val
      (λ n small. record { bytes_fit = small; records_fit = fits.records_fit })
set_field-AllFits records_field val cfg fits =
    set_limit-AllFits _ val (λ n small. record { bytes_fit = fits.bytes_fit; records_fit = small })
set_field-AllFits format_field val cfg fits = elim (Bool-cases (same_text val (codes "ndjson"))) [
  | inl e ↦ rw e (record { bytes_fit = fits.bytes_fit; records_fit = fits.records_fit })
  | inr e ↦ elim (Bool-cases (same_text val (codes "csv"))) [
    | inl f ↦ rw (e, f) (record { bytes_fit = fits.bytes_fit; records_fit = fits.records_fit })
    | inr f ↦ rw (e, f) tt
  ]
]
set_field-AllFits out_dir_field val cfg fits = record {
  bytes_fit = fits.bytes_fit;
  records_fit = fits.records_fit;
}
set_field-AllFits prefix_field val cfg fits = record {
  bytes_fit = fits.bytes_fit;
  records_fit = fits.records_fit;
}

take_positional-AllFits :
    (arg : Bytes) (cfg : SnSliceConfig) → Fits cfg → AllFits (take_positional arg cfg)
unfolding take_positional
take_positional-AllFits arg cfg fits = elim (Option-cases cfg.input_path) [
  | inl e ↦
      rw (e, take_positional)
        (record { bytes_fit = fits.bytes_fit; records_fit = fits.records_fit })
  | inr (path, e) ↦ rw (e, take_positional) tt
]

parse_options-AllFits :
    (stop : Bool) (args : List Bytes) (cfg : SnSliceConfig)
    → Fits cfg
    → AllFits (parse_options stop args cfg)
unfolding parse_options
parse_options-AllFits stop [] cfg fits = fits
parse_options-AllFits stop (arg ∷ []) cfg fits = go (classify stop arg) refl
  where
    go : (a : Argument) → classify stop arg ≡ a → AllFits (parse_options stop (arg ∷ []) cfg)
    go end_of_options e = rw (e, parse_options) fits
    go unrecognized e = rw (e, parse_options) tt
    go positional e = rw (e, parse_options) (take_positional-AllFits arg cfg fits)
    go (wants_value field) e = rw (e, parse_options) tt
    go (with_value field val) e = rw (e, parse_options) (set_field-AllFits field val cfg fits)
parse_options-AllFits stop (arg ∷ next ∷ rest) cfg fits =
    go (classify stop arg) refl (parse_options-AllFits true (next ∷ rest) cfg fits)
      (λ c f. parse_options-AllFits stop (next ∷ rest) c f)
      (λ c f. parse_options-AllFits stop rest c f)
  where
    go :
        (a : Argument)
        → classify stop arg ≡ a
        → AllFits (parse_options true (next ∷ rest) cfg)
        → ((c : SnSliceConfig) → Fits c → AllFits (parse_options stop (next ∷ rest) c))
        → ((c : SnSliceConfig) → Fits c → AllFits (parse_options stop rest c))
        → AllFits (parse_options stop (arg ∷ next ∷ rest) cfg)
    go end_of_options e stopped one two = rw (e, parse_options) stopped
    go unrecognized e stopped one two = rw (e, parse_options) tt
    go positional e stopped one two =
        rw (e, parse_options) (bind-AllFits _ _ (take_positional-AllFits arg cfg fits) one)
    go (wants_value field) e stopped one two =
        rw (e, parse_options) (bind-AllFits _ _ (set_field-AllFits field next cfg fits) two)
    go (with_value field val) e stopped one two =
        rw (e, parse_options) (bind-AllFits _ _ (set_field-AllFits field val cfg fits) one)

-- A configuration that a run may use: the prefix is one component of a path, and some limit is set.
pub record IsUsable (cfg : SnSliceConfig) : Type 0 where
  pub fits : Fits cfg
  pub named : cfg.prefix ≢ []
  pub no_slash : All (λ c. c ≢ b'/') cfg.prefix
  pub no_parent : (a b : Bytes) → cfg.prefix ≢ a ++ b'.' ∷ b'.' ∷ b
  pub limited : (0 < cfg.limit_bytes) ⊎ (0 < cfg.limit_records)

has_slash-All : (text : Bytes) → has_slash text ≡ false → All (λ c. c ≢ b'/') text
unfolding has_slash
has_slash-All [] h = tt
has_slash-All (c ∷ text) h = (λ e. absurd (ground arith), has_slash-All text (ground arith))

has_dots-found : (a b : Bytes) → has_dots (a ++ b'.' ∷ b'.' ∷ b) ≡ true
unfolding has_dots
has_dots-found [] b = refl
has_dots-found (c ∷ []) b = ground arith
has_dots-found (c ∷ d ∷ a) b = ground (arith, has_dots-found (d ∷ a) b)

nonempty : (text : Bytes) → is_empty text ≡ false → text ≢ []
unfolding is_empty
nonempty [] h e = absurd (ground arith)
nonempty (c ∷ text) h e = absurd (ground arith)

check_config-IsUsable :
    (cfg cfg' : SnSliceConfig) → Fits cfg → check_config cfg ≡ parsed cfg' → IsUsable cfg'
unfolding check_config
check_config-IsUsable cfg cfg' fits e =
    let same : cfg ≡ cfg' = ground arith in
    let unlimited : (cfg.limit_bytes == 0 && cfg.limit_records == 0) ≡ false = ground arith in
    let dots : has_dots cfg.prefix ≡ false = ground arith in
    rw (← same) (record {
      fits = fits;
      named = nonempty cfg.prefix (ground arith);
      no_slash = has_slash-All cfg.prefix (ground arith);
      no_parent = λ a b f. absurd (ground (arith, ap has_dots f, has_dots-found a b));
      limited = ground arith;
    })

-- Every configuration that the command line gives has limits below 2 ^ 64, at least one of them
-- positive, and a prefix that is not empty, has no slash and nowhere two dots in a row.
pub configure-IsUsable :
    (args : List Bytes) (cfg : SnSliceConfig) → configure args ≡ parsed cfg → IsUsable cfg
unfolding configure
configure-IsUsable args cfg e =
    go (parse_options false args default_config)
      (parse_options-AllFits false args default_config
        (record { bytes_fit = omega arith; records_fit = omega arith }))
      e
  where
    go : (r : Parsed) → AllFits r → (r >>= check_config) ≡ parsed cfg → IsUsable cfg
    go (parsed c) fits f = check_config-IsUsable c cfg fits f
    go (refused h text) fits f = absurd (ground arith)
