-- ===== src/Treehash/Ignore/Below.antt =====
-- The paths that the rules of a directory match.
use linux_utilities.Common.{
  ℕ, ==_iff, ◌≡◌, ◌≢◌, refl, ap, ◌∙◌, Bool, true, [], ◌∷◌, ◌++◌, Option, none, some, arith, Bytes,
}
use linux_utilities.Treehash.Ignore.{IgnoreRule, match_rule, after_prefix, relative}

after_prefix-some : (dir path rest : Bytes) → after_prefix dir path ≡ some rest → path ≡ dir ++ rest
unfolding after_prefix
after_prefix-some [] path rest e = ground arith
after_prefix-some (c ∷ dir) [] rest e = absurd (ground arith)
after_prefix-some (c ∷ dir) (d ∷ path) rest e =
    go (after_prefix dir path) refl (after_prefix-some dir path)
  where
    go :
        (o : Option Bytes)
        → after_prefix dir path ≡ o
        → ((r : Bytes) → after_prefix dir path ≡ some r → path ≡ dir ++ r)
        → (d ∷ path) ≡ (c ∷ dir) ++ rest
    go none f above = absurd (ground arith)
    go (some r) f above = ground (arith, above r f, ==_iff c d)

-- A path below a directory.
pub record IsBelow (dir path : Bytes) : Type 0 where
  pub first : ℕ
  pub rest : Bytes
  pub split : path ≡ dir ++ b'/' ∷ first ∷ rest

relative-IsBelow :
    (dir path : Bytes) (c : ℕ) (rel : Bytes)
    → dir ≢ []
    → relative dir path ≡ some (c ∷ rel)
    → path ≡ dir ++ b'/' ∷ c ∷ rel
unfolding relative
relative-IsBelow [] path c rel some_dir e = absurd (some_dir refl)
relative-IsBelow (b ∷ dir) path c rel some_dir e = go (after_prefix (b ∷ dir) path) refl
  where
    go : (o : Option Bytes) → after_prefix (b ∷ dir) path ≡ o → path ≡ (b ∷ dir) ++ b'/' ∷ c ∷ rel
    go none f = absurd (ground arith)
    go (some []) f = absurd (ground arith)
    go (some (d ∷ more)) f =
        let slash : d ≡ b'/' = ground (arith, ==_iff d b'/') in
        let same : more ≡ c ∷ rel = ground (arith, ==_iff d b'/') in
        after_prefix-some (b ∷ dir) path (d ∷ more) f
        ∙ ap (λ t. (b ∷ dir) ++ t) (ap (λ t. t ∷ more) slash ∙ ap (λ t. b'/' ∷ t) same)

-- A rule that was loaded from a directory other than the operand itself matches only a path that
-- is that directory, a slash and at least one byte more, whatever `fnmatch` answers.
pub match_rule-IsBelow :
    (fnmatch : Bytes → Bytes → Bool → Bool) (r : IgnoreRule) (path : Bytes) (is_dir : Bool)
    → r.dir_rel ≢ []
    → match_rule fnmatch r path is_dir ≡ true
    → IsBelow r.dir_rel path
unfolding match_rule
match_rule-IsBelow fnmatch r path is_dir some_dir e = go (relative r.dir_rel path) refl
  where
    go : (o : Option Bytes) → relative r.dir_rel path ≡ o → IsBelow r.dir_rel path
    go none f = absurd (ground (arith, match_rule))
    go (some []) f = absurd (ground (arith, match_rule))
    go (some (c ∷ rel)) f = record {
      first = c;
      rest = rel;
      split = relative-IsBelow r.dir_rel path c rel some_dir f;
    }
