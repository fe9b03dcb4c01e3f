-- ===== src/Sysdiff/Diff/Report.antt =====
-- The report as text, and the exit status.
use linux_utilities.Common.{
  ℕ, ◌-◌, ◌≡◌, ◌≢◌, ◌≤◌, ◌<◌, ◌⊎◌, refl, ◌∙◌, List, [], ◌∷◌, ◌++◌, Option, none, some, Bool, true,
  false, ◌||◌, if◌then◌else◌, ◌==◌, inl, inr, Ordering, strcmp, Ordering-cases, Bytes, arith,
  length,
}
use mathlib.Core.Path.{fun_ext}
use linux_utilities.Common.Stdio.{Stream, fputs, fputc, ◌>>=◌}
use linux_utilities.Common.Stdio.Laws.{fputs-nil, fputs-append, then-fputs, fputc-fputs}
use linux_utilities.Common.Text.{codes}
use linux_utilities.Sysdiff.Diagnostic.{
  emit_write_error, deliver, deliver_fits, deliver_fails, deliver_ends, stdout_write_error,
}
use linux_utilities.Sysdiff.Escape.{put_escaped_value}
use linux_utilities.Sysdiff.Escape.Laws.{escape_value, put_escaped_value-fputs}
use linux_utilities.Sysdiff.Snapshot.{Entry}
use linux_utilities.Sysdiff.Diff.{
  emit_added, emit_removed, emit_changed, emit_loop, finish_diff, emit_diff,
}
use linux_utilities.Sysdiff.Diff.Changes.{
  Change, added, removed, changed, diff, diff-lt, diff-gt, diff-same, diff-changed,
}

abbrev pub nonempty : List Change → Bool
nonempty [] = false
nonempty (c ∷ cs) = true

-- `sign`, key, `=`, value.
entry_text : Bytes → Bytes → Bytes → Bytes
entry_text sign k v =
    let keyed = (sign ++ k) ++ b'=' ∷ [] in (keyed ++ escape_value v) ++ b'\n' ∷ []

unfoldable pub change_text : Change → Bytes
unfolding entry_text escape_value
change_text (added k v) = entry_text (codes "+ ") k v
change_text (removed k v) = entry_text (codes "- ") k v
change_text (changed k v w) =
    let old = ((codes "~ " ++ k) ++ codes ": ") ++ escape_value v in
    ((old ++ codes " -> ") ++ escape_value w) ++ b'\n' ∷ []

unfoldable pub report_text : List Change → Bytes
unfolding change_text
report_text [] = []
report_text (c ∷ cs) = change_text c ++ report_text cs

entry_text-fputs :
    (sign k v : Bytes) (s : Stream)
    → (fputs sign s >>= fputs k >>= fputc b'=' >>= put_escaped_value v >>= fputc b'\n')
      ≡ fputs (entry_text sign k v) s
unfolding entry_text
entry_text-fputs sign k v s =
    let key = then-fputs sign k s refl (λ x. refl) in
    let equals = then-fputs (sign ++ k) (b'=' ∷ []) s key (fputc-fputs b'=') in
    let value = then-fputs _ (escape_value v) s equals (put_escaped_value-fputs v) in
    then-fputs _ (b'\n' ∷ []) s value (fputc-fputs b'\n')

emit_added-fputs : (k v : Bytes) (s : Stream) → emit_added k v s ≡ fputs (change_text (added k v)) s
unfolding emit_added change_text
emit_added-fputs k v s = entry_text-fputs (codes "+ ") k v s

emit_removed-fputs :
    (k v : Bytes) (s : Stream) → emit_removed k v s ≡ fputs (change_text (removed k v)) s
unfolding emit_removed change_text
emit_removed-fputs k v s = entry_text-fputs (codes "- ") k v s

changed_text-fputs :
    (k v w : Bytes) (s : Stream)
    → (fputs (codes "~ ") s
        >>= fputs k
        >>= fputs (codes ": ")
        >>= put_escaped_value v
        >>= fputs (codes " -> ")
        >>= put_escaped_value w
        >>= fputc b'\n')
      ≡ fputs (change_text (changed k v w)) s
unfolding change_text
changed_text-fputs k v w s =
    let key = then-fputs (codes "~ ") k s refl (λ x. refl) in
    let colon = then-fputs (codes "~ " ++ k) (codes ": ") s key (λ x. refl) in
    let old = then-fputs _ (escape_value v) s colon (put_escaped_value-fputs v) in
    let arrow = then-fputs _ (codes " -> ") s old (λ x. refl) in
    let new = then-fputs _ (escape_value w) s arrow (put_escaped_value-fputs w) in
    then-fputs _ (b'\n' ∷ []) s new (fputc-fputs b'\n')

emit_changed-fputs :
    (k v w : Bytes) (s : Stream) → emit_changed k v w s ≡ fputs (change_text (changed k v w)) s
unfolding emit_changed
emit_changed-fputs k v w s = changed_text-fputs k v w s

-- The loop's result: the report is written as a whole, and the flag says whether there is one.
abbrev flagged : Bool → Option Stream → Option (Bool × Stream)
flagged b none = none
flagged b (some s) = some (b, s)

flagged-bind :
    (t u : Bytes) (b : Bool) {m : Option Stream} {f : Stream → Option (Bool × Stream)} (s : Stream)
    → m ≡ fputs t s
    → ((x : Stream) → f x ≡ flagged b (fputs u x))
    → (m >>= f) ≡ flagged b (fputs (t ++ u) s)
flagged-bind t u b {f = f} s p q = rw (p, fun_ext q, fputs-append) (go (fputs t s))
  where
    go : (o : Option Stream) → (o >>= λ x. flagged b (fputs u x)) ≡ flagged b (o >>= fputs u)
    go none = refl
    go (some x) = refl

or_true : (c : Bool) → (c || true) ≡ true
or_true true = refl
or_true false = refl

report_nil : (c : Bool) (s : Stream) → some (c, s) ≡ flagged (c || false) (fputs (report_text []) s)
unfolding report_text
report_nil true s = rw fputs-nil
report_nil false s = rw fputs-nil

-- One record, and the loop over what is left.
report_step :
    (d : Change) (ds : List Change) (c : Bool) {m : Option Stream}
    {f : Stream → Option (Bool × Stream)} (s : Stream)
    → m ≡ fputs (change_text d) s
    → ((x : Stream) → f x ≡ flagged true (fputs (report_text ds) x))
    → (m >>= f) ≡ flagged (c || nonempty (d ∷ ds)) (fputs (report_text (d ∷ ds)) s)
unfolding report_text
report_step d ds c s p q = rw (or_true c) (flagged-bind (change_text d) (report_text ds) true s p q)

module _ (b a : Entry) (before after : List Entry) (c : Bool) (s : Stream) where
  loop-lt :
      strcmp b.key a.key ≡ Ordering.lt
      → emit_loop (b ∷ before) (a ∷ after) c s
        ≡ (emit_removed b.key b.value s >>= emit_loop before (a ∷ after) true)
  unfolding emit_loop
  loop-lt h = rw (h, emit_loop)

  loop-gt :
      strcmp b.key a.key ≡ Ordering.gt
      → emit_loop (b ∷ before) (a ∷ after) c s
        ≡ (emit_added a.key a.value s >>= emit_loop (b ∷ before) after true)
  unfolding emit_loop
  loop-gt h = rw (h, emit_loop)

  loop-same :
      strcmp b.key a.key ≡ Ordering.eq
      → strcmp b.value a.value ≡ Ordering.eq
      → emit_loop (b ∷ before) (a ∷ after) c s ≡ emit_loop before after c s
  unfolding emit_loop
  loop-same h k = rw (h, k, emit_loop)

  loop-changed :
      strcmp b.key a.key ≡ Ordering.eq
      → strcmp b.value a.value ≢ Ordering.eq
      → emit_loop (b ∷ before) (a ∷ after) c s
        ≡ (emit_changed b.key b.value a.value s >>= emit_loop before after true)
  unfolding emit_loop
  loop-changed h k = ground arith

emit_loop-report :
    (before after : List Entry) (c : Bool) (s : Stream)
    → emit_loop before after c s
      ≡ flagged (c || nonempty (diff before after)) (fputs (report_text (diff before after)) s)
unfolding emit_loop diff
emit_loop-report [] [] c s = report_nil c s
emit_loop-report [] (a ∷ after) c s =
    report_step (added a.key a.value) (diff [] after) c s (emit_added-fputs a.key a.value s)
      (emit_loop-report [] after true)
emit_loop-report (b ∷ before) [] c s =
    report_step (removed b.key b.value) (diff before []) c s (emit_removed-fputs b.key b.value s)
      (emit_loop-report before [] true)
emit_loop-report (b ∷ before) (a ∷ after) c s = elim (Ordering-cases (strcmp b.key a.key)) [
  | inl e ↦ elim (Ordering-cases (strcmp b.value a.value)) [
    | inl f ↦
        rw (diff-same b a before after e f)
          (loop-same b a before after c s e f ∙ emit_loop-report before after c s)
    | inr f ↦
        let ne = λ (g : strcmp b.value a.value ≡ Ordering.eq). absurd (ground arith) in
        rw (diff-changed b a before after e ne) (
          loop-changed b a before after c s e ne
          ∙ report_step (changed b.key b.value a.value) (diff before after) c s
              (emit_changed-fputs b.key b.value a.value s) (emit_loop-report before after true))
  ]
  | inr (inl e) ↦ rw (diff-lt b a before after e) (
      loop-lt b a before after c s e
      ∙ report_step (removed b.key b.value) (diff before (a ∷ after)) c s
          (emit_removed-fputs b.key b.value s) (emit_loop-report before (a ∷ after) true))
  | inr (inr e) ↦ rw (diff-gt b a before after e) (
      loop-gt b a before after c s e
      ∙ report_step (added a.key a.value) (diff (b ∷ before) after) c s
          (emit_added-fputs a.key a.value s) (emit_loop-report (b ∷ before) after true))
]

-- What the report consists of: the changes, or one line that says that there are none.
unfoldable pub diff_text : List Change → Bytes
unfolding report_text
diff_text [] = codes "no changes\n"
diff_text (c ∷ cs) = report_text (c ∷ cs)

finish_diff-deliver :
    (ds : List Change) (s : Stream)
    → finish_diff s (flagged (nonempty ds) (fputs (report_text ds) s))
      ≡ deliver (if nonempty ds then 1 else 0) (diff_text ds) s
unfolding finish_diff deliver diff_text
finish_diff-deliver [] s = rw (← report_nil false s) refl
finish_diff-deliver (d ∷ ds) s = ground arith

module _ (before after : List Entry) (s : Stream) where
  abbrev status_of : ℕ
  status_of = if nonempty (diff before after) then 1 else 0

  emit_diff-deliver : emit_diff before after s ≡ deliver status_of (diff_text (diff before after)) s
  unfolding emit_diff
  emit_diff-deliver =
      rw (emit_loop-report before after false s) (finish_diff-deliver (diff before after) s)

  -- If standard output takes the text of the changes, or "no changes" when there are none, and the
  -- flush succeeds, then exactly that text is appended, nothing goes to standard error, and the
  -- status is 1 when there is a change and 0 when there is none.
  pub emit_diff_reports :
      length (diff_text (diff before after)) ≤ s.room
      → s.flushes ≡ true
      → ((emit_diff before after s).status ≡ status_of)
        × ((emit_diff before after s).out
            ≡ some (record s {
              written = s.written ++ diff_text (diff before after);
              room = s.room - length (diff_text (diff before after));
            }))
        × ((emit_diff before after s).err ≡ [])
  emit_diff_reports fits ok = rw (emit_diff-deliver, deliver_fits _ _ s fits ok) (refl, refl, refl)

  -- If the text does not fit in what standard output takes, or the flush fails, then the status is
  -- 2 and the only message is the write error, with EIO where `errno` is 0.
  pub emit_diff_write_error :
      (s.room < length (diff_text (diff before after))) ⊎ (s.flushes ≡ false)
      → ((emit_diff before after s).status ≡ 2)
        × ((emit_diff before after s).err
            ≡ stdout_write_error (if s.errno == 0 then 5 else s.errno) ∷ [])
  unfolding emit_write_error
  emit_diff_write_error bad = rw (emit_diff-deliver, deliver_fails _ _ s bad) (refl, refl)

  pub emit_diff_ends : (emit_diff before after s).status ≤ 2
  emit_diff_ends =
      rw emit_diff-deliver (deliver_ends status_of (diff_text (diff before after)) s (ground arith))
