-- ===== src/Sysdiff/Main/Outcome.antt =====
-- How a run of sysdiff ends.
use linux_utilities.Common.{
  same_text, ℕ, ◌-◌, ◌↔◌, ◌≤◌, ◌≡◌, ◌≢◌, refl, ◌∙◌, ◌++◌, true, if◌then◌else◌, List, [], ◌∷◌,
  Option, none, some, length, arith, Bytes,
}
use linux_utilities.Common.Text.{codes}
use linux_utilities.Sysdiff.Diagnostic.{Exit, deliver_ends}
use linux_utilities.Sysdiff.Diff.{emit_diff}
use linux_utilities.Sysdiff.Diff.Changes.{Change, diff}
use linux_utilities.Sysdiff.Diff.Order.{diff-nil_iff}
use linux_utilities.Sysdiff.Diff.Report.{diff_text, nonempty, emit_diff_reports, emit_diff_ends}
use linux_utilities.Sysdiff.Parse.{Loop, ended, stopped, out_of_fuel, parse_snapshot}
use linux_utilities.Sysdiff.Parse.Total.{parse_snapshot_total}
use linux_utilities.Sysdiff.Snapshot.{Snapshot}
use linux_utilities.Sysdiff.Main.{
  World, compare_parsed, compare_snapshots, run_compare, run_command, usage_text, main,
}

-- An exit that the command-line contract allows.
abbrev pub ExitsWell : Option Exit → Type 0
ExitsWell none = ⊥
ExitsWell (some e) = e.status ≤ 2

module _ (w : World) where
  compare_parsed-ExitsWell :
      (before after : Loop)
      → before ≢ out_of_fuel
      → after ≢ out_of_fuel
      → ExitsWell (compare_parsed before after w.stdout)
  unfolding compare_parsed
  compare_parsed-ExitsWell out_of_fuel after p q = p refl
  compare_parsed-ExitsWell (stopped d) after p q = omega arith
  compare_parsed-ExitsWell (ended b) out_of_fuel p q = q refl
  compare_parsed-ExitsWell (ended b) (stopped d) p q = omega arith
  compare_parsed-ExitsWell (ended b) (ended a) p q = emit_diff_ends b.items a.items w.stdout

  run_compare-ExitsWell : (args : List Bytes) → ExitsWell (run_compare args w)
  unfolding run_compare compare_snapshots
  run_compare-ExitsWell (before ∷ after ∷ []) =
      compare_parsed-ExitsWell _ _ (parse_snapshot_total before (w.files before) w.before_memory)
        (parse_snapshot_total after (w.files after) w.after_memory)
  run_compare-ExitsWell _ = omega arith

  run_command-ExitsWell : (args : List Bytes) → ExitsWell (run_command args w)
  unfolding run_command
  run_command-ExitsWell [] = deliver_ends 0 usage_text w.stdout (omega arith)
  run_command-ExitsWell (arg ∷ rest) = ground (
    arith,
    deliver_ends 0 usage_text w.stdout,
    deliver_ends 0 (codes "sysdiff 0.1.0\n") w.stdout,
    run_compare-ExitsWell rest,
  )

  -- Every run ends, whatever its arguments and the files, with a status of at most 2.
  pub main_ends : (argv : List Bytes) → ExitsWell (main argv w)
  unfolding main
  main_ends [] = omega arith
  main_ends (_ ∷ args) = ground (arith, run_command-ExitsWell args)

  main-compare :
      (program before_path after_path : Bytes)
      → w.sigpipe ≡ none
      → main (program ∷ codes "compare" ∷ before_path ∷ after_path ∷ []) w
        ≡ compare_snapshots before_path after_path w
  unfolding main run_command run_compare same_text
  main-compare program before_path after_path ok = ground arith

-- What a status says of a statement that decides whether there are changes.
module _ {status : ℕ} {P : Type 0} where
  status_zero :
      (ds : List Change)
      → status ≡ (if nonempty ds then 1 else 0)
      → (ds ≡ []) ↔ P
      → (status ≡ 0) ↔ P
  status_zero [] e p = (λ _. p.0 refl, λ _. e)
  status_zero (d ∷ ds) e p = (λ z. absurd (omega arith), λ x. absurd (cc (p.1 x)))

  status_one :
      (ds : List Change)
      → status ≡ (if nonempty ds then 1 else 0)
      → (ds ≡ []) ↔ P
      → (status ≡ 1) ↔ (¬ P)
  status_one [] e p = (λ z. absurd (omega arith), λ n. absurd (n (p.0 refl)))
  status_one (d ∷ ds) e p = (λ _ x. cc (p.1 x), λ _. e)

module _ (w : World) (program before_path after_path : Bytes) (before after : Snapshot) where
  compare_snapshots-ended :
      parse_snapshot before_path (w.files before_path) w.before_memory ≡ ended before
      → parse_snapshot after_path (w.files after_path) w.after_memory ≡ ended after
      → compare_snapshots before_path after_path w
        ≡ some (emit_diff before.items after.items w.stdout)
  unfolding compare_snapshots compare_parsed
  compare_snapshots-ended p q = rw (p, q) refl

  abbrev text : Bytes
  text = diff_text (diff before.items after.items)

  -- `sysdiff compare A B`, when both files are accepted and standard output takes the report, exits
  -- with status 0 exactly when the two snapshots hold the same records and with status 1 exactly
  -- when they do not, having appended the report of their difference to standard output.
  pub main_compare_status :
      w.sigpipe ≡ none
      → parse_snapshot before_path (w.files before_path) w.before_memory ≡ ended before
      → parse_snapshot after_path (w.files after_path) w.after_memory ≡ ended after
      → length text ≤ w.stdout.room
      → w.stdout.flushes ≡ true
      → (e : Exit) × (main (program ∷ codes "compare" ∷ before_path ∷ after_path ∷ []) w ≡ some e)
        × ((e.status ≡ 0) ↔ (before.items ≡ after.items))
        × ((e.status ≡ 1) ↔ (before.items ≢ after.items))
        × (e.out
            ≡ some (record w.stdout {
              written = w.stdout.written ++ text;
              room = w.stdout.room - length text;
            }))
  main_compare_status sig p q fits ok =
      let (status, out, err) = emit_diff_reports before.items after.items w.stdout fits ok in
      let equal = diff-nil_iff before.items after.items in
      (
        emit_diff before.items after.items w.stdout,
        main-compare w program before_path after_path sig ∙ compare_snapshots-ended p q,
        status_zero (diff before.items after.items) status equal,
        status_one (diff before.items after.items) status equal,
        out,
      )
