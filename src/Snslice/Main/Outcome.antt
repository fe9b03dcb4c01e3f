-- ===== src/Snslice/Main/Outcome.antt =====
-- src/snslice.c: how a whole run of `main` ends.
use linux_utilities.Common.{
  ◌^◌, ◌<◌, ◌≡◌, inl, inr, refl, Bool, true, false, List, Option, none, some, length, Bool-cases,
  arith, Bytes,
}
use linux_utilities.Snslice.Boundary.{SnSliceConfig}
use linux_utilities.Snslice.Chunk.{Hazard, SnSliceState, Result, ok, err}
use linux_utilities.Snslice.Chunk.Laws.{contents}
use linux_utilities.Snslice.Main.{
  Stat, is_missing, is_directory, is_other, World, Exit, refuse, informational, initial_state,
  finish, input_file, run_input, run_config, main,
}
use linux_utilities.Snslice.Options.{parsed, configure}
use linux_utilities.Snslice.Stream.Conservation.{Stopped}
use linux_utilities.Snslice.Stream.Whole.{read_bytes, Partitions, stream_slice-Partitions}

-- How a run ends: with the chunks made of the whole input, with a clean-up, or before any input was
-- read.
pub data Ends (input : Bytes) (e : Exit) : Type 0 where
  partitioned :
      (st : SnSliceState)
      → e.status ≡ 0
      → e.sliced ≡ some (ok st)
      → contents st.closed ≡ input
      → st.active ≡ none
      → Ends input e
  cleaned_up :
      (h : Hazard) (st : SnSliceState)
      → e.status ≡ 2
      → e.sliced ≡ some (err h st)
      → Stopped input st
      → Ends input e
  not_started : (h : Hazard) (text : Bytes) → e ≡ refuse h text → Ends input e

finish-Ends :
    (input : Bytes) (closes : Bool) (r : Result) → Partitions input r → Ends input (finish closes r)
unfolding finish
finish-Ends input true (ok st) (same, idle) = partitioned _ refl refl same idle
finish-Ends input false (ok st) (same, idle) = partitioned _ refl refl same idle
finish-Ends input true (err h st) s =
    cleaned_up h _ refl refl
      (record { no_active = s.no_active; lost = s.lost; is_prefix = s.is_prefix })
finish-Ends input false (err h st) s = cleaned_up h _ refl refl s

run_input-Ends :
    (file : Option Bytes) (cfg : SnSliceConfig) (w : World)
    → length (read_bytes (w.reads file)) < 2 ^ 64
    → Ends (read_bytes (w.reads file)) (run_input file cfg w)
unfolding run_input contents read_bytes
run_input-Ends none cfg w small = finish-Ends _ false _ (
    stream_slice-Partitions w.disk cfg (w.reads none) (initial_state false w.writes) (λ _. refl)
      (ground (arith, small)))
run_input-Ends (some path) cfg w small = go (w.stat path) refl
  where
    go :
        (s : Stat)
        → w.stat path ≡ s
        → Ends (read_bytes (w.reads (some path))) (run_input (some path) cfg w)
    go is_missing e = rw (e, run_input) (not_started _ _ refl)
    go is_directory e = rw (e, run_input) (not_started _ _ refl)
    go is_other e = elim (Bool-cases (w.opens path)) [
      | inr f ↦ rw (e, run_input, f) (not_started _ _ refl)
      | inl f ↦
          rw (e, run_input, f)
            (finish-Ends _ true _ (
              stream_slice-Partitions w.disk cfg (w.reads (some path)) (initial_state true w.writes)
                (λ _. refl) (ground (arith, small))))
    ]

run_config-Ends :
    (cfg : SnSliceConfig) (w : World)
    → length (read_bytes (w.reads (input_file cfg))) < 2 ^ 64
    → Ends (read_bytes (w.reads (input_file cfg))) (run_config cfg w)
unfolding run_config
run_config-Ends cfg w small = go (w.stat cfg.out_dir) refl
  where
    go :
        (s : Stat)
        → w.stat cfg.out_dir ≡ s
        → Ends (read_bytes (w.reads (input_file cfg))) (run_config cfg w)
    go is_missing e = rw (e, run_config) (not_started _ _ refl)
    go is_other e = rw (e, run_config) (not_started _ _ refl)
    go is_directory e = rw (e, run_config) (run_input-Ends (input_file cfg) cfg w small)

-- With no informational option, an accepted command line and an input of less than 2 ^ 64 bytes, a
-- run of `main` ends in one of three ways. With status 0, and then the completed chunks, one
-- behind the other, are exactly the bytes that `read` returned, and no chunk is open. With status
-- 2 after `stream_slice` failed, and then no chunk is open and the completed chunks hold a prefix
-- of these bytes. Or with a refusal before the input is read.
pub main-Ends :
    (args : List Bytes) (cfg : SnSliceConfig) (w : World)
    → informational args ≡ none
    → configure args ≡ parsed cfg
    → length (read_bytes (w.reads (input_file cfg))) < 2 ^ 64
    → Ends (read_bytes (w.reads (input_file cfg))) (main args w)
unfolding main
main-Ends args cfg w plain accepted small = rw (plain, main, accepted) (run_config-Ends cfg w small)
