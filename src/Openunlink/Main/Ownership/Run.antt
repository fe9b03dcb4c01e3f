-- ===== src/Openunlink/Main/Ownership/Run.antt =====
-- A whole scan, with its clean-up.
use linux_utilities.Common.{ℕ, ◌≡◌, refl, false, Option, none, some, arith, Bool-cases, inl, inr}
use linux_utilities.Common.Stdio.{Stream}
use linux_utilities.Openunlink.Main.{
  cleanup_scan, emit_operational, initial_state, final_state, scan_process,
}
use linux_utilities.Openunlink.Scan.{
  allocate_scan_buffers, enumerate_fds, sort_and_check_duplicates, inspect_all, duplicate_directory,
  open_stream, close_stream, count_limit, flush_output, close_process, run_scan, process_path_fits,
}
use linux_utilities.Openunlink.State.{ScanState, set_op, Result, ok, failed, World}
use linux_utilities.Openunlink.Main.Ownership.{
  Resources, resources, Owes, IsBalanced, After, bind-After, fresh, opened, duplicated, equipped,
  streaming, listed, finished,
}
use linux_utilities.Openunlink.Main.Ownership.Steps.{
  open_process-After, duplicate_directory-After, open_stream-After, close_stream-After,
  flush_output-After, close_process-After, allocate-After, sort-After, count_limit-resources,
  enumerate_fds-After, inspect_all-After,
}

abbrev ends-IsBalanced : Result → Type 0
ends-IsBalanced r = IsBalanced (resources (final_state r))

After-ends : (r : Resources) (m : Result) → IsBalanced r → After r m → ends-IsBalanced m
After-ends r (ok st) b e = rw e b
After-ends r (failed st) b h = h

module _ (w : World) (st : ScanState) (e : resources st ≡ fresh) where
  run_scan-After : After finished (run_scan w st)
  unfolding run_scan set_op
  run_scan-After = elim (Bool-cases (process_path_fits st.pid)) [
    | inr long ↦ ground arith
    | inl fits ↦
        let dup =
          bind-After opened duplicated _ (duplicate_directory w) (open_process-After w st e)
            (λ s. duplicate_directory-After w s) in
        let buffers =
          bind-After duplicated equipped _ (allocate_scan_buffers w) dup
            (λ s. allocate-After w s) in
        let stream =
          bind-After equipped streaming _ (open_stream w) buffers (λ s. open_stream-After w s) in
        let names =
          bind-After streaming streaming _ (enumerate_fds w.entries w.readdir_fails) stream
            (enumerate_fds-After w.entries w.readdir_fails) in
        let ended =
          bind-After streaming listed _ (close_stream w) names (λ s. close_stream-After w s) in
        let sorted =
          bind-After listed listed _ sort_and_check_duplicates ended (λ s. sort-After w s) in
        let inspected =
          bind-After listed listed _ (λ s. inspect_all w s.fds (count_limit s)) sorted
            (λ s h. inspect_all-After w s.fds (count_limit s) (count_limit-resources w s h)) in
        let flushed =
          bind-After listed listed _ flush_output inspected (λ s. flush_output-After w s) in
        rw fits
          (bind-After listed finished _ (close_process w) flushed (λ s. close_process-After w s))
  ]

  run_scan-IsBalanced : ends-IsBalanced (run_scan w st)
  run_scan-IsBalanced = After-ends finished (run_scan w st) (ground arith) run_scan-After

-- What is left when a run is over: nothing is held, and everything was given back as often as taken.
pub record IsClean (st : ScanState) : Type 0 where
  pub no_directory : st.dir_fd ≡ false
  pub no_duplicate : (st.dup_fd ≡ false) × (st.dir ≡ false)
  pub no_buffers : (st.fds_buf ≡ false) × (st.link_buf ≡ false) × (st.line_buf ≡ false)
  pub directory_back : Owes false st.directory
  pub duplicate_back : Owes false st.duplicate
  pub fds_back : Owes false st.fds_memory
  pub link_back : Owes false st.link_memory
  pub line_back : Owes false st.line_memory

cleanup_scan-IsClean : (st : ScanState) → IsBalanced (resources st) → IsClean (cleanup_scan st)
unfolding cleanup_scan
cleanup_scan-IsClean st b = ground arith

emit_operational-resources : (st : ScanState) → resources (emit_operational st) ≡ resources st
unfolding emit_operational
emit_operational-resources st = ground arith

abbrev pub LeavesClean : Option ScanState → Type 0
LeavesClean none = ⊥
LeavesClean (some st) = IsClean st

-- Whatever the kernel and the allocator answer, on every path through a scan and its clean-up: in
-- the end no descriptor, directory stream or buffer is held, each was taken at most once, and each
-- was given back exactly as often as it was taken.
pub scan_process-LeavesClean :
    (w : World) (pid : ℕ) (s : Stream) → LeavesClean (scan_process w pid s).scan
unfolding scan_process
scan_process-LeavesClean w pid s =
    let st = final_state (run_scan w (initial_state pid s)) in
    cleanup_scan-IsClean (emit_operational st)
      (rw (emit_operational-resources st) (run_scan-IsBalanced w (initial_state pid s) refl))
