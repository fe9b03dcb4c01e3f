-- ===== src/Openunlink/Main/Outcome.antt =====
-- A whole scan that the kernel lets through: its output, its reports and its status.
use linux_utilities.Common.{
  ℕ, ◌≤◌, ◌≡◌, refl, ap, ◌∙◌, true, false, ◌||◌, List, [], ◌∷◌, ◌++◌, none, some, if◌then◌else◌,
  arith, Bytes, length, length-append, All,
}
use linux_utilities.Common.Decimal.{decimal, length-decimal}
use linux_utilities.Common.Stdio.{Stream}
use linux_utilities.Openunlink.Finding.{finding_line_capacity}
use linux_utilities.Openunlink.Finding.Capacity.{capacity}
use linux_utilities.Openunlink.Inspect.Verdict.{IsReady, SizesFit, verdict, verdict_text}
use linux_utilities.Openunlink.Main.{
  Exit, emit_operational, finish_status, initial_state, out_unless, shown_out, scan_process,
}
use linux_utilities.Openunlink.Main.Reports.{
  record_all, scan_text, scan_reports, any_verdict, FitsAll, record_all-Reported, inspect_all_lem,
  Lists, ended, dot, number, enumerate_fds_lem,
}
use linux_utilities.Openunlink.Number.{int_max}
use linux_utilities.Openunlink.Scan.{
  allocate_scan_buffers, enumerate_fds, sort_fds, sort_and_check_duplicates, inspect_all,
  open_process, duplicate_directory, open_stream, close_stream, count_limit, flush_output,
  close_process, run_scan, process_path_fits, process_path_capacity,
}
use linux_utilities.Openunlink.Scan.Sorting.{
  IsAscending, Distinct, sort_fds-All, sort_fds-perm, sort_fds-IsAscending, total, total-sort_fds,
  sort_fds-no_duplicate,
}
use mathlib.Core.List.{Perm}
use linux_utilities.Openunlink.State.{op_none, ScanState, ok, ◌>>=◌, World, acquire, release}

-- Every call succeeds that is not about a single descriptor.
pub record Succeeds (w : World) : Type 0 where
  pub opens : w.open_error ≡ none
  pub duplicates : w.dups ≡ true
  pub allocates : (w.allocates_fds ≡ true) × (w.allocates_link ≡ true) × (w.allocates_line ≡ true)
  pub streams : w.fdopens ≡ true
  pub reads : w.readdir_fails ≡ false
  pub closes : (w.closes_dir ≡ true) × (w.closes_fd ≡ true)

path_capacity : process_path_capacity ≡ 22
unfolding process_path_capacity
path_capacity = refl

process_path_fits_lem : (pid : ℕ) → pid ≤ int_max → process_path_fits pid ≡ true
unfolding process_path_fits
process_path_fits_lem pid small =
    let d = length-decimal 9 pid (omega (arith, small)) in
    let joined = length-append (decimal pid) (b'/' ∷ b'f' ∷ b'd' ∷ []) in
    rw path_capacity (ground arith)

-- The state in which the directory is read.
reading : ℕ → Stream → ScanState
reading pid s =
    let st = initial_state pid s in
    record st {
      dir_fd = true;
      directory = acquire st.directory;
      dir = true;
      duplicate = acquire st.duplicate;
      fds_buf = true;
      fds_memory = acquire st.fds_memory;
      link_buf = true;
      link_memory = acquire st.link_memory;
      line_buf = true;
      line_memory = acquire st.line_memory;
      line_cap = finding_line_capacity;
    }

module _ (w : World) (pid : ℕ) (s : Stream) (succeeds : Succeeds w) where
  reaches_reading :
      (open_process w (initial_state pid s)
        >>= duplicate_directory w
        >>= allocate_scan_buffers w
        >>= open_stream w)
      ≡ ok (reading pid s)
  unfolding open_process duplicate_directory allocate_scan_buffers open_stream reading
  reaches_reading = ground (arith, capacity)

Lists-All : {names : List Bytes} {fds : List ℕ} → Lists names fds → All (λ fd. fd ≤ int_max) fds
Lists-All ended = tt
Lists-All (dot name d rest) = Lists-All rest
Lists-All (number fd name small is rest) = (small, Lists-All rest)

fits_all :
    (w : World) (fds : List ℕ) → All (λ fd. fd ≤ int_max) fds → All (SizesFit w) fds → FitsAll w fds
fits_all w [] p q = tt
fits_all w (fd ∷ fds) (p, ps) (q, qs) = ((p, q), fits_all w fds ps qs)

-- What a scan that lists the descriptors `fds` delivers: what there is to say of them, in strictly
-- ascending order.
pub record Delivers (w : World) (pid : ℕ) (s : Stream) (fds : List ℕ) (e : Exit) : Type 0 where
  pub ordered : List ℕ
  pub ascending : IsAscending ordered
  pub same : Perm ordered fds
  pub status_is : e.status ≡ (if any_verdict w ordered then 1 else 0)
  pub out : Stream
  pub out_is : e.out ≡ some out
  pub written_is : out.written ≡ s.written ++ scan_text w pid ordered
  pub err_is : e.err ≡ scan_reports w pid ordered

length-scan_text :
    (w : World) (pid : ℕ) (fds : List ℕ)
    → length (scan_text w pid fds) ≡ total (λ fd. length (verdict_text pid fd (verdict w fd))) fds
unfolding scan_text total
length-scan_text w pid [] = refl
length-scan_text w pid (fd ∷ fds) = omega (
  arith,
  length-scan_text w pid fds,
  length-append (verdict_text pid fd (verdict w fd)) (scan_text w pid fds),
)

length_text-sort_fds :
    (w : World) (pid : ℕ) (fds : List ℕ)
    → length (scan_text w pid (sort_fds fds)) ≡ length (scan_text w pid fds)
length_text-sort_fds w pid fds = omega (
  arith,
  length-scan_text w pid (sort_fds fds),
  length-scan_text w pid fds,
  total-sort_fds (λ fd. length (verdict_text pid fd (verdict w fd))) fds,
)

-- The state in which the descriptors are inspected.
inspecting : ℕ → Stream → List ℕ → ScanState
unfolding reading
inspecting pid s fds =
    let st = reading pid s in record st { dir = false; duplicate = release st.duplicate; fds = fds }

module _ (w : World) (pid : ℕ) (s : Stream) (fds : List ℕ) (succeeds : Succeeds w) where
  reaches_inspecting :
      pid ≤ int_max
      → Lists w.entries fds
      → Distinct fds
      → length fds ≤ 65536
      → run_scan w (initial_state pid s) ≡ (
          inspect_all w (sort_fds fds) (inspecting pid s (sort_fds fds))
          >>= flush_output
          >>= close_process w)
  unfolding run_scan inspecting reading close_stream sort_and_check_duplicates count_limit
  reaches_inspecting small lists once few =
      let listed : enumerate_fds w.entries false (reading pid s)
          ≡ ok (record (reading pid s) { fds = fds }) =
        enumerate_fds_lem (reading pid s) lists (omega (arith, few)) in
      let reads = succeeds.reads in
      let closes = succeeds.closes.0 in
      rw
        (
          process_path_fits_lem pid small,
          reaches_reading w pid s succeeds,
          reads,
          listed,
          closes,
          sort_fds-no_duplicate fds once,
        )
        refl

  flushed :
      (st : ScanState)
      → st.out.flushes ≡ true
      → (ok st >>= flush_output >>= close_process w)
        ≡ ok (record st { dir_fd = false; directory = release st.directory })
  unfolding flush_output close_process
  flushed st f = let closes = succeeds.closes.1 in rw (f, closes) refl

finish :
    (w : World) (pid : ℕ) (s : Stream) (fds : List ℕ) (st : ScanState)
    → st.op ≡ op_none
    → (st.had_finding || st.had_advisory) ≡ any_verdict w fds
    → st.err ≡ scan_reports w pid fds
    → (emit_operational st ≡ st) × (finish_status st ≡ (if any_verdict w fds then 1 else 0))
unfolding emit_operational finish_status
finish w pid s fds st o l e = (ground arith, ground arith)

-- When every call succeeds that is not about a single descriptor, the directory lists some distinct
-- descriptor numbers in any order besides the two dots, at most 65536 of them, and the findings fit
-- standard output, then with the listed numbers put in strictly ascending order a scan writes
-- exactly the findings of these descriptors, in that order, it reports exactly the advisories of the
-- others, in that order too, and its status is 1 if there is a finding or an advisory, else 0.
pub scan_process-Delivers :
    (w : World) (pid : ℕ) (s : Stream) (fds : List ℕ)
    → Succeeds w
    → pid ≤ int_max
    → Lists w.entries fds
    → Distinct fds
    → length fds ≤ 65536
    → All (SizesFit w) fds
    → length (scan_text w pid fds) ≤ s.room
    → s.flushes ≡ true
    → Delivers w pid s fds (scan_process w pid s)
unfolding scan_process shown_out inspecting reading
scan_process-Delivers w pid s fds succeeds small lists once few sizes room flushes =
    let sorted = sort_fds fds in
    let start = inspecting pid s sorted in
    let fits =
      fits_all w sorted (sort_fds-All (λ fd. fd ≤ int_max) fds (Lists-All lists))
        (sort_fds-All (SizesFit w) fds sizes) in
    let ready : IsReady start = record { has_line = refl; cap_is = refl; pid_fits = small } in
    let inspected =
      inspect_all_lem w sorted start ready fits
        (omega (arith, room, length_text-sort_fds w pid fds)) in
    let told = record_all-Reported w sorted start in
    let last = record_all w sorted start in
    let closed = flushed w pid s sorted succeeds last (told.flushes_is ∙ flushes) in
    let run = reaches_inspecting w pid s fds succeeds small lists once few in
    let done =
      finish w pid s sorted (record last { dir_fd = false; directory = release last.directory })
        told.op_is told.loud_is told.err_is in
    rw (run, inspected, closed)
      (record {
        ordered = sorted;
        ascending = sort_fds-IsAscending fds once;
        same = sort_fds-perm fds;
        status_is = done.1;
        out = last.out;
        out_is =
            ap (λ (x : ScanState). shown_out x) done.0
            ∙ ap (λ code. out_unless code last.out) told.op_is;
        written_is = told.written_is;
        err_is = ap (λ (x : ScanState). x.err) done.0 ∙ told.err_is;
      })
