-- ===== src/Openunlink/Main/Ownership/Steps.antt =====
-- What each step of a scan takes and gives back.
use linux_utilities.Common.{
  ℕ, ◌≡◌, refl, Bool, List, [], ◌∷◌, ◌++◌, some, arith, Bytes, take, Option-cases, inl, inr,
}
use linux_utilities.Openunlink.Finding.{target_buf_size, emit_finding}
use linux_utilities.Openunlink.Number.{parse_fd_name}
use linux_utilities.Openunlink.Inspect.{
  convert_size, report_unlinked, confirm, read_target, inspect_one,
}
use linux_utilities.Openunlink.Scan.{
  allocate_scan_buffers, enumerate_fds, sort_and_check_duplicates, inspect_all, open_process,
  duplicate_directory, open_stream, close_stream, count_limit, flush_output, close_process,
}
use linux_utilities.Openunlink.State.{
  OpCode, Advisory, ScanState, set_op, emit_fd_advisory, emit_count_advisory, Stat, StatAnswer,
  stat_failed, stat_ok, LinkAnswer, link_failed, link_text, World,
}
use linux_utilities.Openunlink.Main.Ownership.{
  resources, IsBalanced, After, bind-After, fresh, opened, duplicated, equipped, streaming, listed,
  finished,
}

set_op-resources : (code : OpCode) (st : ScanState) → resources (set_op code st) ≡ resources st
unfolding set_op
set_op-resources code st = ground arith

-- A failure that takes nothing leaves a balanced state balanced.
fail-IsBalanced :
    (code : OpCode) (st : ScanState)
    → IsBalanced (resources st)
    → IsBalanced (resources (set_op code st))
fail-IsBalanced code st b = rw (set_op-resources code st) b

module _ (w : World) (st : ScanState) where
  pub open_process-After : resources st ≡ fresh → After opened (open_process w st)
  unfolding open_process set_op
  open_process-After e = ground arith

  pub duplicate_directory-After :
      resources st ≡ opened → After duplicated (duplicate_directory w st)
  unfolding duplicate_directory set_op
  duplicate_directory-After e = ground arith

  pub open_stream-After : resources st ≡ equipped → After streaming (open_stream w st)
  unfolding open_stream set_op
  open_stream-After e = ground arith

  pub close_stream-After : resources st ≡ streaming → After listed (close_stream w st)
  unfolding close_stream set_op
  close_stream-After e = ground arith

  pub flush_output-After : resources st ≡ listed → After listed (flush_output st)
  unfolding flush_output set_op
  flush_output-After e = ground arith

  pub close_process-After : resources st ≡ listed → After finished (close_process w st)
  unfolding close_process set_op
  close_process-After e = ground arith

  pub allocate-After : resources st ≡ duplicated → After equipped (allocate_scan_buffers w st)
  unfolding allocate_scan_buffers set_op
  allocate-After e = ground arith

  pub sort-After : resources st ≡ listed → After listed (sort_and_check_duplicates st)
  unfolding sort_and_check_duplicates set_op
  sort-After e = ground arith

  pub count_limit-resources : resources st ≡ listed → resources (count_limit st) ≡ listed
  unfolding count_limit emit_count_advisory
  count_limit-resources e = ground arith

pub enumerate_fds-After :
    (entries : List Bytes) (fails : Bool) (st : ScanState)
    → resources st ≡ streaming
    → After streaming (enumerate_fds entries fails st)
unfolding enumerate_fds set_op
enumerate_fds-After [] fails st e = ground arith
enumerate_fds-After (name ∷ entries) fails st e =
    let skip = enumerate_fds-After entries fails st e in
    elim (Option-cases (parse_fd_name name)) [
      | inl f ↦ ground (arith, skip)
      | inr (fd, f) ↦
          ground (
            arith,
            skip,
            enumerate_fds-After entries fails (record st { fds = st.fds ++ fd ∷ [] }) e,
          )
    ]

-- Inspecting a descriptor takes nothing.
emit_finding-resources :
    (fd size : ℕ) (target : Bytes) (st st' : ScanState)
    → emit_finding fd size target st ≡ some st'
    → resources st' ≡ resources st
unfolding emit_finding
emit_finding-resources fd size target st st' e = ground arith

module _ (w : World) (fd : ℕ) (st : ScanState) where
  emit_fd_advisory-resources : (a : Advisory) → resources (emit_fd_advisory a fd st) ≡ resources st
  unfolding emit_fd_advisory
  emit_fd_advisory-resources a = refl

  report_unlinked-After :
      (first second : Stat) (target : Bytes)
      → resources st ≡ listed
      → After listed (report_unlinked fd first second target st)
  unfolding report_unlinked set_op emit_fd_advisory
  report_unlinked-After first second target e = elim (Option-cases (convert_size second.st_size)) [
    | inl f ↦ ground arith
    | inr (size, f) ↦ elim (Option-cases (emit_finding fd size target st)) [
      | inl g ↦ ground arith
      | inr (st', g) ↦ ground (arith, emit_finding-resources fd size target st st' g)
    ]
  ]

  confirm-After :
      (first : Stat) (target : Bytes)
      → resources st ≡ listed
      → After listed (confirm w fd first target st)
  unfolding confirm emit_fd_advisory
  confirm-After first target e = go (w.second_stat fd) refl
    where
      go : (b : StatAnswer) → w.second_stat fd ≡ b → After listed (confirm w fd first target st)
      go (stat_failed err) r = ground arith
      go (stat_ok second) r = ground (arith, report_unlinked-After first second target e)

  read_target-After :
      (first : Stat) → resources st ≡ listed → After listed (read_target w fd first st)
  unfolding read_target emit_fd_advisory
  read_target-After first e = go (w.link fd) refl
    where
      go : (l : LinkAnswer) → w.link fd ≡ l → After listed (read_target w fd first st)
      go (link_failed err) r = ground arith
      go (link_text text) r =
          rw (r, read_target) (confirm-After first (take target_buf_size text) e)

  inspect_one-After : resources st ≡ listed → After listed (inspect_one w fd st)
  unfolding inspect_one emit_fd_advisory set_op
  inspect_one-After e = go (w.first_stat fd) refl
    where
      go : (a : StatAnswer) → w.first_stat fd ≡ a → After listed (inspect_one w fd st)
      go (stat_failed err) r = ground arith
      go (stat_ok first) r = ground (arith, read_target-After first e)

pub inspect_all-After :
    (w : World) (fds : List ℕ) (st : ScanState)
    → resources st ≡ listed
    → After listed (inspect_all w fds st)
unfolding inspect_all
inspect_all-After w [] st e = e
inspect_all-After w (fd ∷ fds) st e =
    bind-After listed listed (inspect_one w fd st) (inspect_all w fds) (inspect_one-After w fd st e)
      (inspect_all-After w fds)
