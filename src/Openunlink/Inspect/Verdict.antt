-- ===== src/Openunlink/Inspect/Verdict.antt =====
-- What is found out about one descriptor, apart from the state and the output.
use linux_utilities.Common.{
  ℕ, zero, suc, ◌-◌, ◌^◌, ◌≤◌, ◌<◌, ◌≡◌, ◌↔◌, refl, ap, subst, Bool, true, false, [], ◌∷◌, ◌++◌,
  some, if◌then◌else◌, leb, leb→le, ◌==◌, Bytes, length, take, arith, Bool-cases, inl, inr,
}
use linux_utilities.Common.Decimal.{length-decimal}
use linux_utilities.Common.Stdio.Laws.{fputs-room}
use linux_utilities.Openunlink.Finding.{
  emit_finding, finding_line, finding_line_capacity, target_buf_size,
}
use linux_utilities.Openunlink.Finding.Capacity.{finding_text, finding_line_fits, capacity}
use linux_utilities.Openunlink.Number.{int_max}
use linux_utilities.Openunlink.Inspect.{
  map_fstatat_errno, map_readlinkat_errno, is_regular, unavailable, report_unlinked, confirm,
  read_target, fd_name_fits, inspect_one,
}
use linux_utilities.Openunlink.State.{
  Advisory, fd_unstable, target_length_limit, fd_size_range, ScanState, emit_fd_advisory, ok, OffT,
  nonnegative, negative, Stat, StatAnswer, stat_failed, stat_ok, LinkAnswer, link_failed, link_text,
  World,
}

pub data Verdict : Type 0 where
  silent : Verdict
  advised : Advisory → Verdict
  unlinked : ℕ → Bytes → Verdict

-- Two answers about the same regular file.
abbrev same_file : Stat → Stat → Bool
same_file first second =
    if first.st_dev == second.st_dev
    then if first.st_ino == second.st_ino then is_regular second.st_mode else false
    else false

abbrev size_verdict : OffT → Bytes → Verdict
size_verdict (nonnegative size) target = unlinked size target
size_verdict (negative n) target = advised fd_size_range

abbrev second_verdict : Stat → Bytes → StatAnswer → Verdict
second_verdict first target (stat_failed err) = advised (unavailable (map_fstatat_errno err))
second_verdict first target (stat_ok second) =
    if same_file first second
    then if second.st_nlink == 0 then size_verdict second.st_size target else silent
    else advised fd_unstable

abbrev link_verdict : Stat → LinkAnswer → StatAnswer → Verdict
link_verdict first (link_failed err) b = advised (unavailable (map_readlinkat_errno err))
link_verdict first (link_text text) b =
    if leb (length text) 65536 then second_verdict first text b else advised target_length_limit

abbrev answers_verdict : StatAnswer → LinkAnswer → StatAnswer → Verdict
answers_verdict (stat_failed err) l b = advised (unavailable (map_fstatat_errno err))
answers_verdict (stat_ok first) l b =
    if is_regular first.st_mode then link_verdict first l b else silent

unfoldable pub verdict : World → ℕ → Verdict
verdict w fd = answers_verdict (w.first_stat fd) (w.link fd) (w.second_stat fd)

-- A descriptor of an unlinked regular file: both answers name the same regular file, the second has
-- no link left, and the text of the link is not too long.
pub record IsUnlinked (w : World) (fd size : ℕ) (target : Bytes) : Type 0 where
  pub first : Stat
  pub second : Stat
  pub first_is : w.first_stat fd ≡ stat_ok first
  pub second_is : w.second_stat fd ≡ stat_ok second
  pub link_is : w.link fd ≡ link_text target
  pub regular : (is_regular first.st_mode ≡ true) × (is_regular second.st_mode ≡ true)
  pub same : (first.st_dev ≡ second.st_dev) × (first.st_ino ≡ second.st_ino)
  pub no_link : second.st_nlink ≡ 0
  pub size_is : second.st_size ≡ nonnegative size
  pub not_long : length target ≤ 65536

pub verdict-IsUnlinked :
    (w : World) (fd size : ℕ) (target : Bytes)
    → (verdict w fd ≡ unlinked size target) ↔ IsUnlinked w fd size target
unfolding verdict
verdict-IsUnlinked w fd size target =
    (go (w.first_stat fd) (w.link fd) (w.second_stat fd) refl refl refl, back)
  where
    go :
        (a : StatAnswer) (l : LinkAnswer) (b : StatAnswer)
        → w.first_stat fd ≡ a
        → w.link fd ≡ l
        → w.second_stat fd ≡ b
        → answers_verdict (w.first_stat fd) (w.link fd) (w.second_stat fd) ≡ unlinked size target
        → IsUnlinked w fd size target
    go (stat_failed err) l b p q r e = absurd (ground arith)
    go (stat_ok first) (link_failed err) b p q r e = absurd (ground arith)
    go (stat_ok first) (link_text text) (stat_failed err) p q r e = absurd (ground arith)
    go (stat_ok first) (link_text text) (stat_ok second) p q r e = record {
      first = first;
      second = second;
      first_is = p;
      second_is = r;
      link_is = ground arith;
      regular = ground arith;
      same = ground arith;
      no_link = ground arith;
      size_is = ground arith;
      not_long = ground arith;
    }

    back :
        IsUnlinked w fd size target
        → answers_verdict (w.first_stat fd) (w.link fd) (w.second_stat fd) ≡ unlinked size target
    back u = rw (u.first_is, u.link_is, u.second_is) (ground arith)

take_short : (n : ℕ) (xs : Bytes) → length xs ≤ n → take n xs ≡ xs
take_short zero [] h = refl
take_short zero (x ∷ xs) h = absurd (omega arith)
take_short (suc n) [] h = refl
take_short (suc n) (x ∷ xs) h = ap (◌∷◌ x) (take_short n xs (omega arith))

length-take_long : (n : ℕ) (xs : Bytes) → n ≤ length xs → length (take n xs) ≡ n
length-take_long zero xs h = refl
length-take_long (suc n) [] h = absurd (omega arith)
length-take_long (suc n) (x ∷ xs) h = omega (arith, length-take_long n xs)

long_text : (text : Bytes) → leb (length text) 65536 ≡ false → 65537 ≤ length text
long_text text h = ground arith

-- A state in which a finding can be emitted.
pub record IsReady (st : ScanState) : Type 0 where
  pub has_line : st.line_buf ≡ true
  pub cap_is : st.line_cap ≡ finding_line_capacity
  pub pid_fits : st.pid ≤ int_max

-- The state after a verdict.
unfoldable pub record_verdict : Verdict → ℕ → ScanState → ScanState
record_verdict silent fd st = st
record_verdict (advised a) fd st = emit_fd_advisory a fd st
record_verdict (unlinked size target) fd st =
    let text = finding_text st.pid fd size target in
    record st {
      out = record st.out { written = st.out.written ++ text; room = st.out.room - length text };
      had_finding = true;
    }

-- The text on standard output.
unfoldable pub verdict_text : ℕ → ℕ → Verdict → Bytes
verdict_text pid fd silent = []
verdict_text pid fd (advised a) = []
verdict_text pid fd (unlinked size target) = finding_text pid fd size target

-- `st_size` is an `off_t` of 64 bits.
abbrev pub SizesFit : World → ℕ → Type 0
SizesFit w fd =
    (second : Stat) (n : ℕ)
    → w.second_stat fd ≡ stat_ok second
    → second.st_size ≡ nonnegative n
    → n < 2 ^ 63

emit_finding_ready :
    (fd size : ℕ) (target : Bytes) (st : ScanState)
    → IsReady st
    → fd ≤ int_max
    → size < 2 ^ 63
    → length target ≤ 65536
    → length (finding_text st.pid fd size target) ≤ st.out.room
    → emit_finding fd size target st ≡ some (record_verdict (unlinked size target) fd st)
unfolding emit_finding record_verdict
emit_finding_ready fd size target st ready f s t room =
    let cap = ready.cap_is in
    let line : finding_line st.line_cap st.pid fd size target
        ≡ some (finding_text st.pid fd size target) =
      rw cap (finding_line_fits st.pid fd size target ready.pid_fits f (omega arith) t) in
    let written = fputs-room (finding_text st.pid fd size target) st.out room in
    ground (arith, capacity)

-- The outcome of `inspect_one` is the verdict's, if there is room for its text.
module _ (w : World) (fd : ℕ) (st : ScanState) (ready : IsReady st) (fits : fd ≤ int_max)
    (sizes : SizesFit w fd) where
  abbrev pub Room : Verdict → Type 0
  Room v = length (verdict_text st.pid fd v) ≤ st.out.room

  report_unlinked_lem :
      (first second : Stat) (target : Bytes)
      → length target ≤ 65536
      → w.second_stat fd ≡ stat_ok second
      → is_regular first.st_mode ≡ true
      → Room (second_verdict first target (stat_ok second))
      → report_unlinked fd first second target st
        ≡ ok (record_verdict (second_verdict first target (stat_ok second)) fd st)
  unfolding report_unlinked record_verdict verdict_text
  report_unlinked_lem first second target short r reg room = go second.st_size refl
    where
      go :
          (n : OffT)
          → second.st_size ≡ n
          → report_unlinked fd first second target st
            ≡ ok (record_verdict (second_verdict first target (stat_ok second)) fd st)
      go (negative n) e = ground arith
      go (nonnegative n) e =
          let bound = sizes second n r e in
          ground (arith, emit_finding_ready fd n target st ready fits bound short)

  confirm_short :
      (first : Stat) (text : Bytes)
      → length text ≤ 65536
      → is_regular first.st_mode ≡ true
      → Room (second_verdict first text (w.second_stat fd))
      → confirm w fd first text st
        ≡ ok (record_verdict (second_verdict first text (w.second_stat fd)) fd st)
  unfolding confirm record_verdict
  confirm_short first text short reg room = go (w.second_stat fd) refl
    where
      go :
          (b : StatAnswer)
          → w.second_stat fd ≡ b
          → confirm w fd first text st
            ≡ ok (record_verdict (second_verdict first text (w.second_stat fd)) fd st)
      go (stat_failed err) r = ground arith
      go (stat_ok second) r =
          let here : Room (second_verdict first text (stat_ok second)) =
            subst (λ b. Room (second_verdict first text b)) r room in
          let step = report_unlinked_lem first second text short r reg here in
          rw (r, confirm) (ground (arith, step))

  confirm_long :
      (first : Stat) (text : Bytes)
      → 65537 ≤ length text
      → confirm w fd first (take target_buf_size text) st
        ≡ ok (emit_fd_advisory target_length_limit fd st)
  unfolding confirm
  confirm_long first text long =
      let all = length-take_long target_buf_size text long in
      let test : (length (take target_buf_size text) == target_buf_size) ≡ true =
        ground (arith, all) in
      rw test refl

  read_target_lem :
      (first : Stat)
      → is_regular first.st_mode ≡ true
      → Room (link_verdict first (w.link fd) (w.second_stat fd))
      → read_target w fd first st
        ≡ ok (record_verdict (link_verdict first (w.link fd) (w.second_stat fd)) fd st)
  unfolding read_target record_verdict
  read_target_lem first reg room = go (w.link fd) refl
    where
      go :
          (l : LinkAnswer)
          → w.link fd ≡ l
          → read_target w fd first st
            ≡ ok (record_verdict (link_verdict first (w.link fd) (w.second_stat fd)) fd st)
      go (link_failed err) q = ground arith
      go (link_text text) q = elim (Bool-cases (leb (length text) 65536)) [
        | inr long ↦
            let step = confirm_long first text (long_text text long) in
            rw (q, read_target, long) step
        | inl short ↦
            let here : Room (second_verdict first text (w.second_stat fd)) =
              rw short at (subst (λ l. Room (link_verdict first l (w.second_stat fd))) q room) in
            let le = leb→le (length text) 65536 short in
            let whole = take_short target_buf_size text (omega (arith, le)) in
            let step = confirm_short first text le reg here in
            rw (q, read_target, whole, short) step
      ]

  pub inspect_one_lem :
      Room (verdict w fd) → inspect_one w fd st ≡ ok (record_verdict (verdict w fd) fd st)
  unfolding inspect_one verdict record_verdict
  inspect_one_lem room = go (w.first_stat fd) refl
    where
      named : fd_name_fits fd ≡ true
      named = ground (arith, length-decimal 9 fd)

      go :
          (a : StatAnswer)
          → w.first_stat fd ≡ a
          → inspect_one w fd st
            ≡ ok (
                record_verdict
                  (answers_verdict (w.first_stat fd) (w.link fd) (w.second_stat fd))
                  fd
                  st)
      go (stat_failed err) p = rw named (rw (p, inspect_one) refl)
      go (stat_ok first) p = elim (Bool-cases (is_regular first.st_mode)) [
        | inr other ↦ rw named (ground arith)
        | inl regular ↦
            let here : Room (link_verdict first (w.link fd) (w.second_stat fd)) =
              rw regular at
                (subst (λ a. Room (answers_verdict a (w.link fd) (w.second_stat fd))) p room) in
            let step = read_target_lem first regular here in
            rw (named, p, inspect_one, regular) step
      ]
