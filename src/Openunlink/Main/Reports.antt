-- ===== src/Openunlink/Main/Reports.antt =====
-- What a whole scan reports, when the kernel answers every call.
use linux_utilities.Common.{
  ℕ, ◌+◌, ◌-◌, ◌≤◌, ◌≡◌, refl, ap, ◌∙◌, subst, Bool, true, false, not, ◌||◌, List, [], ◌∷◌, ◌++◌,
  none, some, arith, Bytes, Bool-cases, inl, inr, length, length-append, append_assoc, append-nil,
  All, same_text, eq-same_text, leb,
}
use linux_utilities.Common.Decimal.{decimal}
use linux_utilities.Common.Text.{codes}
use linux_utilities.Openunlink.Inspect.Verdict.{
  Verdict, silent, advised, unlinked, verdict, verdict_text, record_verdict, IsReady, SizesFit,
  inspect_one_lem,
}
use linux_utilities.Openunlink.Number.{int_max, parse_fd_name}
use linux_utilities.Openunlink.Number.Laws.{parse_canonical_int_iff}
use linux_utilities.Openunlink.Scan.{enumerate_fds, inspect_all}
use linux_utilities.Openunlink.State.{Report, fd_advisory, ScanState, emit_fd_advisory, ok, World}

-- The state behind the verdicts on some descriptors.
pub record_all : World → List ℕ → ScanState → ScanState
record_all w [] st = st
record_all w (fd ∷ fds) st = record_all w fds (record_verdict (verdict w fd) fd st)

-- Standard output: the findings, in their order.
unfoldable pub scan_text : World → ℕ → List ℕ → Bytes
scan_text w pid [] = []
scan_text w pid (fd ∷ fds) = verdict_text pid fd (verdict w fd) ++ scan_text w pid fds

abbrev pub verdict_report : ℕ → ℕ → Verdict → List Report
verdict_report pid fd (advised a) = fd_advisory a pid fd ∷ []
verdict_report pid fd _ = []

-- Standard error: the advisories, in their order.
unfoldable pub scan_reports : World → ℕ → List ℕ → List Report
scan_reports w pid [] = []
scan_reports w pid (fd ∷ fds) = verdict_report pid fd (verdict w fd) ++ scan_reports w pid fds

abbrev pub is_silent : Verdict → Bool
is_silent silent = true
is_silent _ = false

-- Some verdict is not silent.
unfoldable pub any_verdict : World → List ℕ → Bool
any_verdict w [] = false
any_verdict w (fd ∷ fds) = not (is_silent (verdict w fd)) || any_verdict w fds

abbrev pub FitsAll : World → List ℕ → Type 0
FitsAll w fds = All (λ fd. (fd ≤ int_max) × SizesFit w fd) fds

record_verdict-IsReady :
    (v : Verdict) (fd : ℕ) (st : ScanState) → IsReady st → IsReady (record_verdict v fd st)
unfolding record_verdict emit_fd_advisory
record_verdict-IsReady silent fd st r = r
record_verdict-IsReady (advised a) fd st r = ground arith
record_verdict-IsReady (unlinked size target) fd st r = ground arith

-- What one state has reported more than another.
pub record Reported (text : Bytes) (reports : List Report) (loud : Bool) (st st' : ScanState)
    : Type 0 where
  pub written_is : st'.out.written ≡ st.out.written ++ text
  pub room_is : st'.out.room ≡ st.out.room - length text
  pub flushes_is : st'.out.flushes ≡ st.out.flushes
  pub err_is : st'.err ≡ st.err ++ reports
  pub loud_is : (st'.had_finding || st'.had_advisory) ≡ (st.had_finding || st.had_advisory || loud)
  pub op_is : st'.op ≡ st.op
  pub pid_is : st'.pid ≡ st.pid

record_verdict-Reported :
    (v : Verdict) (fd : ℕ) (st : ScanState)
    → Reported
        (verdict_text st.pid fd v)
        (verdict_report st.pid fd v)
        (not (is_silent v))
        st
        (record_verdict v fd st)
unfolding record_verdict verdict_text emit_fd_advisory
record_verdict-Reported silent fd st = ground (arith, append-nil st.out.written, append-nil st.err)
record_verdict-Reported (advised a) fd st = ground (arith, append-nil st.out.written)
record_verdict-Reported (unlinked size target) fd st = ground (arith, append-nil st.err)

Reported-then :
    (text text' : Bytes) (reports reports' : List Report) (loud loud' : Bool) (a b c : ScanState)
    → Reported text reports loud a b
    → Reported text' reports' loud' b c
    → Reported (text ++ text') (reports ++ reports') (loud || loud') a c
Reported-then text text' reports reports' loud loud' a b c p q = record {
  written_is =
      q.written_is ∙ ap (λ t. t ++ text') p.written_is ∙ append_assoc a.out.written text text';
  room_is = omega (arith, length-append text text', q.room_is, p.room_is);
  flushes_is = q.flushes_is ∙ p.flushes_is;
  err_is = q.err_is ∙ ap (λ t. t ++ reports') p.err_is ∙ append_assoc a.err reports reports';
  loud_is = ground (arith, q.loud_is, p.loud_is);
  op_is = q.op_is ∙ p.op_is;
  pid_is = q.pid_is ∙ p.pid_is;
}

pub record_all-Reported :
    (w : World) (fds : List ℕ) (st : ScanState)
    → Reported
        (scan_text w st.pid fds)
        (scan_reports w st.pid fds)
        (any_verdict w fds)
        st
        (record_all w fds st)
unfolding record_all scan_text scan_reports any_verdict
record_all-Reported w [] st = ground (arith, append-nil st.out.written, append-nil st.err)
record_all-Reported w (fd ∷ fds) st =
    let next = record_verdict (verdict w fd) fd st in
    let one = record_verdict-Reported (verdict w fd) fd st in
    let rest : Reported (scan_text w st.pid fds) (scan_reports w st.pid fds) (any_verdict w fds)
        next (record_all w fds next) =
      subst
        (λ p.
          Reported (scan_text w p fds) (scan_reports w p fds) (any_verdict w fds) next
            (record_all w fds next))
        one.pid_is (record_all-Reported w fds next) in
    Reported-then _ _ _ _ _ _ st next (record_all w fds next) one rest

pub inspect_all_lem :
    (w : World) (fds : List ℕ) (st : ScanState)
    → IsReady st
    → FitsAll w fds
    → length (scan_text w st.pid fds) ≤ st.out.room
    → inspect_all w fds st ≡ ok (record_all w fds st)
unfolding inspect_all record_all scan_text
inspect_all_lem w [] st ready fits room = refl
inspect_all_lem w (fd ∷ fds) st ready ((fit, sizes), fits) room =
    let joined = length-append (verdict_text st.pid fd (verdict w fd)) (scan_text w st.pid fds) in
    let one = record_verdict-Reported (verdict w fd) fd st in
    let step = inspect_one_lem w fd st ready fit sizes (omega (arith, joined, room)) in
    let next = record_verdict (verdict w fd) fd st in
    let pid_is = one.pid_is in
    let left : length (scan_text w next.pid fds) ≤ next.out.room =
      rw pid_is (omega (arith, joined, room, one.room_is)) in
    rw step
      (inspect_all_lem w fds next (record_verdict-IsReady (verdict w fd) fd st ready) fits left)

-- The names of a process directory: the two dots anywhere, and numerals.
pub data Lists : List Bytes → List ℕ → Type 0 where
  ended : Lists [] []
  dot :
      (name : Bytes) {names : List Bytes} {fds : List ℕ}
      → (same_text name (codes ".") || same_text name (codes "..")) ≡ true
      → Lists names fds
      → Lists (name ∷ names) fds
  number :
      (fd : ℕ) (name : Bytes) {names : List Bytes} {fds : List ℕ}
      → fd ≤ int_max
      → name ≡ decimal fd
      → Lists names fds
      → Lists (name ∷ names) (fd ∷ fds)

numeral_lem : (fd : ℕ) → fd ≤ int_max → parse_fd_name (decimal fd) ≡ some fd
unfolding parse_fd_name
numeral_lem fd small = (parse_canonical_int_iff true (decimal fd) fd).1 (refl, small, inl refl)

not_numeral :
    (fd : ℕ) (text : Bytes)
    → fd ≤ int_max
    → parse_fd_name text ≡ none
    → same_text (decimal fd) text ≡ false
not_numeral fd text small bad = elim (Bool-cases (same_text (decimal fd) text)) [
  | inr f ↦ f
  | inl e ↦
      let is = eq-same_text (decimal fd) text e in
      let good = numeral_lem fd small in absurd (ground (arith, ap parse_fd_name is))
]

no_dot :
    (fd : ℕ)
    → fd ≤ int_max
    → (same_text (decimal fd) (codes ".") || same_text (decimal fd) (codes "..")) ≡ false
no_dot fd small =
    rw
      (
        not_numeral fd (codes ".") small (unfold parse_fd_name in refl),
        not_numeral fd (codes "..") small (unfold parse_fd_name in refl),
      )
      refl

pub enumerate_fds_lem :
    {names : List Bytes} {fds : List ℕ} (st : ScanState)
    → Lists names fds
    → length st.fds + length fds ≤ 65536
    → enumerate_fds names false st ≡ ok (record st { fds = st.fds ++ fds })
unfolding enumerate_fds
enumerate_fds_lem st ended h = rw (append-nil st.fds) refl
enumerate_fds_lem st (dot name d rest) h = rw d (enumerate_fds_lem st rest h)
enumerate_fds_lem st (number fd name {fds = fds} small is rest) h =
    let more =
      enumerate_fds_lem (record st { fds = st.fds ++ fd ∷ [] }) rest
        (omega (arith, length-append st.fds (fd ∷ []), h)) in
    let test : leb 65536 (length st.fds) ≡ false = ground arith in
    let joined = append_assoc st.fds (fd ∷ []) fds in
    rw (is, no_dot fd small, numeral_lem fd small, test)
      (more ∙ ap (λ l. ok (record st { fds = l })) joined)
