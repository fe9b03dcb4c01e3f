-- ===== src/Openunlink/Scan/Sorting.antt =====
-- The sorted descriptor numbers, and the test for duplicates.
use linux_utilities.Common.{
  ℕ, ◌+◌, ◌≤◌, ◌<◌, ◌≡◌, ◌≢◌, inl, inr, refl, false, List, [], ◌∷◌, leb, arith, All, Bool-cases,
}
use mathlib.Core.List.{Perm}
use mathlib.Core.List.Perm
use linux_utilities.Openunlink.State.{ScanState, ok}
use linux_utilities.Openunlink.Scan.{insert_fd, sort_fds, has_duplicate, sort_and_check_duplicates}

-- Strictly ascending.
abbrev pub IsAscending : List ℕ → Type 0
IsAscending [] = Unit
IsAscending (a ∷ []) = Unit
IsAscending (a ∷ b ∷ fds) = (a < b) × IsAscending (b ∷ fds)

abbrev IsSorted : List ℕ → Type 0
IsSorted [] = Unit
IsSorted (a ∷ []) = Unit
IsSorted (a ∷ b ∷ fds) = (a ≤ b) × IsSorted (b ∷ fds)

insert_fd-perm : (fd : ℕ) (fds : List ℕ) → Perm (insert_fd fd fds) (fd ∷ fds)
unfolding insert_fd
insert_fd-perm fd [] = Perm.refl (fd ∷ [])
insert_fd-perm fd (x ∷ fds) = elim (Bool-cases (leb fd x)) [
  | inl e ↦ rw e (Perm.refl (fd ∷ x ∷ fds))
  | inr e ↦ rw e (Perm.trans (Perm.cons x (insert_fd-perm fd fds)) (Perm.swap fd x fds))
]

pub sort_fds-perm : (fds : List ℕ) → Perm (sort_fds fds) fds
unfolding sort_fds
sort_fds-perm [] = Perm.refl []
sort_fds-perm (fd ∷ fds) =
    Perm.trans (insert_fd-perm fd (sort_fds fds)) (Perm.cons fd (sort_fds-perm fds))

insert_fd-IsSorted : (fd : ℕ) (fds : List ℕ) → IsSorted fds → IsSorted (insert_fd fd fds)
unfolding insert_fd
insert_fd-IsSorted fd [] h = tt
insert_fd-IsSorted fd (a ∷ []) h = ground arith
insert_fd-IsSorted fd (a ∷ b ∷ fds) h = ground (arith, insert_fd-IsSorted fd (b ∷ fds))

sort_fds-IsSorted : (fds : List ℕ) → IsSorted (sort_fds fds)
unfolding sort_fds
sort_fds-IsSorted [] = tt
sort_fds-IsSorted (fd ∷ fds) = insert_fd-IsSorted fd (sort_fds fds) (sort_fds-IsSorted fds)

no_duplicate : (fds : List ℕ) → IsSorted fds → has_duplicate fds ≡ false → IsAscending fds
unfolding has_duplicate
no_duplicate [] h e = tt
no_duplicate (a ∷ []) h e = tt
no_duplicate (a ∷ b ∷ fds) h e = ground (arith, no_duplicate (b ∷ fds))

-- No number occurs twice.
abbrev pub Distinct : List ℕ → Type 0
Distinct [] = Unit
Distinct (fd ∷ fds) = All (λ x. x ≢ fd) fds × Distinct fds

insert_fd-All {ℓ} :
    (P : ℕ → Type ℓ) (fd : ℕ) (fds : List ℕ) → P fd → All P fds → All P (insert_fd fd fds)
unfolding insert_fd
insert_fd-All P fd [] p h = (p, tt)
insert_fd-All P fd (x ∷ fds) p (q, h) = elim (Bool-cases (leb fd x)) [
  | inl e ↦ rw e (p, (q, h))
  | inr e ↦ rw e (q, insert_fd-All P fd fds p h)
]

pub sort_fds-All {ℓ} : (P : ℕ → Type ℓ) (fds : List ℕ) → All P fds → All P (sort_fds fds)
unfolding sort_fds
sort_fds-All P [] h = tt
sort_fds-All P (fd ∷ fds) (p, h) = insert_fd-All P fd (sort_fds fds) p (sort_fds-All P fds h)

insert_fd-no_duplicate :
    (fd : ℕ) (fds : List ℕ)
    → All (λ x. x ≢ fd) fds
    → has_duplicate fds ≡ false
    → has_duplicate (insert_fd fd fds) ≡ false
unfolding insert_fd has_duplicate
insert_fd-no_duplicate fd [] other h = refl
insert_fd-no_duplicate fd (a ∷ []) other h = ground arith
insert_fd-no_duplicate fd (a ∷ b ∷ fds) other h =
    ground (arith, insert_fd-no_duplicate fd (b ∷ fds))

pub sort_fds-no_duplicate : (fds : List ℕ) → Distinct fds → has_duplicate (sort_fds fds) ≡ false
unfolding sort_fds has_duplicate
sort_fds-no_duplicate [] h = refl
sort_fds-no_duplicate (fd ∷ fds) (other, h) =
    insert_fd-no_duplicate fd (sort_fds fds) (sort_fds-All (λ x. x ≢ fd) fds other)
      (sort_fds-no_duplicate fds h)

pub sort_fds-IsAscending : (fds : List ℕ) → Distinct fds → IsAscending (sort_fds fds)
sort_fds-IsAscending fds once =
    no_duplicate (sort_fds fds) (sort_fds-IsSorted fds) (sort_fds-no_duplicate fds once)

-- The sum of a measure over a list.
unfoldable pub total : (ℕ → ℕ) → List ℕ → ℕ
total f [] = 0
total f (x ∷ xs) = f x + total f xs

total-insert_fd :
    (f : ℕ → ℕ) (fd : ℕ) (fds : List ℕ) → total f (insert_fd fd fds) ≡ f fd + total f fds
unfolding insert_fd total
total-insert_fd f fd [] = refl
total-insert_fd f fd (x ∷ fds) = elim (Bool-cases (leb fd x)) [
  | inl e ↦ rw e refl
  | inr e ↦ rw e (omega (arith, total-insert_fd f fd fds))
]

pub total-sort_fds : (f : ℕ → ℕ) (fds : List ℕ) → total f (sort_fds fds) ≡ total f fds
unfolding sort_fds total
total-sort_fds f [] = refl
total-sort_fds f (fd ∷ fds) =
    omega (arith, total-insert_fd f fd (sort_fds fds), total-sort_fds f fds)

-- What is left to inspect is what was listed, in strictly ascending order.
pub sort_and_check_duplicates-IsAscending :
    (st st' : ScanState)
    → sort_and_check_duplicates st ≡ ok st'
    → IsAscending st'.fds × Perm st'.fds st.fds
unfolding sort_and_check_duplicates
sort_and_check_duplicates-IsAscending st st' e =
    let sorted : st'.fds ≡ sort_fds st.fds = ground arith in
    let once : has_duplicate (sort_fds st.fds) ≡ false = ground arith in
    rw sorted (no_duplicate (sort_fds st.fds) (sort_fds-IsSorted st.fds) once, sort_fds-perm st.fds)
