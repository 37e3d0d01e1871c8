-- ===== src/Proc/Count.antt =====
-- getnprcs of lab system calls/kernel/proc.c.
use lab_utilities.Base.{
  ℕ, zero, suc, ◌+◌, ◌≡◌, ◌∙◌, ap, List, [], ◌∷◌, if◌then◌else◌, arith, Bool-cases, inl, inr,
  length,
}
use lab_utilities.Layout.{Layout}
use lab_utilities.Machine.{ok}
use lab_utilities.Proc.{unused, Proc, World, is_state}
use lab_utilities.Proc.Access.{getnprcs, getnprcs_loop}

-- The places from `i` on, among `n`, whose process is in use.
unfoldable pub in_use : (ℕ → Proc) → ℕ → ℕ → List ℕ
in_use procs zero i = []
in_use procs (suc n) i =
    if is_state (procs i).state unused then in_use procs n (i + 1) else i ∷ in_use procs n (i + 1)

getnprcs_loop-length :
    (n i cnt : ℕ) (w : World) → getnprcs_loop n i cnt w ≡ ok (cnt + length (in_use w.procs n i)) w
unfolding getnprcs_loop in_use
getnprcs_loop-length zero i cnt w = ap (λ (c : ℕ). ok c w) (omega arith)
getnprcs_loop-length (suc n) i cnt w = elim (Bool-cases (is_state (w.procs i).state unused)) [
  | inl free ↦ rw (free, getnprcs_loop-length n (i + 1) cnt w)
  | inr taken ↦
      rw (taken, getnprcs_loop-length n (i + 1) (cnt + 1) w) (ap (λ (c : ℕ). ok c w) (omega arith))
]

-- getnprcs ends, changes nothing, and returns the number of places of the table in use.
pub getnprcs-length :
    (l : Layout) (w : World) → getnprcs l w ≡ ok (length (in_use w.procs l.nproc 0)) w
unfolding getnprcs
getnprcs-length l w = getnprcs_loop-length l.nproc 0 0 w ∙ ap (λ (c : ℕ). ok c w) (omega arith)
