-- ===== src/Proc/Life/Waiting.antt =====
-- wait of kernel/proc.c while no child has exited.
use lab_utilities.Base.{
  ℕ, zero, suc, ◌+◌, ◌<◌, ◌≡◌, ◌≢◌, ◌⊎◌, refl, ap, Bool, true, false, ◌||◌, List, [], ◌∷◌, none,
  some, ◌==◌, ==_refl, ==_iff, arith, Bool-cases, inl, inr,
}
use lab_utilities.Layout.{Layout}
use lab_utilities.Machine.{ok, Event, wait_lock, proc_lock, acquired, released}
use lab_utilities.Proc.{ProcState, sleeping, zombie, Proc, World, update, is_state, same_proc}
use lab_utilities.Proc.Alloc.{Lab}
use lab_utilities.Proc.Sched.{sched, sleep, killed}
use lab_utilities.Proc.Sched.Switch.{sched_iff}
use lab_utilities.Proc.Life.{Wait, finished, asleep, scanned, wait_scan, wait_round, wait}
use lab_utilities.Proc.Life.Leaving.{traced}

-- Whether one of `n` entries from `j` on is a child of `i`.
abbrev pub any_child : (ℕ → Proc) → (i n j : ℕ) → Bool
any_child procs i zero j = false
any_child procs i (suc n) j = same_proc (procs j).parent (some i) || any_child procs i n (j + 1)

-- No child of `i` in the table has exited.
abbrev pub AllAlive : ℕ → ℕ → World → Type 0
AllAlive n i w =
    (k : ℕ) → k < n → same_proc (w.procs k).parent (some i) ≡ true → (w.procs k).state ≢ zombie

is_state-zombie : (s : ProcState) → s ≢ zombie → is_state s zombie ≡ false
is_state-zombie s ne = ground arith

wait_scan-alive :
    (lab : Lab) (l : Layout) (i addr n j : ℕ) (kids : Bool) (w : World)
    → AllAlive (j + n) i w
    → (tr : List Event) × (wait_scan lab l i addr n j kids w
        ≡ ok (scanned (kids || any_child w.procs i n j)) (traced w tr))
unfolding wait_scan
wait_scan-alive lab l i addr zero j kids w alive =
    (w.machine.trace, ap (λ (b : Bool). ok (scanned b) w) (ground arith))
wait_scan-alive lab l i addr (suc n) j kids w alive =
    elim (Bool-cases (same_proc (w.procs j).parent (some i))) [
      | inr other ↦
          let (tr, run) =
            wait_scan-alive lab l i addr n (j + 1) kids w (λ k low. alive k (omega arith)) in
          (tr, rw other run)
      | inl mine ↦
          let living = is_state-zombie (w.procs j).state (alive j (omega arith) mine) in
          let (tr, run) =
            wait_scan-alive lab l i addr n (j + 1) true
              (traced w (released (proc_lock j) ∷ acquired (proc_lock j) ∷ w.machine.trace))
              (λ k low. alive k (omega arith)) in
          let some_child : (kids || true) ≡ true = ground arith in
          (tr, rw (mine, living, some_child) run)
    ]

-- The world in which wait gives up the CPU.
abbrev slept : Layout → ℕ → World → World
slept l i w = record w {
  machine = record w.machine {
    trace = released wait_lock ∷ acquired (proc_lock i) ∷ w.machine.trace;
  };
  procs = update w.procs i (λ p. record p { chan = l.proc_addr i; state = sleeping });
}

-- The world after killed(p) has taken and released the lock of `i`.
abbrev asked : ℕ → World → World
asked i w = traced w (released (proc_lock i) ∷ acquired (proc_lock i) ∷ w.machine.trace)

module _ (lab : Lab) (l : Layout) (i addr : ℕ) (w : World) (tr : List Event) where
  abbrev entering : World
  entering = traced w (acquired wait_lock ∷ w.machine.trace)

  wait-childless :
      wait_scan lab l i addr l.nproc 0 false entering ≡ ok (scanned false) (traced w tr)
      → wait lab l i addr w ≡ ok (finished none) (traced w (released wait_lock ∷ tr))
  unfolding wait wait_round
  wait-childless run = rw run

  wait-killed :
      wait_scan lab l i addr l.nproc 0 false entering ≡ ok (scanned true) (traced w tr)
      → ((w.procs i).killed == 0) ≡ false
      → wait lab l i addr w
        ≡ ok
            (finished none)
            (traced w (released wait_lock ∷ released (proc_lock i) ∷ acquired (proc_lock i) ∷ tr))
  unfolding wait wait_round killed
  wait-killed run dead = rw (run, dead)

  wait-sleeps :
      wait_scan lab l i addr l.nproc 0 false entering ≡ ok (scanned true) (traced w tr)
      → ((w.procs i).killed == 0) ≡ true
      → sched i (slept l i (asked i (traced w tr)))
        ≡ ok w.cpu.intena (slept l i (asked i (traced w tr)))
      → wait lab l i addr w ≡ ok (asleep w.cpu.intena) (slept l i (asked i (traced w tr)))
  unfolding wait wait_round killed sleep
  wait-sleeps run alive switches = rw (run, alive, switches)

-- What a call of wait comes to as long as no child has exited: -1 for a process without children or
-- one that has been killed, and otherwise sleep on the process's own address.
pub data Waited (l : Layout) (i : ℕ) (w : World) : Wait → World → Type 0 where
  refused :
      (v : World)
      → (any_child w.procs i l.nproc 0 ≡ false) ⊎ ((w.procs i).killed ≢ 0)
      → v.procs ≡ w.procs
      → Waited l i w (finished none) v
  sleeps :
      (v : World) (earlier : List Event)
      → any_child w.procs i l.nproc 0 ≡ true
      → (w.procs i).killed ≡ 0
      → (v.procs i).state ≡ sleeping
      → (v.procs i).chan ≡ l.proc_addr i
      → v.machine.trace ≡ released wait_lock ∷ acquired (proc_lock i) ∷ earlier
      → Waited l i w (asleep w.cpu.intena) v

slept_self :
    (l : Layout) (i : ℕ) (w : World)
    → (((slept l i w).procs i).state ≡ sleeping) × (((slept l i w).procs i).chan ≡ l.proc_addr i)
unfolding update
slept_self l i w = (rw (==_refl i), rw (==_refl i))

-- wait by a process of whose children none has exited, with no other lock held at the switch, takes
-- one of two ways: it returns -1, with the table unchanged, exactly if the process has no children
-- or has been killed; otherwise it comes to the switch asleep on its own address, and has released
-- wait_lock only after it took its own lock.
pub wait-Waited :
    (lab : Lab) (l : Layout) (i addr : ℕ) (w : World)
    → AllAlive l.nproc i w
    → w.cpu.holding ≡ true
    → w.cpu.noff ≡ 1
    → w.cpu.intr ≡ false
    → (r : Wait) × (v : World) × (wait lab l i addr w ≡ ok r v) × Waited l i w r v
wait-Waited lab l i addr w alive holding one_lock masked =
    let (tr, run) =
      wait_scan-alive lab l i addr l.nproc 0 false (entering lab l i addr w [])
        (λ k low. alive k (omega arith)) in
    elim (Bool-cases (any_child w.procs i l.nproc 0)) [
      | inr childless ↦ (
        finished none,
        traced w (released wait_lock ∷ tr),
        wait-childless lab l i addr w tr (rw childless at run),
        refused (traced w (released wait_lock ∷ tr)) (inl childless) refl,
      )
      | inl child ↦ elim (Bool-cases ((w.procs i).killed == 0)) [
        | inr dead ↦
            let v : World =
              traced w
                (released wait_lock ∷ released (proc_lock i) ∷ acquired (proc_lock i) ∷ tr) in
            (
              finished none,
              v,
              wait-killed lab l i addr w tr (rw child at run) dead,
              refused v (inr (λ e. cc (dead, (==_iff (w.procs i).killed 0).1 e))) refl,
            )
        | inl living ↦
            let v : World = slept l i (asked i (traced w tr)) in
            let (state, chan) = slept_self l i (asked i (traced w tr)) in
            let switches = (sched_iff i v).1 (holding, one_lock, λ e. cc (state, e), masked) in
            (
              asleep w.cpu.intena,
              v,
              wait-sleeps lab l i addr w tr (rw child at run) living switches,
              sleeps v (released (proc_lock i) ∷ acquired (proc_lock i) ∷ tr) child
                  ((==_iff (w.procs i).killed 0).0 living) state chan refl,
            )
      ]
    ]
