-- ===== src/Proc/Sched/Wakeup.antt =====
-- sleep and wakeup of lab page tables/kernel/proc.c.
use Prim.Native.Nat.add
use lab_utilities.Base.{
  ℕ, zero, suc, ◌+◌, ◌<◌, ◌≡◌, refl, ◌∙◌, Bool, true, false, not, ◌&&◌, ◌∷◌, Option, some, arith,
  ltb, leb, ◌==◌, if◌then◌else◌, inl, inr, Bool-cases, lt→ltb, le→leb, ==_refl, ==_ne, ℕ_discrete,
  ◌||◌,
}
use lab_utilities.Layout.{Layout}
use lab_utilities.Machine.{Lock, proc_lock, acquired, released, ok}
use lab_utilities.Proc.{sleeping, runnable, Proc, World, update, is_state, same_proc}
use lab_utilities.Proc.Sched.{wakeup_loop, wakeup, sleep, sched}

-- the process in place `j` after a wakeup by `me`
abbrev pub woken : Option ℕ → ℕ → ℕ → Proc → Proc
woken me chan j p =
    if not (same_proc (some j) me) && (is_state p.state sleeping && (p.chan == chan))
    then record p { state = runnable }
    else p

-- What a wakeup leaves alone.
pub record Quiet (w v : World) : Type 0 where
  pub current : v.current ≡ w.current
  pub mem : v.machine.mem ≡ w.machine.mem
  pub freelist : v.machine.freelist ≡ w.machine.freelist
  pub nextpid : v.nextpid ≡ w.nextpid
  pub initproc : v.initproc ≡ w.initproc
  pub cpu : v.cpu ≡ w.cpu
  pub clock : v.clock ≡ w.clock

pub Quiet-refl : (w : World) → Quiet w w
Quiet-refl w = ground arith

pub Quiet-trans : {u v w : World} → Quiet u v → Quiet v w → Quiet u w
Quiet-trans a b = record {
  current = b.current ∙ a.current;
  mem = b.mem ∙ a.mem;
  freelist = b.freelist ∙ a.freelist;
  nextpid = b.nextpid ∙ a.nextpid;
  initproc = b.initproc ∙ a.initproc;
  cpu = b.cpu ∙ a.cpu;
  clock = b.clock ∙ a.clock;
}

-- One round of the loop, as a state.
step_state : ℕ → ℕ → World → World
step_state chan i w = if same_proc (some i) w.current then w else record w {
  procs =
      if is_state (w.procs i).state sleeping && ((w.procs i).chan == chan)
      then update w.procs i (λ q. record q { state = runnable })
      else w.procs;
  machine = record w.machine {
    trace = released (proc_lock i) ∷ acquired (proc_lock i) ∷ w.machine.trace;
  };
}

wakeup_loop-suc :
    (chan n i : ℕ) (w : World)
    → wakeup_loop chan (suc n) i w ≡ wakeup_loop chan n (i + 1) (step_state chan i w)
unfolding wakeup_loop step_state
wakeup_loop-suc chan n i w = elim (Bool-cases (same_proc (some i) w.current)) [
  | inl me ↦ rw me
  | inr other ↦
      elim (Bool-cases (is_state (w.procs i).state sleeping && ((w.procs i).chan == chan))) [
        | inl hit ↦ rw (other, hit)
        | inr miss ↦ rw (other, miss)
      ]
]

step-Quiet : (chan i : ℕ) (w : World) → Quiet w (step_state chan i w)
unfolding step_state
step-Quiet chan i w = ground arith

step-procs :
    (chan i j : ℕ) (w : World)
    → (step_state chan i w).procs j
      ≡ (if i == j then woken w.current chan j (w.procs j) else w.procs j)
unfolding update step_state
step-procs chan i j w = elim (ℕ_discrete i j) [
  | yes e ↦ rw (e, ==_refl j) (ground arith)
  | no ne ↦ rw (==_ne i j ne) (ground arith)
]

-- A change made in one place or in the rest of a range, never in both.
merge :
    (f : Proc → Proc) (a b : Bool) (x : Proc)
    → (a && b) ≡ false
    → (if b then f (if a then f x else x) else (if a then f x else x)) ≡ (if a || b then f x else x)
merge f true true x h = cc
merge f true false x h = refl
merge f false true x h = refl
merge f false false x h = refl

-- Membership in a range that starts one place earlier.
range_suc :
    (i n j : ℕ)
    → (leb i j && ltb j (i + suc n)) ≡ ((i == j) || (leb (i + 1) j && ltb j (i + 1 + n)))
range_suc i n j = ground arith

wakeup_loop-procs :
    (chan n i : ℕ) (w : World)
    → (v : World) × (wakeup_loop chan n i w ≡ ok tt v)
      × ((j : ℕ)
          → v.procs j
            ≡ (if leb i j && ltb j (i + n) then woken w.current chan j (w.procs j) else w.procs j))
      × Quiet w v
unfolding wakeup_loop
wakeup_loop-procs chan zero i w = (w, refl, λ j. ground arith, Quiet-refl w)
wakeup_loop-procs chan (suc n) i w =
    let (v, run, table, quiet) = wakeup_loop-procs chan n (i + 1) (step_state chan i w) in
    (
      v,
      wakeup_loop-suc chan n i w ∙ run,
      λ j.
          table j
          ∙ rw (step-procs chan i j w, (step-Quiet chan i w).current, range_suc i n j)
              (merge (woken w.current chan j) (i == j) (leb (i + 1) j && ltb j (i + 1 + n))
                (w.procs j) (ground arith)),
      Quiet-trans (step-Quiet chan i w) quiet,
    )

-- wakeup(chan) always returns, and makes runnable exactly the other processes that sleep on `chan`.
-- Memory, the free list and the rest of the world are as before.
pub wakeup-procs :
    (l : Layout) (chan : ℕ) (w : World)
    → (v : World) × (wakeup l chan w ≡ ok tt v)
      × ((j : ℕ)
          → v.procs j ≡ (if ltb j l.nproc then woken w.current chan j (w.procs j) else w.procs j))
      × Quiet w v
unfolding wakeup
wakeup-procs l chan w =
    let (v, run, table, quiet) = wakeup_loop-procs chan l.nproc 0 w in
    (v, run, λ j. table j ∙ rw (le→leb 0 j (omega arith), add.zero l.nproc), quiet)

-- The state in which sleep gives up the CPU.
sleep-state :
    (i chan intena : ℕ) (lk : Lock) (w v : World)
    → sleep i chan lk w ≡ ok intena v
    → (v.machine.trace ≡ released lk ∷ acquired (proc_lock i) ∷ w.machine.trace)
      × ((v.procs i).state ≡ sleeping)
      × ((v.procs i).chan ≡ chan)
unfolding sleep sched update
sleep-state i chan intena lk w v e = ground (arith, ==_refl i)

-- sleep takes the process's own lock before it gives up `lk`.
pub sleep-locks :
    (i chan intena : ℕ) (lk : Lock) (w v : World)
    → sleep i chan lk w ≡ ok intena v
    → v.machine.trace ≡ released lk ∷ acquired (proc_lock i) ∷ w.machine.trace
sleep-locks i chan intena lk w v e = (sleep-state i chan intena lk w v e).0

-- No wakeup is lost: once a process has gone to sleep on `chan`, a wakeup of `chan` by another
-- process, in any state that keeps its entry in the table, returns and makes it runnable.
pub sleep-wakeup :
    (l : Layout) (i chan intena : ℕ) (lk : Lock) (w v u : World)
    → i < l.nproc
    → sleep i chan lk w ≡ ok intena v
    → u.procs i ≡ v.procs i
    → same_proc (some i) u.current ≡ false
    → (t : World) × (wakeup l chan u ≡ ok tt t) × ((t.procs i).state ≡ runnable)
sleep-wakeup l i chan intena lk w v u h e same other =
    let (order, asleep, on_chan) = sleep-state i chan intena lk w v e in
    let (t, run, table, quiet) = wakeup-procs l chan u in
    let hit : is_state (u.procs i).state sleeping && ((u.procs i).chan == chan) ≡ true =
      rw (same, asleep, on_chan) (==_refl chan) in
    (t, run, rw (table i, lt→ltb i l.nproc h, other, hit))
