-- ===== src/Trap/Alarm.antt =====
-- The periodic alarm of lab traps: alarm_tick (usertrap in kernel/trap.c) and sys_sigreturn
-- (kernel/sysproc.c).
use lab_utilities.Base.{
  subst, ℕ, ◌+◌, ◌-◌, ◌%◌, ◌^◌, ◌≤◌, ◌<◌, ◌≡◌, ◌⊎◌, refl, ◌∙◌, ap, Bool, true, false, not, ◌&&◌,
  ◌∷◌, arith, ◌==◌, ==_refl,
}
use lab_utilities.Memory.{Mem, load64, store64, move}
use lab_utilities.Memory.Laws.{load64-store64_self, store-SameOutside, move-inside, load-Agree}
use lab_utilities.Machine.{ok-state, ok, acquired, released, tickslock}
use lab_utilities.Proc.{Proc, World, update}
use lab_utilities.Proc.Life.{trapframe_size, tf_epc}
use lab_utilities.Syscall.{tf_arg}
use lab_utilities.Trap.{magnitude, alarm_tick, sys_sigreturn}

-- Whether the next timer interrupt calls the handler.
abbrev pub due : Proc → Bool
due p =
    let ticks = (p.ticks + 1) % 2 ^ 32 in
    (magnitude ticks % magnitude p.ainterv == 0) && not (ticks == 0) && (p.hfl == 0)

-- The trapframe and the copy saved from it do not overlap.
abbrev pub IsApart : Proc → Type 0
IsApart p =
    (p.trapframe + trapframe_size ≤ p.trapframesv) ⊎ (p.trapframesv + trapframe_size ≤ p.trapframe)

-- The memory after the handler's call has been prepared.
abbrev armed : Mem → Proc → Mem
armed m p =
    store64 (move m p.trapframesv p.trapframe trapframe_size) (p.trapframe + tf_epc) p.handler

-- A timer interrupt counts a tick and, unless the handler is due, changes no memory. In particular
-- nothing is saved or redirected while a handler runs (`hfl` is not 0).
alarm_tick-idle :
    (i : ℕ) (w : World)
    → due (w.procs i) ≡ false
    → (v : World) × (alarm_tick i w ≡ ok tt v)
      × (v.machine ≡ w.machine)
      × ((v.procs i).ticks ≡ ((w.procs i).ticks + 1) % 2 ^ 32)
      × ((v.procs i).hfl ≡ (w.procs i).hfl)
unfolding alarm_tick update
alarm_tick-idle i w idle = (
  record w { procs = update w.procs i (λ p. record p { ticks = (p.ticks + 1) % 2 ^ 32 }) },
  rw (==_refl i, idle),
  refl,
  rw (==_refl i),
  rw (==_refl i),
)

-- What a timer interrupt leaves where the handler is due.
record Fired (i : ℕ) (w v : World) : Type 0 where
  mem : v.machine.mem ≡ armed w.machine.mem (w.procs i)
  flag : (v.procs i).hfl ≡ 1

alarm_tick-Fired :
    (i : ℕ) (w : World)
    → due (w.procs i) ≡ true
    → (v : World) × (alarm_tick i w ≡ ok tt v) × Fired i w v
unfolding alarm_tick update
alarm_tick-Fired i w fires = (
  record w {
    machine = record w.machine { mem = armed w.machine.mem (w.procs i) };
    procs =
        update (update w.procs i (λ p. record p { ticks = (p.ticks + 1) % 2 ^ 32 })) i
          (λ q. record q { hfl = 1 });
  },
  rw (==_refl i, fires),
  record { mem = refl; flag = rw (==_refl i) },
)

-- The saved copy is the trapframe as it was.
armed-saved :
    (m : Mem) (p : Proc) (x : ℕ)
    → IsApart p
    → x < trapframe_size
    → armed m p (p.trapframesv + x) ≡ m (p.trapframe + x)
armed-saved m p x apart h =
    store-SameOutside 8 (p.trapframe + tf_epc) p.handler
      (move m p.trapframesv p.trapframe trapframe_size) (p.trapframesv + x) (omega arith)
    ∙ move-inside m p.trapframesv p.trapframe trapframe_size x h

-- One byte of the trapframe after the copy back.
restored_byte :
    (m : Mem) (p : Proc) (mu mt : Mem) (tf sv x : ℕ)
    → tf ≡ p.trapframe
    → sv ≡ p.trapframesv
    → mt ≡ move mu tf sv trapframe_size
    → IsApart p
    → x < trapframe_size
    → mu (p.trapframesv + x) ≡ armed m p (p.trapframesv + x)
    → mt (p.trapframe + x) ≡ m (p.trapframe + x)
restored_byte m p mu mt tf sv x etf esv moved apart h kept =
    rw (moved, etf, esv)
      (move-inside mu p.trapframe p.trapframesv trapframe_size x h
        ∙ kept
        ∙ armed-saved m p x apart h)

-- sigreturn copies the saved registers back, whatever the handler did to the trapframe.
sys_sigreturn-moves :
    (i : ℕ) (u : World)
    → (a : ℕ) × (t : World) × (sys_sigreturn i u ≡ ok a t)
      × (t.machine.mem
          ≡ move u.machine.mem (u.procs i).trapframe (u.procs i).trapframesv trapframe_size)
      × ((t.procs i).hfl ≡ 0)
      × (a ≡ load64 t.machine.mem ((u.procs i).trapframe + tf_arg 0))
unfolding sys_sigreturn update
sys_sigreturn-moves i u = (
  load64 (move u.machine.mem (u.procs i).trapframe (u.procs i).trapframesv trapframe_size)
      ((u.procs i).trapframe + tf_arg 0),
  record u {
    machine = record u.machine {
      mem = move u.machine.mem (u.procs i).trapframe (u.procs i).trapframesv trapframe_size;
      trace = released tickslock ∷ acquired tickslock ∷ u.machine.trace;
    };
    procs = update u.procs i (λ p. record p { hfl = 0 });
  },
  rw (==_refl i),
  refl,
  rw (==_refl i),
  refl,
)

-- What holds while the handler runs: the process keeps its two pages, and the saved copy is not
-- written to.
pub record Handling (i : ℕ) (w v u : World) : Type 0 where
  pub trapframe : (u.procs i).trapframe ≡ (w.procs i).trapframe
  pub trapframesv : (u.procs i).trapframesv ≡ (w.procs i).trapframesv
  pub kept :
      (x : ℕ)
      → x < trapframe_size
      → u.machine.mem ((w.procs i).trapframesv + x) ≡ v.machine.mem ((w.procs i).trapframesv + x)

-- When the handler is due, the timer interrupt points the program counter to the handler and blocks
-- further calls.
alarm_tick-handler :
    (i : ℕ) (w : World)
    → due (w.procs i) ≡ true
    → (w.procs i).handler < 2 ^ 64
    → (v : World) × (alarm_tick i w ≡ ok tt v)
      × (load64 v.machine.mem ((w.procs i).trapframe + tf_epc) ≡ (w.procs i).handler)
      × ((v.procs i).hfl ≡ 1)
alarm_tick-handler i w fires small =
    let (v, run, f) = alarm_tick-Fired i w fires in
    (
      v,
      run,
      rw f.mem (
          load64-store64_self
            (move w.machine.mem (w.procs i).trapframesv (w.procs i).trapframe trapframe_size)
            ((w.procs i).trapframe + tf_epc) (w.procs i).handler small),
      f.flag,
    )

-- After a timer interrupt that calls the handler, a sigreturn from any later state in which the saved
-- copy is intact gives every register back its value from before the interrupt, returns the old a0,
-- and allows the next call.
pub alarm_restores :
    (i : ℕ) (w v u : World)
    → due (w.procs i) ≡ true
    → IsApart (w.procs i)
    → alarm_tick i w ≡ ok tt v
    → Handling i w v u
    → (a : ℕ) × (t : World) × (sys_sigreturn i u ≡ ok a t)
      × ((x : ℕ)
          → x < trapframe_size
          → t.machine.mem ((w.procs i).trapframe + x) ≡ w.machine.mem ((w.procs i).trapframe + x))
      × (a ≡ load64 w.machine.mem ((w.procs i).trapframe + tf_arg 0))
      × ((t.procs i).hfl ≡ 0)
alarm_restores i w v u fires apart run h =
    let (v', run', f') = alarm_tick-Fired i w fires in
    let f = subst (λ (y : World). Fired i w y) (ok-state (alarm_tick i w) tt tt v' v run' run) f' in
    let (a, t, back, mem, flag, value) = sys_sigreturn-moves i u in
    let restored : (x : ℕ)
        → x < trapframe_size
        → t.machine.mem ((w.procs i).trapframe + x) ≡ w.machine.mem ((w.procs i).trapframe + x) =
      λ x low.
        restored_byte w.machine.mem (w.procs i) u.machine.mem t.machine.mem (u.procs i).trapframe
          (u.procs i).trapframesv x h.trapframe h.trapframesv mem apart low
          (h.kept x low ∙ ap (λ (g : Mem). g ((w.procs i).trapframesv + x)) f.mem) in
    (
      a,
      t,
      back,
      restored,
      value
          ∙ ap (λ (b : ℕ). load64 t.machine.mem (b + tf_arg 0)) h.trapframe
          ∙ load-Agree w.machine.mem t.machine.mem 8 ((w.procs i).trapframe + tf_arg 0)
              (λ x low high.
                let e : (w.procs i).trapframe + (x - (w.procs i).trapframe) ≡ x = omega arith in
                rw e at (restored (x - (w.procs i).trapframe) (omega arith))),
      flag,
    )
