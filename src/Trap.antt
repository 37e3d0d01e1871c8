-- ===== src/Trap.antt =====
-- lab traps/kernel/trap.c, and the handlers that the lab adds to sysproc.c: traps from user and
-- kernel mode, device interrupts, and the periodic alarm of a process.
pub mod Alarm
pub mod Report
use lab_utilities.Base.{
  ℕ, zero, suc, ◌+◌, ◌-◌, ◌*◌, ◌/◌, ◌%◌, ◌^◌, Bool, true, false, not, ◌&&◌, ◌||◌, bit_and, bit_or,
  List, [], ◌∷◌, Option, none, some, leb, ltb, ◌==◌, if◌then◌else◌,
}
use lab_utilities.Riscv.{pgsize, u64, bit_not, make_satp}
use lab_utilities.Layout.{Layout}
use lab_utilities.Printf.{int, printf, backtrace}
use lab_utilities.Syscall.Handlers.{Sleep, woke, sleeps, sys_sleep_round, sys_sleep}
use lab_utilities.Machine.{
  tickslock, initialised, Machine, Cmd, ok, pure, fail, ◌>>=◌, ◌>>◌, when, read64, write64, memmove,
  intr_on, intr_off, w_stvec, w_sepc, w_sstatus, w_sip, uartintr, virtio_disk_intr, plic_complete,
}
use lab_utilities.Proc.{
  running, Proc, World, on_machine, note, acquire, release, get_proc, modify, is_state,
}
use lab_utilities.Proc.Sched.{wakeup, yield, setkilled, killed}
use lab_utilities.Proc.Life.{trapframe_size, tf_epc, exit}
use lab_utilities.Syscall.{argint, argaddr, tf_arg}

-- The registers that a trap handler reads, and what other code answers.
pub record Registers : Type 0 where
  pub sstatus : ℕ
  pub sepc : ℕ
  pub scause : ℕ
  pub sip : ℕ
  pub satp : ℕ
  pub tp : ℕ
  pub irq : ℕ  -- plic_claim()

abbrev sstatus_spp : ℕ
sstatus_spp = 2 ^ 8

abbrev sstatus_spie : ℕ
sstatus_spie = 2 ^ 5

-- the trapframe fields that usertrapret fills
abbrev tf_kernel_satp : ℕ
tf_kernel_satp = 0

abbrev tf_kernel_sp : ℕ
tf_kernel_sp = 8

abbrev tf_kernel_trap : ℕ
tf_kernel_trap = 16

abbrev tf_kernel_hartid : ℕ
tf_kernel_hartid = 32

unfoldable pub trapinit : Cmd World (Unit {0})
trapinit = note (initialised tickslock)

unfoldable pub trapinithart : Layout → Cmd World (Unit {0})
trapinithart l = note (w_stvec l.kernelvec)

unfoldable pub clockintr : Layout → Cmd World (Unit {0})
clockintr l = do
  acquire tickslock
  (λ w. ok tt (record w { clock = (w.clock + 1) % 2 ^ 32 }))
  wakeup l l.ticks_addr
  release tickslock

-- "unexpected interrupt irq=%d\n"
abbrev unexpected_format : List ℕ
unexpected_format =
    b'u' ∷ b'n' ∷ b'e' ∷ b'x' ∷ b'p' ∷ b'e' ∷ b'c' ∷ b't' ∷ b'e' ∷ b'd' ∷ b' ' ∷ b'i' ∷ b'n' ∷ b't'
    ∷ b'e' ∷ b'r' ∷ b'r' ∷ b'u' ∷ b'p' ∷ b't' ∷ b' ' ∷ b'i' ∷ b'r' ∷ b'q' ∷ b'=' ∷ b'%' ∷ b'd' ∷ 10
    ∷ []

-- What devintr found: no device it knows, another device, or the timer.
pub data Device : Type 0 where
  unknown other timer : Device

unfoldable pub devintr : Layout → (locking : Bool) → Registers → Cmd World Device
devintr l locking r =
    if not (bit_and r.scause 0x8000000000000000 == 0) && (bit_and r.scause 0xff == 9)
    then (do
      (if r.irq == l.uart0_irq
          then note uartintr
          else if r.irq == l.virtio0_irq
          then note virtio_disk_intr
          else when (not (r.irq == 0))
              (on_machine (printf locking unexpected_format (int r.irq ∷ []))))
      when (not (r.irq == 0)) (note (plic_complete r.irq))
      pure other)
    else if r.scause == 0x8000000000000001
    then (do when (r.tp == 0) (clockintr l); note (w_sip (bit_and r.sip (bit_not 2))); pure timer)
    else pure unknown

-- the size of an int, from its 32-bit pattern
abbrev pub magnitude : ℕ → ℕ
magnitude n = if ltb n (2 ^ 31) then n else 2 ^ 32 - n

-- What usertrap does for the alarm at a timer interrupt. `ticks % ainterv` is undefined in C where
-- `ainterv` is 0; the processor's remainder is then `ticks`, and so is that of `%` here.
unfoldable pub alarm_tick : ℕ → Cmd World (Unit {0})
alarm_tick i = do
  modify i (λ p. record p { ticks = (p.ticks + 1) % 2 ^ 32 })
  p ← get_proc i
  when ((magnitude p.ticks % magnitude p.ainterv == 0) && not (p.ticks == 0) && (p.hfl == 0)) (do
    modify i (λ q. record q { hfl = 1 })
    on_machine (memmove p.trapframesv p.trapframe trapframe_size)
    on_machine (write64 (p.trapframe + tf_epc) p.handler))

-- Where usertrap stands when it gives up control: in exit, in yield (with the saved intena), or at
-- the call of usertrapret.
pub data Next : Type 0 where
  exits yields : ℕ → Next
  returns : Next

unfoldable pub exit_trap : Layout → ℕ → Cmd World Next
exit_trap l i = do intena ← exit l i (2 ^ 32 - 1); pure (exits intena)

-- usertrap after the cause has been handled.
unfoldable pub usertrap_end : Layout → ℕ → Device → Cmd World Next
usertrap_end l i which_dev = do
  dead ← killed i
  if not (dead == 0) then exit_trap l i else elim which_dev [
    | timer ↦ do alarm_tick i; intena ← yield i; pure (yields intena)
    | _ ↦ pure returns
  ]

-- usertrap of process `i`. `syscall` is the dispatcher; the two lines printed for an unexpected
-- cause are `report` (Trap.Report).
unfoldable pub usertrap :
    Layout
    → (locking : Bool) → (syscall report : Cmd World (Unit {0})) → Registers
    → ℕ
    → Cmd World Next
usertrap l locking syscall report r i =
    if not (bit_and r.sstatus sstatus_spp == 0) then fail "usertrap: not from user mode" else do
      note (w_stvec l.kernelvec)
      p ← get_proc i
      on_machine (write64 (p.trapframe + tf_epc) r.sepc)
      if r.scause == 8
          then (do
            dead ← killed i
            if not (dead == 0) then exit_trap l i else do
              epc ← on_machine (read64 (p.trapframe + tf_epc))
              on_machine (write64 (p.trapframe + tf_epc) (u64 (epc + 4)))
              note intr_on
              syscall
              usertrap_end l i unknown)
          else (do
            which_dev ← devintr l locking r
            elim which_dev [
              | unknown ↦ do report; setkilled i; usertrap_end l i unknown
              | other ↦ usertrap_end l i other
              | timer ↦ usertrap_end l i timer
            ])

-- usertrapret of process `i`; the result is the satp that userret is called with.
unfoldable pub usertrapret : Layout → Registers → ℕ → Cmd World ℕ
usertrapret l r i = do
  p ← get_proc i
  note intr_off
  note (w_stvec (u64 (l.trampoline + (l.uservec - l.trampoline_text))))
  on_machine (write64 (p.trapframe + tf_kernel_satp) r.satp)
  on_machine (write64 (p.trapframe + tf_kernel_sp) (u64 (p.kstack + pgsize)))
  on_machine (write64 (p.trapframe + tf_kernel_trap) l.usertrap)
  on_machine (write64 (p.trapframe + tf_kernel_hartid) r.tp)
  note (w_sstatus (bit_or (bit_and r.sstatus (bit_not sstatus_spp)) sstatus_spie))
  epc ← on_machine (read64 (p.trapframe + tf_epc))
  note (w_sepc epc)
  pure (make_satp p.pagetable)

-- kerneltrap, up to the yield or the end. `intr` is intr_get(); what is printed before the panic is
-- left out.
unfoldable pub kerneltrap : Layout → (locking : Bool) → Registers → Bool → Cmd World Next
kerneltrap l locking r intr =
    if bit_and r.sstatus sstatus_spp == 0
    then fail "kerneltrap: not from supervisor mode"
    else if intr
    then fail "kerneltrap: interrupts enabled"
    else do
      which_dev ← devintr l locking r
      elim which_dev [
        | unknown ↦ fail "kerneltrap"
        | other ↦ pure returns
        | timer ↦ do
          me ← (λ w. ok w.current w)
          elim me [
            | none ↦ pure returns
            | some i ↦ do
              p ← get_proc i
              if is_state p.state running
                  then (do intena ← yield i; pure (yields intena))
                  else pure returns
          ]
      ]

-- The end of kerneltrap, after the yield if there was one.
unfoldable pub kerneltrap_end : Registers → Cmd World (Unit {0})
kerneltrap_end r = do note (w_sepc r.sepc); note (w_sstatus r.sstatus)

unfoldable pub sys_sigalarm : ℕ → Cmd World ℕ
sys_sigalarm i = do
  acquire tickslock
  ticks ← argint i 0
  handler ← argaddr i 1
  modify i (λ p. record p { ainterv = ticks; handler = handler })
  release tickslock
  pure 0

unfoldable pub sys_sigreturn : ℕ → Cmd World ℕ
sys_sigreturn i = do
  modify i (λ p. record p { hfl = 0 })
  acquire tickslock
  p ← get_proc i
  on_machine (memmove p.trapframe p.trapframesv trapframe_size)
  release tickslock
  on_machine (read64 (p.trapframe + tf_arg 0))

-- The end of sys_sleep of this lab: it prints a backtrace before the result 0, with r_fp() and the
-- global `grnd` given.
unfoldable pub sleep_end : (locking : Bool) → (grnd fp : ℕ) → Sleep → Cmd World Sleep
sleep_end locking grnd fp (woke zero) = do on_machine (backtrace locking grnd fp); pure (woke 0)
sleep_end locking grnd fp (woke (suc n)) = pure (woke (suc n))
sleep_end locking grnd fp (sleeps intena) = pure (sleeps intena)

-- sys_sleep of this lab up to the next switch.
unfoldable pub sys_sleep_traced : Layout → (locking : Bool) → (grnd fp i : ℕ) → Cmd World Sleep
sys_sleep_traced l locking grnd fp i = do r ← sys_sleep l i; sleep_end locking grnd fp r

-- A later round of its loop.
unfoldable pub sys_sleep_round_traced :
    Layout → (locking : Bool) → (grnd fp i ticks0 n : ℕ) → Cmd World Sleep
sys_sleep_round_traced l locking grnd fp i ticks0 n = do
  r ← sys_sleep_round l i ticks0 n
  sleep_end locking grnd fp r
