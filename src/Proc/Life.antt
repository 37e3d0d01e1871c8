-- ===== src/Proc/Life.antt =====
-- kernel/proc.c: userinit, growproc, fork, reparent, exit and wait, over the operations of a lab.
pub mod Reparent
pub mod Leaving
pub mod Exit
pub mod Growing
pub mod Waiting
use lab_utilities.Base.{
  ℕ, zero, suc, ◌+◌, ◌^◌, Bool, true, false, not, List, [], ◌∷◌, Option, none, some, ltb, ◌==◌,
  if◌then◌else◌,
}
use lab_utilities.Riscv.{pgsize, u64, pte_w, sign_extend}
use lab_utilities.Layout.{Layout}
use lab_utilities.Machine.{
  wait_lock, proc_lock, filedup, fileclose, idup, iput, begin_op, end_op, Cmd, ok, pure, fail,
  ◌>>=◌, ◌>>◌, when, write64, write32, memmove,
}
use lab_utilities.Vm.Map.{Status, done, failed}
use lab_utilities.Vm.Space.{uvmfirst, uvmalloc, uvmdealloc, uvmcopy}
use lab_utilities.Vm.Copy.{copyout}
use lab_utilities.Proc.{
  runnable, zombie, World, on_machine, note, acquire, release, get_proc, modify, proc_ptr, is_state,
  same_proc,
}
use lab_utilities.Proc.Alloc.{Lab}
use lab_utilities.Proc.Sched.{sched, sleep, wakeup, killed}

-- sizeof(struct trapframe), and the offsets of its fields
abbrev pub trapframe_size : ℕ
trapframe_size = 288

abbrev pub tf_epc : ℕ
tf_epc = 24

abbrev pub tf_sp : ℕ
tf_sp = 48

abbrev pub tf_a0 : ℕ
tf_a0 = 112

-- "initcode", with its terminating null
abbrev initcode_name : List ℕ
initcode_name = b'i' ∷ b'n' ∷ b'i' ∷ b't' ∷ b'c' ∷ b'o' ∷ b'd' ∷ b'e' ∷ 0 ∷ []

-- The first process, with the size of `initcode` given. A failed allocproc is not looked at: the
-- null pointer is then followed.
unfoldable pub userinit : Lab → Layout → (code_size : ℕ) → Cmd World (Unit {0})
userinit lab l code_size = do
  made ← lab.allocproc l
  (λ w. ok tt (record w { initproc = made }))
  elim made [
    | none ↦ fail "null process"
    | some i ↦ do
      p ← get_proc i
      on_machine (uvmfirst p.pagetable l.initcode_addr code_size)
      modify i (λ q. record q { sz = pgsize })
      on_machine (write64 (p.trapframe + tf_epc) 0)
      on_machine (write64 (p.trapframe + tf_sp) pgsize)
      modify i (λ q. record q { name = l.safestrcpy q.name initcode_name 16 })
      modify i (λ q. record q { cwd = l.root_inode })
      modify i (λ q. record q { state = runnable })
      release (proc_lock i)
  ]

-- growproc(n) of process `i`, with `n` an int in its 32-bit pattern.
unfoldable pub growproc : Layout → ℕ → ℕ → Cmd World Status
growproc l i n = do
  p ← get_proc i
  if n == 0
      then pure done
      else if ltb n (2 ^ 31)
      then (do
        sz ← on_machine (uvmalloc l p.pagetable p.sz (u64 (p.sz + sign_extend n)) pte_w)
        if sz == 0 then pure failed else do modify i (λ q. record q { sz = sz }); pure done)
      else (do
        sz ← on_machine (uvmdealloc l p.pagetable p.sz (u64 (p.sz + sign_extend n)))
        modify i (λ q. record q { sz = sz })
        pure done)

-- The files of the parent that are open, each with one more reference.
unfoldable pub dup_files : Layout → List ℕ → List ℕ → Cmd World (List ℕ)
dup_files l [] old = pure old
dup_files l (f ∷ fs) [] = pure []
dup_files l (f ∷ fs) (g ∷ gs) = do
  g' ← (if f == 0 then pure g else (note (filedup f) >> pure (l.filedup f)))
  rest ← dup_files l fs gs
  pure (g' ∷ rest)

-- fork by process `i`; the result is the child's pid, or none for -1.
unfoldable pub fork : Lab → Layout → ℕ → Cmd World (Option ℕ)
fork lab l i = do
  made ← lab.allocproc l
  elim made [
    | none ↦ pure none
    | some c ↦ do
      p ← get_proc i
      np ← get_proc c
      copied ← on_machine (uvmcopy l p.pagetable np.pagetable p.sz)
      elim copied [
        | failed ↦ do lab.freeproc l c; release (proc_lock c); pure none
        | done ↦ do
          modify c (λ q. record q { sz = p.sz })
          modify c (lab.inherit p)
          on_machine (memmove np.trapframe p.trapframe trapframe_size)
          on_machine (write64 (np.trapframe + tf_a0) 0)
          files ← dup_files l p.ofile np.ofile
          note (idup p.cwd)
          modify c (λ q. record q {
            ofile = files;
            cwd = l.idup p.cwd;
            name = l.safestrcpy q.name p.name 16;
          })
          release (proc_lock c)
          acquire wait_lock
          modify c (λ q. record q { parent = some i })
          release wait_lock
          acquire (proc_lock c)
          modify c (λ q. record q { state = runnable })
          release (proc_lock c)
          pure (some np.pid)
      ]
  ]

unfoldable pub reparent_loop : Layout → ℕ → ℕ → ℕ → Cmd World (Unit {0})
reparent_loop l i zero j = pure tt
reparent_loop l i (suc n) j = do
  pp ← get_proc j
  when (same_proc pp.parent (some i)) (do
    init ← (λ w. ok w.initproc w)
    modify j (λ q. record q { parent = init })
    wakeup l (proc_ptr l init))
  reparent_loop l i n (j + 1)

unfoldable pub reparent : Layout → ℕ → Cmd World (Unit {0})
unfolding reparent_loop
reparent l i = reparent_loop l i l.nproc 0

-- The files of a process that exits, each open one closed.
unfoldable pub close_files : List ℕ → Cmd World (List ℕ)
close_files [] = pure []
close_files (f ∷ fs) = do
  when (not (f == 0)) (note (fileclose f))
  rest ← close_files fs
  pure (0 ∷ rest)

-- exit(status) by process `i`, up to the switch to the scheduler, from which it never comes back.
unfoldable pub exit : Layout → ℕ → ℕ → Cmd World ℕ
exit l i status = do
  init ← (λ w. ok w.initproc w)
  if same_proc (some i) init then fail "init exiting" else do
    p ← get_proc i
    files ← close_files p.ofile
    modify i (λ q. record q { ofile = files })
    note begin_op
    note (iput p.cwd)
    note end_op
    modify i (λ q. record q { cwd = 0 })
    acquire wait_lock
    reparent l i
    q ← get_proc i
    wakeup l (proc_ptr l q.parent)
    acquire (proc_lock i)
    modify i (λ r. record r { xstate = status; state = zombie })
    release wait_lock
    sched i

-- How one scan of wait over the table ends: with wait's result, or with whether there are children.
pub data Scan : Type 0 where
  returned : Option ℕ → Scan
  scanned : Bool → Scan

-- The scan for an exited child of process `i`, from the place `j` on.
unfoldable pub wait_scan : Lab → Layout → ℕ → ℕ → ℕ → ℕ → Bool → Cmd World Scan
wait_scan lab l i addr zero j havekids = pure (scanned havekids)
wait_scan lab l i addr (suc n) j havekids = do
  pp ← get_proc j
  if not (same_proc pp.parent (some i)) then wait_scan lab l i addr n (j + 1) havekids else do
    acquire (proc_lock j)
    if not (is_state pp.state zombie)
        then (do release (proc_lock j); wait_scan lab l i addr n (j + 1) true)
        else (do
          me ← get_proc i
          copied ←
              (if addr == 0
                then pure done
                else on_machine (do
                  write32 (l.xstate_addr j) pp.xstate
                  copyout me.pagetable addr (l.xstate_addr j) 4))
          elim copied [
            | failed ↦ do release (proc_lock j); release wait_lock; pure (returned none)
            | done ↦ do
              lab.freeproc l j
              release (proc_lock j)
              release wait_lock
              pure (returned (some pp.pid))
          ])

-- One round of the loop of wait: a result, or asleep until a child exits (with the saved intena).
pub data Wait : Type 0 where
  finished : Option ℕ → Wait
  asleep : ℕ → Wait

unfoldable pub wait_round : Lab → Layout → ℕ → ℕ → Cmd World Wait
wait_round lab l i addr = do
  scan ← wait_scan lab l i addr l.nproc 0 false
  elim scan [
    | returned r ↦ pure (finished r)
    | scanned havekids ↦ do
      dead ← (if not havekids then pure 1 else killed i)
      if not (dead == 0)
          then (do release wait_lock; pure (finished none))
          else do intena ← sleep i (l.proc_addr i) wait_lock; pure (asleep intena)
  ]

-- wait(addr), up to its first result or sleep; after a sleep comes another wait_round.
unfoldable pub wait : Lab → Layout → ℕ → ℕ → Cmd World Wait
wait lab l i addr = do acquire wait_lock; wait_round lab l i addr
