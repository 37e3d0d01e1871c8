-- ===== src/Proc/Alloc.antt =====
-- kernel/proc.c: procinit and allocpid, and what the three versions of allocproc share. Each lab has
-- its own freeproc, allocproc and user page table: one child module for each, and a record of the
-- operations for the code that all labs share.
pub mod PageTables
pub mod SystemCalls
pub mod Traps
pub mod Stale
use lab_utilities.Base.{
  ℕ, zero, suc, ◌+◌, ◌%◌, ◌^◌, Bool, true, false, not, List, [], ◌∷◌, Option, none, some, ◌==◌,
  if◌then◌else◌,
}
use lab_utilities.Riscv.{pgsize, u64}
use lab_utilities.Layout.{Layout}
use lab_utilities.Machine.{
  Lock, pid_lock, wait_lock, proc_lock, initialised, Cmd, ok, pure, ◌>>=◌, ◌>>◌,
}
use lab_utilities.Proc.{
  unused, used, Context, Proc, World, note, acquire, release, get_proc, modify, is_state,
}

-- the name with its first byte cleared
abbrev pub cut_name : List ℕ → List ℕ
cut_name [] = []
cut_name (c ∷ cs) = 0 ∷ cs

procinit_loop : Layout → ℕ → ℕ → Cmd World (Unit {0})
procinit_loop l zero i = pure tt
procinit_loop l (suc n) i = do
  note (initialised (proc_lock i))
  modify i (λ p. record p { state = unused; kstack = l.kstack i })
  procinit_loop l n (i + 1)

unfoldable pub procinit : Layout → Cmd World (Unit {0})
unfolding procinit_loop
procinit l = do note (initialised pid_lock); note (initialised wait_lock); procinit_loop l l.nproc 0

unfoldable pub allocpid : Cmd World ℕ
allocpid = do
  acquire pid_lock
  pid ← (λ w. ok w.nextpid w)
  (λ w. ok tt (record w { nextpid = (w.nextpid + 1) % 2 ^ 32 }))
  release pid_lock
  pure pid

-- The search of allocproc: the lock of the process found stays held.
unfoldable pub find_unused : ℕ → ℕ → Cmd World (Option ℕ)
find_unused zero i = pure none
find_unused (suc n) i = do
  acquire (proc_lock i)
  p ← get_proc i
  if is_state p.state unused then pure (some i) else do release (proc_lock i); find_unused n (i + 1)

abbrev pub blank_context : Context
blank_context = record {
  ra = 0;
  sp = 0;
  saved = 0 ∷ 0 ∷ 0 ∷ 0 ∷ 0 ∷ 0 ∷ 0 ∷ 0 ∷ 0 ∷ 0 ∷ 0 ∷ 0 ∷ [];
}

-- What freeproc leaves of an entry of the table.
abbrev pub cleared : Proc → Proc
cleared q = record q {
  pagetable = 0;
  sz = 0;
  pid = 0;
  parent = none;
  name = cut_name q.name;
  chan = 0;
  killed = 0;
  xstate = 0;
  state = unused;
}

-- `freeproc(p); release(&p->lock); return 0;`
abbrev pub give_up : (ℕ → Cmd World (Unit {0})) → ℕ → Cmd World (Option ℕ)
give_up freeproc i = do freeproc i; release (proc_lock i); pure none

-- The context in which a new process starts, in forkret.
abbrev pub start_context : Layout → Proc → Proc
start_context l p = record p {
  context = record blank_context { ra = l.forkret; sp = u64 (p.kstack + pgsize) };
}

-- The operations in which the labs differ: allocproc, freeproc, and what a child takes over from its
-- parent in fork besides the size of its memory.
pub record Lab : Type 0 where
  pub allocproc : Layout → Cmd World (Option ℕ)
  pub freeproc : Layout → ℕ → Cmd World (Unit {0})
  pub inherit : (parent child : Proc) → Proc
