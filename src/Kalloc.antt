-- ===== src/Kalloc.antt =====
-- lab system calls/kernel/kalloc.c: the allocator of physical pages. The free list is threaded
-- through the free pages themselves: the first eight bytes of a free page point to the next one.
pub mod FreeList
pub mod Boot
use lab_utilities.Base.{
  ℕ, zero, suc, ◌+◌, ◌-◌, ◌/◌, ◌%◌, ◌^◌, ◌≡◌, not, ◌||◌, ltb, leb, ◌==◌, if◌then◌else◌,
}
use lab_utilities.Riscv.{pgsize, pg_round_up}
use lab_utilities.Layout.{Layout}
use lab_utilities.Machine.{
  Machine, Lock, kmem, Cmd, ok, pure, fail, diverge, ◌>>=◌, ◌>>◌, acquire, release, read64, write64,
  memset, initlock,
}

abbrev get_freelist : Cmd Machine ℕ
get_freelist s = ok s.freelist s

abbrev set_freelist : ℕ → Cmd Machine (Unit {0})
set_freelist p s = ok tt (record s { freelist = p })

unfoldable pub kfree : Layout → ℕ → Cmd Machine (Unit {0})
kfree l pa = if not (pa % pgsize == 0) || ltb pa l.end || leb l.phystop pa then fail "kfree" else do
  memset pa 1 pgsize
  acquire kmem
  next ← get_freelist
  write64 pa next
  set_freelist pa
  release kmem

-- `0` is the null pointer.
unfoldable pub kalloc : Cmd Machine ℕ
kalloc = do
  acquire kmem
  r ← get_freelist
  (if r == 0 then pure tt else (read64 r >>= set_freelist))
  release kmem
  (if r == 0 then pure tt else memset r 5 pgsize)
  pure r

-- The loop of freerange; the fuel bounds its rounds.
pub freerange_loop : Layout → ℕ → ℕ → ℕ → Cmd Machine (Unit {0})
freerange_loop l zero p pa_end = diverge
freerange_loop l (suc fuel) p pa_end =
    let rest = freerange_loop l fuel (p + pgsize) pa_end in
    if leb (p + pgsize) pa_end then (kfree l p >> rest) else pure tt

unfoldable pub freerange : Layout → ℕ → ℕ → Cmd Machine (Unit {0})
unfolding freerange_loop
freerange l pa_start pa_end = freerange_loop l (pa_end / pgsize + 1) (pg_round_up pa_start) pa_end

unfoldable pub kinit : Layout → Cmd Machine (Unit {0})
kinit l = initlock kmem >> freerange l l.end l.phystop

-- The loop of getbytes. `nbytes` is an int: its 32-bit pattern.
pub getbytes_loop : ℕ → ℕ → ℕ → Cmd Machine ℕ
getbytes_loop zero kmfl nbytes = diverge
getbytes_loop (suc fuel) kmfl nbytes =
    if kmfl == 0
    then pure nbytes
    else do next ← read64 kmfl; getbytes_loop fuel next ((nbytes + pgsize) % 2 ^ 32)

unfoldable pub getbytes : Layout → Cmd Machine ℕ
unfolding getbytes_loop
getbytes l = do kmfl ← get_freelist; getbytes_loop (l.phystop / pgsize + 1) kmfl 0
