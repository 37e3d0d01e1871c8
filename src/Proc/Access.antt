-- ===== src/Proc/Access.antt =====
-- kernel/proc.c: either_copyout, either_copyin and procdump, and what the labs add: walk2 and
-- pgaccss (lab page tables), trace, getnprcs and sysinf (lab system calls).
use lab_utilities.Base.{
  ℕ, zero, suc, ◌+◌, ◌*◌, ◌%◌, ◌^◌, Bool, false, not, bit_and, bit_or, List, [], ◌∷◌, some, leb,
  ltb, ◌==◌, if◌then◌else◌,
}
use lab_utilities.Riscv.{pgsize, u64, bit_not, maxva, px, pte_a, flag_set, sign_extend}
use lab_utilities.Layout.{Layout}
use lab_utilities.Machine.{Machine, Cmd, pure, fail, ◌>>=◌, ◌>>◌, when, read64, write64, memmove}
use lab_utilities.Kalloc.{kfree, getbytes}
use lab_utilities.Vm.Walk.{walk}
use lab_utilities.Vm.Map.{Status, done, failed}
use lab_utilities.Vm.Copy.{copyout, copyin}
use lab_utilities.Printf.{int, str, printf}
use lab_utilities.Proc.{
  ProcState, unused, used, sleeping, runnable, running, zombie, World, on_machine, get_proc, modify,
  is_state,
}
use lab_utilities.Proc.Alloc.PageTables.{proc_freepagetable}

unfoldable pub either_copyout : ℕ → Bool → ℕ → ℕ → ℕ → Cmd World Status
either_copyout i user_dst dst src len = do
  p ← get_proc i
  if user_dst
      then on_machine (copyout p.pagetable dst src len)
      else (on_machine (memmove dst src len) >> pure done)

unfoldable pub either_copyin : ℕ → ℕ → Bool → ℕ → ℕ → Cmd World Status
either_copyin i dst user_src src len = do
  p ← get_proc i
  if user_src
      then on_machine (copyin p.pagetable dst src len)
      else (on_machine (memmove dst src len) >> pure done)

-- The table `states` of procdump.
unfoldable pub state_name : ProcState → List ℕ
state_name unused = b'u' ∷ b'n' ∷ b'u' ∷ b's' ∷ b'e' ∷ b'd' ∷ []
state_name used = b'u' ∷ b's' ∷ b'e' ∷ b'd' ∷ []
state_name sleeping = b's' ∷ b'l' ∷ b'e' ∷ b'e' ∷ b'p' ∷ b' ' ∷ []
state_name runnable = b'r' ∷ b'u' ∷ b'n' ∷ b'b' ∷ b'l' ∷ b'e' ∷ []
state_name running = b'r' ∷ b'u' ∷ b'n' ∷ b' ' ∷ b' ' ∷ b' ' ∷ []
state_name zombie = b'z' ∷ b'o' ∷ b'm' ∷ b'b' ∷ b'i' ∷ b'e' ∷ []

-- a name up to its terminating null
abbrev c_string : List ℕ → List ℕ
c_string [] = []
c_string (c ∷ cs) = if c == 0 then [] else c ∷ c_string cs

-- "%d %s %s" and "\n"
abbrev listing_format : List ℕ
listing_format = b'%' ∷ b'd' ∷ b' ' ∷ b'%' ∷ b's' ∷ b' ' ∷ b'%' ∷ b's' ∷ []

abbrev newline : List ℕ
newline = 10 ∷ []

unfoldable pub procdump_loop : Bool → ℕ → ℕ → Cmd World (Unit {0})
procdump_loop locking zero i = pure tt
procdump_loop locking (suc n) i = do
  p ← get_proc i
  when (not (is_state p.state unused)) (do
    on_machine (
        printf locking listing_format
          (int p.pid ∷ str (some (state_name p.state)) ∷ str (some (c_string p.name)) ∷ []))
    on_machine (printf locking newline []))
  procdump_loop locking n (i + 1)

unfoldable pub procdump : Layout → Bool → Cmd World (Unit {0})
unfolding procdump_loop
procdump l locking = do on_machine (printf locking newline []); procdump_loop locking l.nproc 0

-- The loop of walk2: `pagetable` is the same at every level.
unfoldable pub walk2_loop : ℕ → ℕ → ℕ → Cmd Machine (Unit {0})
walk2_loop zero pagetable va = pure tt
walk2_loop (suc level) pagetable va = do
  let pte = pagetable + 8 * px (suc level) va
  entry ← read64 pte
  when (flag_set pte_a entry) (write64 pte (bit_and entry (bit_not pte_a)))
  walk2_loop level pagetable va

unfoldable pub walk2 : ℕ → ℕ → Cmd Machine (Unit {0})
unfolding walk2_loop
walk2 pagetable va = if leb maxva va then fail "walk" else walk2_loop 2 pagetable va

-- `1 << i` on an int, converted to a uint64. C leaves it undefined from 31 on: the value there is
-- the one of a shift that takes `i` modulo 32.
abbrev pub shifted_one : ℕ → ℕ
shifted_one i = sign_extend (2 ^ (i % 32))

-- The loop of pgaccss from page `i` on; the result is `bitmask`. walk's result is not looked at: a
-- null pointer is then followed.
unfoldable pub pgaccss_loop : ℕ → ℕ → ℕ → ℕ → ℕ → Cmd Machine ℕ
pgaccss_loop zero pagetable i track bitmask = pure bitmask
pgaccss_loop (suc n) pagetable i track bitmask = do
  pte ← walk pagetable track false
  if pte == 0 then fail "null pte" else do
    entry ← read64 pte
    when (flag_set pte_a entry) (write64 pte (bit_and entry (bit_not pte_a)))
    pgaccss_loop n pagetable (i + 1) (u64 (track + pgsize))
        (if flag_set pte_a entry then bit_or bitmask (shifted_one i) else bitmask)

-- sizeof(pagetable_t)
abbrev pagetable_size : ℕ
pagetable_size = 8

-- pgaccss(buf, npgs, btmsk), with `npgs` an int in its 32-bit pattern.
unfoldable pub pgaccss : Layout → ℕ → ℕ → ℕ → ℕ → Cmd World Status
pgaccss l i buf npgs btmsk = do
  p ← get_proc i
  bitmask ← on_machine (pgaccss_loop (if ltb npgs (2 ^ 31) then npgs else 0) p.pagetable 0 buf 0)
  on_machine (write64 l.bitmask_addr bitmask)
  copied ← on_machine (copyout p.pagetable btmsk l.bitmask_addr 8)
  elim copied [
    | done ↦ pure done
    | failed ↦ do
      on_machine (proc_freepagetable l p.pagetable pagetable_size)
      on_machine (kfree l buf)
      pure failed
  ]

-- lab system calls: trace(mask) sets the mask of the calling process.
unfoldable pub trace : ℕ → ℕ → Cmd World (Unit {0})
trace i mask = modify i (λ p. record p { mask = mask })

unfoldable pub getnprcs_loop : ℕ → ℕ → ℕ → Cmd World ℕ
getnprcs_loop zero i cnt = pure cnt
getnprcs_loop (suc n) i cnt = do
  p ← get_proc i
  getnprcs_loop n (i + 1) (if is_state p.state unused then cnt else cnt + 1)

unfoldable pub getnprcs : Layout → Cmd World ℕ
unfolding getnprcs_loop
getnprcs l = getnprcs_loop l.nproc 0 0

-- The two fields of `struct sysinfo` are uint64.
unfoldable pub sysinf : Layout → ℕ → ℕ → Cmd World Status
sysinf l i addr = do
  p ← get_proc i
  freemem ← on_machine (getbytes l)
  on_machine (write64 (l.sysinfo_addr + l.sysinfo_freemem) (sign_extend freemem))
  nproc ← getnprcs l
  on_machine (write64 (l.sysinfo_addr + l.sysinfo_nproc) (sign_extend nproc))
  on_machine (copyout p.pagetable addr l.sysinfo_addr l.sysinfo_size)
