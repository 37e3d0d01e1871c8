-- ===== src/Machine.antt =====
-- The state of the machine below the process table, and commands over it. `panic`, a loop that runs
-- out of the fuel given to it, and a result are the three ways in which a command can end.
--
-- Spin locks, the console and the other parts whose code is elsewhere are seen only through the calls
-- that are made of them: each call is an event, appended to the trace (newest first).
use lab_utilities.Base.{ℕ, ◌≡◌, ap, sym, ◌∙◌, String, List, ◌∷◌, Bool, if◌then◌else◌}
use lab_utilities.Memory.{Mem, load64, store, store64, fill, move}

pub data Lock : Type 0 where
  kmem pid_lock wait_lock tickslock pr_lock : Lock
  proc_lock : ℕ → Lock

pub data Event : Type 0 where
  initialised : Lock → Event
  acquired : Lock → Event
  released : Lock → Event
  consputc : ℕ → Event
  w_satp : ℕ → Event
  sfence_vma : Event
  filedup fileclose idup iput : ℕ → Event
  begin_op end_op intr_on intr_off fsinit : Event
  w_stvec w_sepc w_sstatus w_sip plic_complete : ℕ → Event
  uartintr virtio_disk_intr : Event

pub record Machine : Type 0 where
  pub mem : Mem
  pub freelist : ℕ  -- kmem.freelist
  pub trace : List Event

-- `S` is the state that the commands pass on.
pub data Outcome (S A : Type 0) : Type 0 where
  ok : A → S → Outcome S A
  panic : String → Outcome S A
  out_of_fuel : Outcome S A

abbrev pub Cmd : Type 0 → Type 0 → Type 0
Cmd S A = S → Outcome S A

abbrev pub pure : {S A : Type 0} → A → Cmd S A
pure a s = ok a s

abbrev pub fail : {S A : Type 0} → String → Cmd S A
fail why s = panic why

abbrev pub diverge : {S A : Type 0} → Cmd S A
diverge s = out_of_fuel

abbrev pub and_then : {S A B : Type 0} → Outcome S A → (A → Cmd S B) → Outcome S B
and_then (ok a s) k = k a s
and_then (panic why) k = panic why
and_then out_of_fuel k = out_of_fuel

-- the state a run ends in, and `d` for a run that does not end with a result
abbrev pub state_or : {S A : Type 0} → S → Outcome S A → S
state_or d (ok a s) = s
state_or d (panic why) = d
state_or d out_of_fuel = d

pub ok-state :
    {S A : Type 0} (r : Outcome S A) (a b : A) (s t : S) → r ≡ ok a s → r ≡ ok b t → s ≡ t
ok-state r a b s t e f = ap (state_or s) (sym e ∙ f)

infixl 5 ◌>>=◌ ◌>>◌
abbrev pub ◌>>=◌ : {S A B : Type 0} → Cmd S A → (A → Cmd S B) → Cmd S B
m >>= k = λ s. and_then (m s) k

abbrev pub ◌>>◌ : {S A B : Type 0} → Cmd S A → Cmd S B → Cmd S B
m >> k = m >>= λ _. k

abbrev pub when : {S : Type 0} → Bool → Cmd S (Unit {0}) → Cmd S (Unit {0})
when b m = if b then m else pure tt

abbrev pub emit : Event → Cmd Machine (Unit {0})
emit e s = ok tt (record s { trace = e ∷ s.trace })

abbrev pub acquire : Lock → Cmd Machine (Unit {0})
acquire l = emit (acquired l)

abbrev pub release : Lock → Cmd Machine (Unit {0})
release l = emit (released l)

abbrev pub initlock : Lock → Cmd Machine (Unit {0})
initlock l = emit (initialised l)

-- a 64-bit read and write through a pointer
abbrev pub read64 : ℕ → Cmd Machine ℕ
read64 a s = ok (load64 s.mem a) s

abbrev pub write64 : ℕ → ℕ → Cmd Machine (Unit {0})
write64 a v s = ok tt (record s { mem = store64 s.mem a v })

-- an int written through a pointer
abbrev pub write32 : ℕ → ℕ → Cmd Machine (Unit {0})
write32 a v s = ok tt (record s { mem = store s.mem a 4 v })

abbrev pub memset : ℕ → ℕ → ℕ → Cmd Machine (Unit {0})
memset a c n s = ok tt (record s { mem = fill s.mem a c n })

abbrev pub memmove : ℕ → ℕ → ℕ → Cmd Machine (Unit {0})
memmove dst src n s = ok tt (record s { mem = move s.mem dst src n })
