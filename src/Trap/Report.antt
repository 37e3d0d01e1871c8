-- ===== src/Trap/Report.antt =====
-- lab traps/kernel/trap.c: what usertrap and kerneltrap print of a trap that they do not expect.
use lab_utilities.Base.{ℕ, Bool, List, [], ◌∷◌}
use lab_utilities.Machine.{Cmd, ◌>>=◌, ◌>>◌}
use lab_utilities.Printf.{int, ptr, printf}
use lab_utilities.Proc.{World, get_proc, on_machine}
use lab_utilities.Trap.{Registers}

abbrev cause_format : List ℕ
cause_format =
    b'u' ∷ b's' ∷ b'e' ∷ b'r' ∷ b't' ∷ b'r' ∷ b'a' ∷ b'p' ∷ b'(' ∷ b')' ∷ b':' ∷ b' ' ∷ b'u' ∷ b'n'
    ∷ b'e' ∷ b'x' ∷ b'p' ∷ b'e' ∷ b'c' ∷ b't' ∷ b'e' ∷ b'd' ∷ b' ' ∷ b's' ∷ b'c' ∷ b'a' ∷ b'u'
    ∷ b's' ∷ b'e' ∷ b' ' ∷ b'%' ∷ b'p' ∷ b' ' ∷ b'p' ∷ b'i' ∷ b'd' ∷ b'=' ∷ b'%' ∷ b'd' ∷ 10 ∷ []

abbrev counter_format : List ℕ
counter_format =
    b' ' ∷ b' ' ∷ b' ' ∷ b' ' ∷ b' ' ∷ b' ' ∷ b' ' ∷ b' ' ∷ b' ' ∷ b' ' ∷ b' ' ∷ b' ' ∷ b's' ∷ b'e'
    ∷ b'p' ∷ b'c' ∷ b'=' ∷ b'%' ∷ b'p' ∷ b' ' ∷ b's' ∷ b't' ∷ b'v' ∷ b'a' ∷ b'l' ∷ b'=' ∷ b'%'
    ∷ b'p' ∷ 10 ∷ []

abbrev scause_format : List ℕ
scause_format = b's' ∷ b'c' ∷ b'a' ∷ b'u' ∷ b's' ∷ b'e' ∷ b' ' ∷ b'%' ∷ b'p' ∷ 10 ∷ []

abbrev sepc_format : List ℕ
sepc_format =
    b's' ∷ b'e' ∷ b'p' ∷ b'c' ∷ b'=' ∷ b'%' ∷ b'p' ∷ b' ' ∷ b's' ∷ b't' ∷ b'v' ∷ b'a' ∷ b'l' ∷ b'='
    ∷ b'%' ∷ b'p' ∷ 10 ∷ []

-- The two lines of usertrap, with r_stval() given.
unfoldable pub report_user : Bool → Registers → (stval i : ℕ) → Cmd World (Unit {0})
report_user locking r stval i = do
  p ← get_proc i
  on_machine (printf locking cause_format (ptr r.scause ∷ int p.pid ∷ []))
  on_machine (printf locking counter_format (ptr r.sepc ∷ ptr stval ∷ []))

-- The two lines of kerneltrap.
unfoldable pub report_kernel : Bool → Registers → (stval : ℕ) → Cmd World (Unit {0})
report_kernel locking r stval = do
  on_machine (printf locking scause_format (ptr r.scause ∷ []))
  on_machine (printf locking sepc_format (ptr r.sepc ∷ ptr stval ∷ []))
