-- ===== src/Pingpong.antt =====
-- lab utilities/pingpong.c: two processes and two pipes. Pipes, fork, fprintf and exit are elsewhere:
-- what read and write do is an argument, and the ends of a pipe that are open are counted.
pub mod Queues
pub mod Tests
pub mod Orders
use lab_utilities.Base.{
  ℕ, ◌+◌, ◌-◌, Bool, true, false, List, [], ◌∷◌, ◌++◌, Option, none, some, ◌==◌, if◌then◌else◌,
  get_elem?,
}

pub data Process : Type 0 where
  child : Process
  parent : Process

-- The pipes p1 and p2.
pub data Pipe : Type 0 where
  p1 : Pipe
  p2 : Pipe

-- What a process prints: its pid, or a text.
pub data Item : Type 0 where
  pid_of : Process → Item
  text : List ℕ → Item

-- The calls of the program. `await` is the loop that reads until one byte has arrived.
pub data Action : Type 0 where
  await : Pipe → Action
  send : Pipe → ℕ → Action
  print : Item → Action
  close_read : Pipe → Action
  close_write : Pipe → Action

-- ": received ping\n" and ": received pong\n"
abbrev received : ℕ → List ℕ
received vowel =
    b':' ∷ b' ' ∷ b'r' ∷ b'e' ∷ b'c' ∷ b'e' ∷ b'i' ∷ b'v' ∷ b'e' ∷ b'd' ∷ b' ' ∷ b'p' ∷ vowel ∷ b'n'
    ∷ b'g' ∷ 10 ∷ []

abbrev pub received_ping : Item
received_ping = text (received b'i')

abbrev pub received_pong : Item
received_pong = text (received b'o')

abbrev pub child_program : List Action
child_program =
    await p1
    ∷ print (pid_of child)
    ∷ print received_ping
    ∷ close_read p1
    ∷ close_write p1
    ∷ send p2 b'd'
    ∷ close_read p2
    ∷ close_write p2
    ∷ []

abbrev pub parent_program : List Action
parent_program =
    send p1 b'c'
    ∷ close_read p1
    ∷ close_write p1
    ∷ await p2
    ∷ print (pid_of parent)
    ∷ print received_pong
    ∷ close_read p2
    ∷ close_write p2
    ∷ []

-- A pipe: its bytes, and how many processes have each end open.
pub record Channel : Type 0 where
  pub bytes : List ℕ
  pub readers : ℕ
  pub writers : ℕ

-- The number of calls that each process has made, the pipes, and the output.
pub record State : Type 0 where
  pub child_at : ℕ
  pub parent_at : ℕ
  pub first : Channel
  pub second : Channel
  pub out : List Item

abbrev pub channel : Pipe → State → Channel
channel p1 s = s.first
channel p2 s = s.second

abbrev put_channel : Pipe → Channel → State → State
put_channel p1 c s = record s { first = c }
put_channel p2 c s = record s { second = c }

-- What read of one byte and write of one byte do to a pipe; the first gives none while it waits.
pub record Pipes : Type 0 where
  pub read : Channel → Option Channel
  pub write : ℕ → Channel → Channel

abbrev received_one : Pipe → Option Channel → State → Option State
received_one q none s = none
received_one q (some c) s = some (put_channel q c s)

-- The state after a call, or `none` while the call waits.
unfoldable pub perform : Pipes → Action → State → Option State
perform p (await q) s = received_one q (p.read (channel q s)) s
perform p (send q b) s = some (put_channel q (p.write b (channel q s)) s)
perform p (print i) s = some (record s { out = s.out ++ i ∷ [] })
perform p (close_read q) s =
    let c = channel q s in some (put_channel q (record c { readers = c.readers - 1 }) s)
perform p (close_write q) s =
    let c = channel q s in some (put_channel q (record c { writers = c.writers - 1 }) s)

abbrev pub next_action : Process → State → Option Action
next_action child s = get_elem? child_program s.child_at
next_action parent s = get_elem? parent_program s.parent_at

abbrev advance : Process → State → State
advance child s = record s { child_at = s.child_at + 1 }
advance parent s = record s { parent_at = s.parent_at + 1 }

abbrev moved : Process → State → Option State → State
moved w s none = s
moved w s (some t) = advance w t

abbrev attempted : Pipes → Process → State → Option Action → State
attempted p w s none = s
attempted p w s (some a) = moved w s (perform p a s)

-- One turn of a process: its next call, or nothing if that waits or the process has exited.
unfoldable pub step : Pipes → Process → State → State
step p w s = attempted p w s (next_action w s)

-- The turns in the order in which the scheduler gives them.
unfoldable pub run : Pipes → List Process → State → State
run p [] s = s
run p (w ∷ ws) s = run p ws (step p w s)

abbrev fresh : Channel
fresh = record { bytes = []; readers = 2; writers = 2 }

-- After fork: both processes have both ends of both pipes.
abbrev pub start : State
start = record { child_at = 0; parent_at = 0; first = fresh; second = fresh; out = [] }
