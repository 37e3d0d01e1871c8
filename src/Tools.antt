-- ===== src/Tools.antt =====
-- lab utilities/sleep.c and lab system calls/user/trace.c. The user library's atoi is an argument, and
-- so are the answers of the kernel. What follows a call of exec that succeeds is the other program.
use lab_utilities.Base.{
  ℕ, zero, suc, Bool, true, not, ◌||◌, List, [], ◌∷◌, ltb, if◌then◌else◌, take,
}

abbrev pub Text : Type 0
Text = List ℕ

-- What a program does before it exits: messages on standard error, and calls of the kernel.
pub data Call : Type 0 where
  failed : Call
  usage : Text → Call
  trace_failed : Text → Call
  sleep : ℕ → Call
  trace : ℕ → Call
  exec : List Text → Call
  exit : ℕ → Call

unfoldable pub sleep_main : (Text → ℕ) → List Text → List Call
sleep_main atoi [] = failed ∷ exit 0 ∷ []
sleep_main atoi (program ∷ []) = failed ∷ exit 0 ∷ []
sleep_main atoi (program ∷ ticks ∷ rest) = sleep (atoi ticks) ∷ exit 0 ∷ []

-- `s[0] < '0' || s[0] > '9'`; the first byte of the empty text is the null.
abbrev pub not_digit : Text → Bool
not_digit [] = true
not_digit (c ∷ s) = ltb c b'0' || ltb b'9' c

-- argv without its first two texts, as many as nargv has places for from argv[2] to argv[MAXARG - 1]
abbrev pub nargv : (maxarg : ℕ) → List Text → List Text
nargv zero rest = []
nargv (suc zero) rest = []
nargv (suc (suc n)) rest = take n rest

-- main of trace.c with argv[0] and the other arguments; `accepted` says whether the system call trace returned a value that is not
-- negative.
unfoldable pub trace_main :
    (maxarg : ℕ) → (Text → ℕ) → (accepted : Bool) → (program : Text) → List Text → List Call
trace_main maxarg atoi accepted program (mask ∷ command ∷ rest) =
    if not_digit mask
    then usage program ∷ exit 1 ∷ []
    else if not accepted
    then trace (atoi mask) ∷ trace_failed program ∷ exit 1 ∷ []
    else trace (atoi mask) ∷ exec (nargv maxarg (command ∷ rest)) ∷ exit 0 ∷ []
trace_main maxarg atoi accepted program args = usage program ∷ exit 1 ∷ []
