-- ===== src/Printf/Output.antt =====
-- What printf of lab traps/kernel/printf.c does to the machine.
use lab_utilities.Base.{ℕ, ◌≡◌, refl, Bool, true, false, List, [], ◌∷◌, some}
use lab_utilities.Machine.{Machine, ok, Event, consputc, acquired, released, pr_lock}
use lab_utilities.Printf.{Arg, format, printf, put_all}

-- A text on the console, after what came before it.
abbrev pub shown : List ℕ → List Event → List Event
shown [] before = before
shown (c ∷ cs) before = shown cs (consputc c ∷ before)

put_all-shown :
    (cs : List ℕ) (s : Machine) → put_all cs s ≡ ok tt (record s { trace = shown cs s.trace })
put_all-shown [] s = refl
put_all-shown (c ∷ cs) s = put_all-shown cs (record s { trace = consputc c ∷ s.trace })

-- The trace of a call: the text, between the two calls on the lock where pr.locking is set.
abbrev pub printed : Bool → List ℕ → List Event → List Event
printed true text before = released pr_lock ∷ shown text (acquired pr_lock ∷ before)
printed false text before = shown text before

-- printf writes the text that its format and arguments stand for, and nothing else changes.
pub printf_lem :
    (locking : Bool) (fmt : List ℕ) (args : List Arg) (text : List ℕ) (s : Machine)
    → format fmt args ≡ some text
    → printf locking fmt args s ≡ ok tt (record s { trace = printed locking text s.trace })
unfolding printf
printf_lem true fmt args text s e =
    rw (e, put_all-shown text (record s { trace = acquired pr_lock ∷ s.trace }))
printf_lem false fmt args text s e = rw (e, put_all-shown text s)
