-- ===== src/Examples/Programs.antt =====
-- The theorems on pingpong, and runs of xargs and primes.
use lab_utilities.Base.{ℕ, ◌+◌, ◌-◌, ◌*◌, some, none, ◌≡◌, refl, List, [], ◌∷◌, ◌++◌}
use lab_utilities.Pingpong.{Process, child, parent, Item, run, start}
use lab_utilities.Pingpong.Queues.{queues, queues-IsPipes}
use lab_utilities.Pingpong.Orders.{transcript, rounds, finished, run-transcript, run-finished}
use lab_utilities.Xargs.{xargs, split, split_loop, count_lines, first_size}
use lab_utilities.Primes.{Message, print_primes, filter, filter_child, feed, encode, filter_loop}

-- The parent is ahead, then the child runs up to its first output.
abbrev some_turns : List Process
some_turns = child ∷ parent ∷ parent ∷ child ∷ child ∷ []

run-transcript_example :
    (rest : List Item) × ((run queues some_turns start).out ++ rest ≡ transcript)
run-transcript_example = run-transcript queues some_turns queues-IsPipes

run-finished_example : run queues (rounds 16) (run queues some_turns start) ≡ finished
run-finished_example = run-finished queues some_turns queues-IsPipes

-- `xargs e h` on "ab\nc\n": one call of the command for each line.
two_lines :
    (xargs
      (λ t. [])
      ([] ∷ (b'e' ∷ []) ∷ (b'h' ∷ []) ∷ [])
      (b'a' ∷ b'b' ∷ 10 ∷ b'c' ∷ 10 ∷ [])).commands
    ≡ (((b'e' ∷ []) ∷ (b'h' ∷ []) ∷ (b'a' ∷ b'b' ∷ []) ∷ [])
        ∷ ((b'e' ∷ []) ∷ (b'h' ∷ []) ∷ (b'c' ∷ []) ∷ [])
        ∷ [])
unfolding xargs split split_loop count_lines first_size
two_lines = refl

abbrev two_digits : Message → ℕ
two_digits (a ∷ b ∷ rest) = 10 * (a - b'0') + (b - b'0')
two_digits _ = 0

-- From stage 17 on, what is let through is printed, and printed again by the stages after it.
prints_again :
    print_primes 24 (record { atoi = two_digits; stale = [] }) 2 23
    ≡ some (
        (2 ∷ [])
        ∷ (3 ∷ [])
        ∷ (5 ∷ [])
        ∷ (7 ∷ [])
        ∷ (11 ∷ [])
        ∷ (13 ∷ [])
        ∷ (17 ∷ 19 ∷ 23 ∷ [])
        ∷ (19 ∷ 23 ∷ [])
        ∷ (23 ∷ [])
        ∷ [])
unfolding print_primes filter filter_child feed encode filter_loop
prints_again = refl

-- With 16 descriptors a process, six pipes can be opened.
too_few : print_primes 6 (record { atoi = two_digits; stale = [] }) 2 23 ≡ none
unfolding print_primes
too_few = refl
