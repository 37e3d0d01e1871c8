-- ===== src/Pingpong/Orders.antt =====
-- lab utilities/pingpong.c under every order of the turns of its two processes.
use lab_utilities.Base.{
  ℕ, zero, suc, ◌-◌, ◌<◌, ◌≡◌, refl, sym, ap, ◌∙◌, Bool, true, false, not, ◌&&◌, ◌||◌, List, [],
  ◌∷◌, ◌++◌, leb, ltb, ◌==◌, min, replicate, arith,
}
use lab_utilities.Pingpong.{
  Process, child, parent, Item, pid_of, Channel, State, received_ping, received_pong, perform, step,
  run, start,
}
use lab_utilities.Pingpong.{Pipes}
use lab_utilities.Pingpong.Queues.{IsPipes, queues, run-queues}
use lab_utilities.Pingpong.Tests.{
  same_item, same_state, same_item-eq, same_state-eq, and_left, and_right, all_below,
  all_below-holds,
}

-- The state in which the child has made `c` calls and the parent `p`, in one order of the turns: the
-- parent up to its read, the child, the rest of the parent.
abbrev turns : ℕ → ℕ → List Process
turns c p = replicate (min p 3) parent ++ replicate c child ++ replicate (p - 3) parent

unfoldable at : ℕ → ℕ → State
at c p = run queues (turns c p) start

-- The counts that the reads allow.
abbrev allowed : ℕ → ℕ → Bool
allowed c p = leb c 8 && leb p 8 && ((c == 0) || ltb 0 p) && (leb p 3 || leb 6 c)

-- A turn leads to the state of its counts.
abbrev turn_stays : Process → ℕ → ℕ → Bool
turn_stays w c p =
    let t = step queues w (at c p) in
    same_state t (at t.child_at t.parent_at) && allowed t.child_at t.parent_at

-- What is printed in full, and the state after both processes have exited.
abbrev pub transcript : List Item
transcript = pid_of child ∷ received_ping ∷ pid_of parent ∷ received_pong ∷ []

abbrev closed_pipe : Channel
closed_pipe = record { bytes = []; readers = 0; writers = 0 }

abbrev pub finished : State
finished = record {
  child_at = 8;
  parent_at = 8;
  first = closed_pipe;
  second = closed_pipe;
  out = transcript;
}

abbrev is_prefix : List Item → List Item → Bool
is_prefix [] js = true
is_prefix (i ∷ is) [] = false
is_prefix (i ∷ is) (j ∷ js) = same_item i j && is_prefix is js

is_prefix-eq : (is js : List Item) → is_prefix is js ≡ true → (rest : List Item) × (is ++ rest ≡ js)
is_prefix-eq [] js h = (js, refl)
is_prefix-eq (i ∷ is) [] h = absurd (cc h)
is_prefix-eq (i ∷ is) (j ∷ js) h =
    let (rest, e) = is_prefix-eq is js (and_right (same_item i j) (is_prefix is js) h) in
    (rest, ground (arith, same_item-eq i j))

-- `n` turns of each process.
abbrev pub rounds : ℕ → List Process
rounds zero = []
rounds (suc n) = child ∷ parent ∷ rounds n

abbrev check : ℕ → ℕ → Bool
check c p =
    not (allowed c p)
    || (turn_stays child c p
        && turn_stays parent c p
        && is_prefix (at c p).out transcript
        && same_state (run queues (rounds 16) (at c p)) finished)

abbrev check_all : Bool
check_all = all_below 9 (λ c. all_below 9 (λ p. check c p))

checked : check_all ≡ true
unfolding at run step perform all_below
checked = refl

-- What the checks say of one pair of counts.
record Sound (c p : ℕ) : Type 0 where
  child_turn : turn_stays child c p ≡ true
  parent_turn : turn_stays parent c p ≡ true
  prefix : is_prefix (at c p).out transcript ≡ true
  finishes : same_state (run queues (rounds 16) (at c p)) finished ≡ true

allowed-bounds : (c p : ℕ) → allowed c p ≡ true → (c < 9) × (p < 9)
allowed-bounds c p h = ground arith

four :
    (g a b c d : Bool)
    → g ≡ true
    → (not g || (a && b && c && d)) ≡ true
    → (a ≡ true) × (b ≡ true) × (c ≡ true) × (d ≡ true)
four g a b c d h k = ground arith

check-Sound : (c p : ℕ) → allowed c p ≡ true → Sound c p
check-Sound c p h =
    let (low, low') = allowed-bounds c p h in
    let row = all_below-holds 9 (λ c. all_below 9 (λ p. check c p)) c checked low in
    let cell : check c p ≡ true = all_below-holds 9 (λ p. check c p) p row low' in
    let (i, j, k, l) =
      four (allowed c p) (turn_stays child c p) (turn_stays parent c p)
        (is_prefix (at c p).out transcript) (same_state (run queues (rounds 16) (at c p)) finished)
        h cell in
    record { child_turn = i; parent_turn = j; prefix = k; finishes = l }

turn : (w : Process) (c p : ℕ) → Sound c p → turn_stays w c p ≡ true
turn child c p s = s.child_turn
turn parent c p s = s.parent_turn

-- Every order of turns leads to the state of the counts that it ends with.
run-at :
    (ws : List Process) (c p : ℕ)
    → allowed c p ≡ true
    → (d : ℕ) × (q : ℕ) × (run queues ws (at c p) ≡ at d q) × (allowed d q ≡ true)
unfolding run
run-at [] c p h = (c, p, refl, h)
run-at (w ∷ ws) c p h =
    let stays = turn w c p (check-Sound c p h) in
    let t : State = step queues w (at c p) in
    let same : t ≡ at t.child_at t.parent_at = same_state-eq t (at t.child_at t.parent_at) (
      and_left (same_state t (at t.child_at t.parent_at)) (allowed t.child_at t.parent_at) stays) in
    let (d, q, e, k) = run-at ws t.child_at t.parent_at (
      and_right (same_state t (at t.child_at t.parent_at)) (allowed t.child_at t.parent_at)
        stays) in
    (d, q, ap (run queues ws) same ∙ e, k)

at-start : at 0 0 ≡ start
unfolding at run
at-start = refl

-- Over pipes that keep their bytes in order, in whatever order the two processes take turns, the output is at every moment a beginning of the
-- child's pid, ": received ping", the parent's pid, ": received pong".
pub run-transcript :
    (p : Pipes) (ws : List Process)
    → IsPipes p
    → (rest : List Item) × ((run p ws start).out ++ rest ≡ transcript)
run-transcript p ws is =
    let (d, q, e, h) = run-at ws 0 0 refl in
    let (rest, k) = is_prefix-eq (at d q).out transcript (check-Sound d q h).prefix in
    (
      rest,
      ap (λ (s : State). s.out ++ rest)
            (run-queues p is ws start ∙ ap (run queues ws) (sym at-start) ∙ e)
          ∙ k,
    )

-- Over such pipes, whatever has happened before, after 16 further rounds in which the two processes take
-- turns alternately both have exited, all ends of the pipes are closed, the pipes are empty and
-- everything has been printed.
pub run-finished :
    (p : Pipes) (ws : List Process) → IsPipes p → run p (rounds 16) (run p ws start) ≡ finished
run-finished p ws is =
    let (d, q, e, h) = run-at ws 0 0 refl in
    run-queues p is (rounds 16) (run p ws start)
    ∙ ap (run queues (rounds 16)) (run-queues p is ws start ∙ ap (run queues ws) (sym at-start) ∙ e)
    ∙ same_state-eq (run queues (rounds 16) (at d q)) finished (check-Sound d q h).finishes
