-- ===== src/Primes.antt =====
-- lab utilities/primes.c: the prime sieve as a pipeline of processes. A pipe carries messages of two
-- bytes, and its reader gets them in order and then the end of the data; the model follows the
-- messages from stage to stage, where every call of fork succeeds (the source does not test it); pipe,
-- fork, wait and close are the kernel's, `atoi` is the user library's.
use lab_utilities.Base.{
  ℕ, zero, suc, ◌+◌, ◌-◌, ◌*◌, ◌/◌, ◌%◌, not, ◌&&◌, List, [], ◌∷◌, Option, none, some, leb, ltb,
  ◌==◌, if◌then◌else◌,
}

-- MAX
abbrev pub max_number : ℕ
max_number = 35

abbrev pub Message : Type 0
Message = List ℕ

-- atoi of the two bytes of `buff`, and what `buff` holds where nothing has been read into it.
pub record Buffer : Type 0 where
  pub atoi : Message → ℕ
  pub stale : Message

-- What a process of the pipeline does: the numbers it prints, and the messages it passes on.
pub record Stage : Type 0 where
  pub lines : List ℕ
  pub passed : List Message

-- The two digits that print_primes writes for a number.
unfoldable pub encode : ℕ → Message
encode i = (i / 10 + b'0') ∷ (i - i / 10 * 10 + b'0') ∷ []

abbrev pub pass : Buffer → ℕ → Message → Stage → Stage
pass b sl message rest = record {
  lines = if leb (max_number / 2) sl then b.atoi message ∷ rest.lines else rest.lines;
  passed = message ∷ rest.passed;
}

-- The read loop of a stage: `sl` is the number that it sieves by.
unfoldable pub filter_loop : Buffer → (sl c end : ℕ) → List Message → Stage
filter_loop b sl c end [] = record { lines = []; passed = [] }
filter_loop b sl c end (message ∷ messages) =
    let rest = filter_loop b sl c end messages in
    if ltb 0 sl && leb c end && not (b.atoi message % sl == 0) then pass b sl message rest else rest

-- The child process of filter. Its first read may find the end of the data.
unfoldable pub filter_child : Buffer → (c end : ℕ) → List Message → Stage
filter_child b c end [] = record {
  lines = if ltb 0 (b.atoi b.stale) then b.atoi b.stale ∷ [] else [];
  passed = [];
}
filter_child b c end (message ∷ messages) =
    let sl = b.atoi message in
    let rest = filter_loop b sl c end messages in
    record { lines = if ltb 0 sl then sl ∷ rest.lines else rest.lines; passed = rest.passed }

abbrev pub prepend : List ℕ → Option (List (List ℕ)) → Option (List (List ℕ))
prepend lines none = none
prepend lines (some rest) = some (lines ∷ rest)

-- filter(c, p, start, end) with the messages that pipe `c` will carry: what each process prints.
unfoldable pub filter : ℕ → Buffer → (c end : ℕ) → List Message → Option (List (List ℕ))
filter zero b c end messages = none
filter (suc fuel) b c end messages =
    let stage = filter_child b c end messages in
    let rest = filter fuel b (c + 1) end stage.passed in
    if leb (c + 1) (end / 3) then prepend stage.lines rest else some (stage.lines ∷ [])

-- The loop that feeds the first pipe, from `i` on, `n` rounds.
unfoldable pub feed : (n sl i : ℕ) → List Message
feed zero sl i = []
feed (suc n) sl i = let rest = feed n sl (i + 1) in if i % sl == 0 then rest else encode i ∷ rest

-- print_primes(start, end): the first process's line, and those of the pipeline. `granted` is the
-- number of pipes that pipe() opens; with fewer than the `end + 1` that it asks for, the pipeline has
-- descriptors that were never set, and there is no result.
unfoldable pub print_primes : (granted : ℕ) → Buffer → (start end : ℕ) → Option (List (List ℕ))
print_primes granted b start end =
    if ltb max_number end
    then some []
    else if leb granted end
    then none
    else prepend (start ∷ []) (filter (end / 3 + 1) b 0 end (feed (end - start) start (start + 1)))
