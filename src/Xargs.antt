-- ===== src/Xargs.antt =====
-- lab utilities/xargs.c. The input is the list of bytes that the reads give. A write past the end of
-- an array is undefined in C: it is noted as an overrun, and the commands are those of a run in which
-- it reaches memory that nothing else uses.
use lab_utilities.Base.{
  ℕ, suc, ◌+◌, Bool, true, false, List, [], ◌∷◌, ◌++◌, map, ltb, ◌==◌, if◌then◌else◌, take,
}

abbrev pub Text : Type 0
Text = List ℕ

-- The size of bufl.
abbrev pub num : ℕ
num = 32

pub data Overrun : Type 0 where
  bufl : ℕ → Overrun
  argsb : ℕ → Overrun
  block : (arg index : ℕ) → Overrun

-- What the program does: the message for too few arguments, the calls of exec, each in a child of
-- its own, the number of waits, and the writes past the end of an array.
pub record Outcome : Type 0 where
  pub usage : Bool
  pub commands : List (List Text)
  pub waits : ℕ
  pub overruns : List Overrun

-- The read loop: the overruns of bufl from `count` on.
unfoldable pub read_loop : ℕ → List ℕ → List Overrun
read_loop count [] = []
read_loop count (c ∷ cs) =
    let rest = read_loop (count + 1) cs in if ltb count num then rest else bufl count ∷ rest

-- numargs
unfoldable pub count_lines : List ℕ → ℕ
count_lines [] = 0
count_lines (c ∷ cs) = if c == 10 then suc (count_lines cs) else count_lines cs

-- sz, the length of the first line
unfoldable pub first_size : List ℕ → ℕ
first_size [] = 0
first_size (c ∷ cs) = if c == 10 then 0 else suc (first_size cs)

-- The blocks that argsb points to, as far as they have been written.
pub record Split : Type 0 where
  pub blocks : List Text
  pub overruns : List Overrun

abbrev note : Bool → Overrun → List Overrun → List Overrun
note fits o os = if fits then os else o ∷ os

-- The loop that splits bufl: `line` is what argsb[arg], of `size` bytes, holds so far.
unfoldable pub split_loop : (numargs arg index size : ℕ) → Text → List ℕ → Split
split_loop numargs arg index size line [] = record { blocks = line ∷ []; overruns = [] }
split_loop numargs arg index size line (c ∷ cs) =
    let next = split_loop numargs (arg + 1) 0 index [] cs in
    let more = split_loop numargs arg (index + 1) size (line ++ c ∷ []) cs in
    if c == 10
    then record {
      blocks = line ∷ next.blocks;
      overruns = note (ltb (arg + 1) numargs) (argsb (arg + 1)) next.overruns;
    }
    else record {
      blocks = more.blocks;
      overruns = note (ltb index size) (block arg index) more.overruns;
    }

-- The writes to argsb[0] and to the blocks.
unfoldable pub split : List ℕ → Split
split input =
    let numargs = count_lines input in
    let parts = split_loop numargs 0 0 (first_size input) [] input in
    record { blocks = parts.blocks; overruns = note (ltb 0 numargs) (argsb 0) parts.overruns }

-- argvl of a child; `after` gives the bytes that follow a block up to the first null.
abbrev pub argvl : (Text → Text) → (command argument : Text) → Text → List Text
argvl after command argument line = command ∷ argument ∷ (line ++ after line) ∷ []

abbrev nothing : Bool → Outcome
nothing usage = record { usage = usage; commands = []; waits = 0; overruns = [] }

unfoldable pub xargs : (Text → Text) → (argv : List Text) → (input : List ℕ) → Outcome
xargs after (program ∷ command ∷ argument ∷ rest) input =
    let parts = split input in
    record {
      usage = false;
      commands = map (argvl after command argument) (take (count_lines input) parts.blocks);
      waits = count_lines input;
      overruns = read_loop 0 input ++ parts.overruns;
    }
xargs after argv input = nothing true
