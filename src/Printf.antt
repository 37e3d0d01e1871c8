-- ===== src/Printf.antt =====
-- lab traps/kernel/printf.c: formatted output on the console. Text is a list of bytes; the console
-- itself (console.c) is elsewhere, so each consputc is an event.
pub mod Output
pub mod Digits
pub mod Backtrace
use lab_utilities.Base.{
  ℕ, zero, suc, ◌+◌, ◌-◌, ◌*◌, ◌/◌, ◌%◌, ◌^◌, Bool, true, false, not, ◌&&◌, List, [], ◌∷◌, ◌++◌,
  Option, none, some, leb, ltb, ◌==◌, if◌then◌else◌,
}
use lab_utilities.Riscv.{pgsize, u64, pg_round_down}
use lab_utilities.Machine.{
  diverge, read64, initlock, Machine, Lock, pr_lock, consputc, Cmd, pure, fail, ◌>>=◌, ◌>>◌, when,
  emit, acquire, release,
}

-- `digits[d]`
unfoldable pub digit : ℕ → ℕ
digit d = if ltb d 10 then b'0' + d else b'a' + (d - 10)

-- The do-while loop of printint: the digits of `x`, the last one written in front.
unfoldable pub digits_loop : ℕ → ℕ → ℕ → List ℕ → Option (List ℕ)
digits_loop zero x base buf = none
digits_loop (suc fuel) x base buf =
    let rest = digits_loop fuel (x / base) base (digit (x % base) ∷ buf) in
    if x / base == 0 then some (digit (x % base) ∷ buf) else rest

-- `sign && (sign = xx < 0)`
unfoldable pub is_negative : Bool → ℕ → Bool
is_negative sign xx = sign && leb (2 ^ 31) xx

abbrev put_sign : Bool → Option (List ℕ) → Option (List ℕ)
put_sign negative none = none
put_sign negative (some buf) = some (if negative then b'-' ∷ buf else buf)

-- printint(xx, base, sign): what it writes, with `xx` an int in its 32-bit pattern. The buffer is
-- written from its end, so the list is in the order of output.
unfoldable pub printint : ℕ → ℕ → Bool → Option (List ℕ)
printint xx base sign =
    let x = if is_negative sign xx then 2 ^ 32 - xx else xx in
    put_sign (is_negative sign xx) (digits_loop 32 x base [])

-- The loop of printptr: the top four bits, then the rest moved up.
unfoldable pub printptr_loop : ℕ → ℕ → List ℕ
printptr_loop zero x = []
printptr_loop (suc n) x = digit (x / 2 ^ 60) ∷ printptr_loop n (x * 2 ^ 4 % 2 ^ 64)

unfoldable pub printptr : ℕ → List ℕ
printptr x = b'0' ∷ b'x' ∷ printptr_loop 16 x

-- An argument of printf: an int, a uint64, or a string, which may be null.
pub data Arg : Type 0 where
  int : ℕ → Arg
  ptr : ℕ → Arg
  str : Option (List ℕ) → Arg

abbrev null_text : List ℕ
null_text = b'(' ∷ b'n' ∷ b'u' ∷ b'l' ∷ b'l' ∷ b')' ∷ []

-- The branches of the switch on the character after `%` that take an argument. `none` stands for
-- an argument of another type, which C leaves undefined.
unfoldable pub conversion : ℕ → Arg → Option (List ℕ)
conversion c (int n) =
    if c == b'd' then printint n 10 true else if c == b'x' then printint n 16 true else none
conversion c (ptr n) = if c == b'p' then some (printptr n) else none
conversion c (str none) = if c == b's' then some null_text else none
conversion c (str (some t)) = if c == b's' then some t else none

abbrev pub takes_argument : ℕ → Bool
takes_argument c =
    if c == b'd' then true else if c == b'x' then true else if c == b'p' then true else c == b's'

abbrev then_more : Option (List ℕ) → Option (List ℕ) → Option (List ℕ)
then_more none rest = none
then_more (some t) none = none
then_more (some t) (some rest) = some (t ++ rest)

-- What printf writes for a format and its arguments.
unfoldable pub format : List ℕ → List Arg → Option (List ℕ)
unfolding conversion
format [] args = some []
format (c ∷ []) args = if c == b'%' then some [] else some (c ∷ [])
format (c ∷ d ∷ fmt) [] =
    let literal = then_more (some (c ∷ [])) (format (d ∷ fmt) []) in
    let percent = then_more (some (b'%' ∷ [])) (format fmt []) in
    let other = then_more (some (b'%' ∷ d ∷ [])) (format fmt []) in
    if not (c == b'%')
    then literal
    else if takes_argument d
    then none
    else if d == b'%'
    then percent
    else other
format (c ∷ d ∷ fmt) (a ∷ args) =
    let literal = then_more (some (c ∷ [])) (format (d ∷ fmt) (a ∷ args)) in
    let converted = then_more (conversion d a) (format fmt args) in
    let percent = then_more (some (b'%' ∷ [])) (format fmt (a ∷ args)) in
    let other = then_more (some (b'%' ∷ d ∷ [])) (format fmt (a ∷ args)) in
    if not (c == b'%')
    then literal
    else if takes_argument d
    then converted
    else if d == b'%'
    then percent
    else other

abbrev pub put_all : List ℕ → Cmd Machine (Unit {0})
put_all [] = pure tt
put_all (c ∷ cs) = emit (consputc c) >> put_all cs

abbrev put_format : Option (List ℕ) → Cmd Machine (Unit {0})
put_format none = fail "undefined"
put_format (some t) = put_all t

-- printf, with pr.locking given.
unfoldable pub printf : Bool → List ℕ → List Arg → Cmd Machine (Unit {0})
printf locking fmt args = do
  when locking (acquire pr_lock)
  put_format (format fmt args)
  when locking (release pr_lock)

-- printfinit; the result is pr.locking.
unfoldable pub printfinit : Cmd Machine Bool
printfinit = do initlock pr_lock; pure true

abbrev panic_format : List ℕ
panic_format = b'p' ∷ b'a' ∷ b'n' ∷ b'i' ∷ b'c' ∷ b':' ∷ b' ' ∷ []

abbrev newline : List ℕ
newline = 10 ∷ []

-- "%p\n"
abbrev pub address_format : List ℕ
address_format = b'%' ∷ b'p' ∷ newline

-- The loop of backtrace; a frame holds the return address 8 bytes below its frame pointer, and the
-- caller's frame pointer 16 bytes below.
unfoldable pub backtrace_loop : ℕ → Bool → (grnd fp : ℕ) → Cmd Machine (Unit {0})
backtrace_loop zero locking grnd fp = diverge
backtrace_loop (suc fuel) locking grnd fp = if not (grnd == pg_round_down fp) then pure tt else do
  ra ← read64 (u64 (fp + 2 ^ 64 - 8))
  printf locking address_format (ptr ra ∷ [])
  caller ← read64 (u64 (fp + 2 ^ 64 - 16))
  backtrace_loop fuel locking grnd caller

-- backtrace with the frame pointer r_fp() and the global `grnd`, whose new value is the result: it
-- is set on the first call and kept. A page holds at most 4096 frames.
unfoldable pub backtrace : Bool → (grnd fp : ℕ) → Cmd Machine ℕ
unfolding backtrace_loop
backtrace locking grnd fp = do
  let page = if grnd == 0 then pg_round_down fp else grnd
  backtrace_loop (pgsize + 1) locking page fp
  pure page

-- panic(s) up to its endless loop: nothing is locked from here on.
unfoldable pub panic : (grnd fp : ℕ) → List ℕ → Cmd Machine ℕ
panic grnd fp s = do
  printf false panic_format []
  printf false s []
  printf false newline []
  backtrace false grnd fp
