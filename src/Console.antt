-- ===== src/Console.antt =====
-- The input of console.c: a ring of characters with three counters, filled by the keyboard's
-- interrupt and emptied line by line. The echo of characters on the screen is left out, and so is
-- procdump. Characters are non-negative ints; the counters are uints.
mod Tests
use os.Prelude.{
  ℕ, zero, suc, ◌+◌, ◌-◌, ◌%◌, ◌^◌, Bool, true, false, not, ◌&&◌, ◌||◌, List, [], ◌∷◌, ◌==◌, ltb,
  if◌then◌else◌, get_or, set,
}

abbrev pub input_buf : ℕ
input_buf = 128

-- The struct input: what is to be read starts at r, the line under edit at w, and ends at e.
pub record Input : Type 0 where
  pub buf : List ℕ
  pub r : ℕ
  pub w : ℕ
  pub e : ℕ

abbrev pub add_uint : ℕ → ℕ → ℕ
add_uint a b = (a + b) % 2 ^ 32

abbrev pub sub_uint : ℕ → ℕ → ℕ
sub_uint a b = (a + 2 ^ 32 - b) % 2 ^ 32

-- '\n', '\r', C('D'), C('P'), C('U'), C('H') and '\x7f'.
abbrev pub newline : ℕ
newline = 10

abbrev pub carriage_return : ℕ
carriage_return = 13

abbrev pub ctrl_d : ℕ
ctrl_d = 4

abbrev pub ctrl_p : ℕ
ctrl_p = 16

abbrev pub ctrl_u : ℕ
ctrl_u = 21

abbrev pub ctrl_h : ℕ
ctrl_h = 8

abbrev pub delete : ℕ
delete = 127

-- input.e--
pub erase : Input → Input
erase i = record i { e = sub_uint i.e 1 }

-- The loop for C('U'), with so many rounds at most; the ring holds input_buf characters.
pub kill_line : ℕ → Input → Input
kill_line zero i = i
kill_line (suc n) i =
    let rest = kill_line n (erase i) in
    if not (i.e == i.w) && not (get_or i.buf (sub_uint i.e 1 % input_buf) 0 == newline)
    then rest
    else i

pub backspace : Input → Input
backspace i = if i.e == i.w then i else erase i

-- input.buf[input.e++ % INPUT_BUF] = c
pub store : ℕ → Input → Input
store c i = record i { buf = set i.buf (i.e % input_buf) c; e = add_uint i.e 1 }

-- Whether the line is complete, so that readers are woken; and that it is readable then.
pub ends_line : ℕ → Input → Bool
ends_line c i = c == newline || c == ctrl_d || i.e == add_uint i.r input_buf

pub close_line : Bool → Input → Input × Bool
close_line ends i = if ends then (record i { w = i.e }, true) else (i, false)

pub typed : ℕ → Input → Input × Bool
typed c i =
    let j = store c i in
    if not (c == 0) && ltb (sub_uint i.e i.r) input_buf
    then close_line (ends_line c j) j
    else (i, false)

-- The switch of consoleintr; the Boolean says whether it calls wakeup(&input.r).
pub input_char : ℕ → Input → Input × Bool
input_char c i =
    if c == ctrl_p
    then (i, false)
    else if c == ctrl_u
    then (kill_line input_buf i, false)
    else if c == ctrl_h || c == delete
    then (backspace i, false)
    else typed (if c == carriage_return then newline else c) i

pub or_woken : Bool → Input × Bool → Input × Bool
or_woken woken (i, more) = (i, woken || more)

-- consoleintr, for the characters that getc returns before it returns a negative number.
pub consoleintr : List ℕ → Input → Input × Bool
consoleintr [] i = (i, false)
consoleintr (c ∷ cs) i = let (j, woken) = input_char c i in or_woken woken (consoleintr cs j)

-- How consoleread stops: with the characters read, or to wait with so many still to read, or, when
-- the caller was killed meanwhile, with -1.
pub data Answer : Type 0 where
  got : List ℕ → Answer
  asleep : List ℕ → ℕ → Answer
  failed : Answer

pub read_on : ℕ → Answer × Input → Answer × Input
read_on c (got cs, i) = (got (c ∷ cs), i)
read_on c (asleep cs n, i) = (asleep (c ∷ cs) n, i)
read_on c (failed, i) = (failed, i)

-- What consoleread does with the character c that it took, where n are left to read: `first` says
-- that none was read before. C('D') is put back unless it is the first.
pub take_char : ℕ → Bool → Input → Input → Answer × Input → Answer × Input
take_char c first before after rest =
    if c == ctrl_d
    then (got [], if first then after else before)
    else if c == newline
    then (got (c ∷ []), after)
    else read_on c rest

-- The outer loop, for n more characters.
pub read_loop : Bool → Bool → ℕ → Input → Answer × Input
read_loop is_killed first zero i = (got [], i)
read_loop is_killed first (suc n) i =
    let after = record i { r = add_uint i.r 1 } in
    let rest = read_loop is_killed false n after in
    if i.r == i.w
    then (if is_killed then failed else asleep [] (suc n), i)
    else take_char (get_or i.buf (i.r % input_buf) 0) first i after rest

pub consoleread : Bool → ℕ → Input → Answer × Input
consoleread is_killed n i = read_loop is_killed true n i
