-- ===== src/Console/Tests.antt =====
-- A line that is typed, corrected and read.
use os.Prelude.{ℕ, ◌-◌, ◌^◌, ◌≡◌, refl, false, List, [], ◌∷◌, replicate}
use os.Console.{
  Input, erase, kill_line, backspace, store, ends_line, close_line, typed, input_char, or_woken,
  consoleintr, got, asleep, read_on, take_char, read_loop, consoleread,
}

-- Just before the counters wrap around.
abbrev empty : Input
empty = record { buf = replicate 128 0; r = 2 ^ 32 - 1; w = 2 ^ 32 - 1; e = 2 ^ 32 - 1 }

-- "x", C('U'), "ab", backspace, "c" and return.
abbrev keys : List ℕ
keys = 120 ∷ 21 ∷ 97 ∷ 98 ∷ 8 ∷ 99 ∷ 13 ∷ []

read_line : (consoleread false 10 (consoleintr keys empty).0).0 ≡ got (97 ∷ 99 ∷ 10 ∷ [])
unfolding consoleread consoleintr input_char typed close_line ends_line store backspace kill_line
    erase or_woken read_loop take_char read_on
read_line = refl

read_unfinished : (consoleread false 10 (consoleintr (97 ∷ []) empty).0).0 ≡ asleep [] 10
unfolding consoleread consoleintr input_char typed close_line ends_line store backspace kill_line
    erase or_woken read_loop take_char read_on
read_unfinished = refl
