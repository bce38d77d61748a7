-- ===== src/Sys/Sleep.antt =====
-- How long sys_sleep sleeps.
use os.Prelude.{
  ℕ, zero, suc, ◌+◌, ◌-◌, ◌%◌, ◌^◌, ◌≤◌, ◌<◌, ◌≡◌, refl, ◌∙◌, Bool, arith, ltb, if◌then◌else◌,
}
use os.Sys.{tick, over, failed, asleep, sleep_test}

-- The counter after k more timer interrupts.
abbrev pub ticks_after : ℕ → ℕ → ℕ
ticks_after zero ticks = ticks
ticks_after (suc k) ticks = ticks_after k (tick ticks)

ticks_after_lem : (k ticks : ℕ) → ticks < 2 ^ 32 → ticks_after k ticks ≡ (ticks + k) % 2 ^ 32
unfolding tick
ticks_after_lem zero ticks h = omega arith
ticks_after_lem (suc k) ticks h =
    ticks_after_lem k ((ticks + 1) % 2 ^ 32) (omega arith) ∙ omega arith

-- The loop of sys_sleep counts timer interrupts, also when the counter wraps around: at the test
-- after k interrupts, k at most n, it returns 0 just if k is n; before that it sleeps on, or
-- returns -1 if the process was killed.
pub sleep_test_lem :
    (is_killed : Bool) (ticks n k : ℕ)
    → ticks < 2 ^ 32
    → n < 2 ^ 32
    → k ≤ n
    → sleep_test is_killed (ticks_after k ticks) ticks n
      ≡ (if ltb k n then if is_killed then failed else asleep else over)
unfolding sleep_test
sleep_test_lem is_killed ticks n k h l m =
    let later = ticks_after_lem k ticks h in
    let gone : (ticks_after k ticks + 2 ^ 32 - ticks) % 2 ^ 32 ≡ k = omega arith in rw gone refl
