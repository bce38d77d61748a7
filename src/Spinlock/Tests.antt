-- ===== src/Spinlock/Tests.antt =====
-- Two processors at one lock, and the theorems at concrete inputs.
use os.Prelude.{ℕ, ◌≡◌, ◌≢◌, refl, true, false, List, [], ◌∷◌}
use os.Spinlock.{Cpu, Pc, spinning, critical, holding, act_at, act, run, initlock}
use os.Spinlock.Exclusion.{mutual_exclusion}

abbrev schedule : List ℕ
schedule = 0 ∷ 1 ∷ 1 ∷ 0 ∷ 1 ∷ 0 ∷ []

-- Processor 1 wins, and processor 0 spins.
race_winner : (run initlock schedule).pc 1 ≡ critical
unfolding run act act_at holding initlock
race_winner = refl

race_loser : (run initlock schedule).pc 0 ≡ spinning
unfolding run act act_at holding initlock
race_loser = refl

mutual_exclusion_example :
    ((run initlock schedule).pc 0 ≡ critical
      → (run initlock schedule).pc 1 ≡ critical
      → ◌≡◌ {A = ℕ} 0 1)
    × ((run initlock schedule).pc 0 ≢ Pc.panicked)
mutual_exclusion_example = mutual_exclusion schedule 0 1

abbrev running : Cpu
running = record { ncli = 0; intena = false; interrupts = true }
