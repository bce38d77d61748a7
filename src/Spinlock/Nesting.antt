-- ===== src/Spinlock/Nesting.antt =====
-- pushcli and popcli in pairs.
use os.Prelude.{
  ℕ, zero, suc, ◌+◌, ◌-◌, ◌<◌, ◌≡◌, refl, sym, ap, ◌∙◌, Bool, false, ◌&&◌, Option, some, arith,
  ◌==◌, if◌then◌else◌, ◌>>=◌, ==_of_ne,
}
use os.Spinlock.{Cpu, pushcli, popcli}

-- n calls in a row.
abbrev pub pushes : ℕ → Cpu → Cpu
pushes zero c = c
pushes (suc n) c = pushes n (pushcli c)

abbrev pub pops : ℕ → Cpu → Option Cpu
pops zero c = some c
pops (suc n) c = popcli c >>= pops n

-- After n pushes: the count, the flag before the first, and interrupts off.
pub record Pushed (n : ℕ) (c c' : Cpu) : Type 0 where
  pub count : c'.ncli ≡ c.ncli + n
  pub saved : c'.intena ≡ (if c.ncli == 0 then c.interrupts else c.intena)
  pub off : c'.interrupts ≡ false

pushes-Pushed : (n : ℕ) (c : Cpu) → Pushed (suc n) c (pushes (suc n) c)
unfolding pushcli
pushes-Pushed zero c = record { count = refl; saved = refl; off = refl }
pushes-Pushed (suc n) c =
    let rest = pushes-Pushed n (pushcli c) in
    record {
      count = rest.count ∙ omega arith;
      saved = rest.saved ∙ rw (==_of_ne (c.ncli + 1) 0 (λ e. omega arith)) refl;
      off = rest.off;
    }

-- After as many pops: the count as before, and the interrupts too.
pub record Restored (c : Cpu) (r : Option Cpu) : Type 0 where
  pub after : Cpu
  pub runs : r ≡ some after
  pub count : after.ncli ≡ c.ncli
  pub flag : after.interrupts ≡ c.interrupts

popcli-some :
    (c : Cpu)
    → c.interrupts ≡ false
    → 0 < c.ncli
    → popcli c ≡ some (record c { ncli = c.ncli - 1; interrupts = c.ncli == 1 && c.intena })
unfolding popcli
popcli-some c e h = ground (arith, e)

-- Popping n + 1 times from a count that was raised so often, with interrupts off.
pops-Restored :
    (n k : ℕ) (c : Cpu)
    → c.interrupts ≡ false
    → c.ncli ≡ k + suc n
    → (d : Cpu) × (pops (suc n) c ≡ some d) × (d.ncli ≡ k) × (d.interrupts ≡ (k == 0 && c.intena))
pops-Restored zero k c e h = (
  record c { ncli = c.ncli - 1; interrupts = c.ncli == 1 && c.intena },
  rw (popcli-some c e (omega arith)) refl,
  omega arith,
  ap (λ b. b && c.intena) (ground arith),
)
pops-Restored (suc n) k c e h =
    let down = record c { ncli = c.ncli - 1; interrupts = c.ncli == 1 && c.intena } in
    let more : (c.ncli == 1) ≡ false = ==_of_ne c.ncli 1 (λ q. omega arith) in
    let rest = pops-Restored n k down (ap (λ b. b && c.intena) more) (omega arith) in
    (rest.0, rw (popcli-some c e (omega arith)) rest.1, rest.2, rest.3)

off_when_nested :
    (k : ℕ) (b b' : Bool) → (0 < k → b ≡ false) → (k == 0 && (if k == 0 then b else b')) ≡ b
off_when_nested zero b b' h = refl
off_when_nested (suc k) b b' h = rw (==_of_ne (suc k) 0 (λ e. omega arith)) (sym (h (omega arith)))

-- On a processor whose interrupts are off wherever pushcli has been called without its popcli, as
-- many calls of popcli as there were of pushcli do not panic, and leave the interrupts as they were
-- before; after the calls of pushcli they are off.
pub pushes-pops :
    (n : ℕ) (c : Cpu)
    → (0 < c.ncli → c.interrupts ≡ false)
    → Pushed (suc n) c (pushes (suc n) c) × Restored c (pops (suc n) (pushes (suc n) c))
pushes-pops n c h =
    let p = pushes-Pushed n c in
    let (d, runs, count, flag) = pops-Restored n c.ncli (pushes (suc n) c) p.off p.count in
    (
      p,
      record {
        after = d;
        runs = runs;
        count = count;
        flag =
            flag
            ∙ ap (λ b. c.ncli == 0 && b) p.saved
            ∙ off_when_nested c.ncli c.interrupts c.intena h;
      },
    )
