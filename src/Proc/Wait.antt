-- ===== src/Proc/Wait.antt =====
-- wait of proc.c, for one scan of the table.
use os.Prelude.{
  ℕ, zero, suc, ◌≡◌, ◌≢◌, ◌⊎◌, inl, inr, refl, ap, Bool, true, false, not, ◌||◌, List, [], ◌∷◌,
  Option, none, some, if◌then◌else◌, get_elem?, arith, Bool-cases, some_inj, none≢some,
}
use os.Proc.{unused, is_zombie, Proc, same_place}

-- What wait finds in one scan of the table by the process `cur`.
pub data Wait : Type 0 where
  reaped : ℕ → List Proc → Wait
  failed : Wait
  sleeps : Wait

-- The slot of a child that has been waited for. Its stack and its memory are freed.
unfoldable pub reap : Proc → Proc
reap p = record p { kstack = 0; state = unused; pid = 0; parent = none; name = []; killed = false }

-- The loop: the pid and the table if a zombie child is found, and whether there are children.
unfoldable pub past : Proc → Option (ℕ × List Proc) → Option (ℕ × List Proc)
past p none = none
past p (some (pid, ps)) = some (pid, p ∷ ps)

-- The body of the loop, before what the loop does with the rest of the table.
unfoldable pub scan_one :
    ℕ → Proc → List Proc → Option (ℕ × List Proc) × Bool → Option (ℕ × List Proc) × Bool
scan_one cur p ps (r, kids) =
    if same_place p.parent cur
    then if is_zombie p.state then (some (p.pid, reap p ∷ ps), true) else (past p r, true)
    else (past p r, kids)

unfoldable pub scan : ℕ → List Proc → Option (ℕ × List Proc) × Bool
scan cur [] = (none, false)
scan cur (p ∷ ps) = scan_one cur p ps (scan cur ps)

unfoldable pub answer : Bool → Option (ℕ × List Proc) → Bool → Wait
answer is_killed (some (pid, ps)) kids = reaped pid ps
answer is_killed none kids = if not kids || is_killed then failed else sleeps

unfoldable pub wait : ℕ → Bool → List Proc → Wait
wait cur is_killed ps = let (r, kids) = scan cur ps in answer is_killed r kids

abbrev IsChild : ℕ → Proc → Type 0
IsChild cur p = same_place p.parent cur ≡ true

-- No process is a child that has exited.
abbrev NoZombie : ℕ → List Proc → Type 0
NoZombie cur ps =
    (i : ℕ) (p : Proc) → get_elem? ps i ≡ some p → IsChild cur p → is_zombie p.state ≡ false

abbrev NoChild : ℕ → List Proc → Type 0
NoChild cur ps = (i : ℕ) (p : Proc) → get_elem? ps i ≡ some p → same_place p.parent cur ≡ false

-- The child at place `i` has exited, and its slot, and no other, is freed in `ps'`.
pub record Reaps (cur : ℕ) (ps : List Proc) (pid : ℕ) (ps' : List Proc) : Type 0 where
  pub i : ℕ
  pub p : Proc
  pub at : get_elem? ps i ≡ some p
  pub child : IsChild cur p
  pub exited : is_zombie p.state ≡ true
  pub pid_of : pid ≡ p.pid
  pub slot :
      get_elem? ps' i
      ≡ some (record p {
        kstack = 0;
        state = unused;
        pid = 0;
        parent = none;
        name = [];
        killed = false;
      })
  pub others : (k : ℕ) → k ≢ i → get_elem? ps' k ≡ get_elem? ps k

abbrev Scans : ℕ → List Proc → Option (ℕ × List Proc) × Bool → Type 0
Scans cur ps (some (pid, ps'), kids) = Reaps cur ps pid ps'
Scans cur ps (none, true) =
    NoZombie cur ps × ((i : ℕ) × (p : Proc) × (get_elem? ps i ≡ some p) × IsChild cur p)
Scans cur ps (none, false) = NoChild cur ps

-- What an answer of wait says of the table.
abbrev pub Waits : ℕ → Bool → List Proc → Wait → Type 0
Waits cur is_killed ps (reaped pid ps') = Reaps cur ps pid ps'
Waits cur is_killed ps failed = NoZombie cur ps × (NoChild cur ps ⊎ (is_killed ≡ true))
Waits cur is_killed ps sleeps =
    NoZombie cur ps
    × (is_killed ≡ false)
    × ((i : ℕ) × (p : Proc) × (get_elem? ps i ≡ some p) × IsChild cur p)

same_rest :
    (p x : Proc) (ps : List Proc) (k : ℕ) → k ≢ 0 → get_elem? (x ∷ ps) k ≡ get_elem? (p ∷ ps) k
same_rest p x ps zero d = absurd (d refl)
same_rest p x ps (suc k) d = refl

same_later :
    (p : Proc) (ps ps' : List Proc) (i k : ℕ)
    → ((k : ℕ) → k ≢ i → get_elem? ps' k ≡ get_elem? ps k)
    → k ≢ suc i
    → get_elem? (p ∷ ps') k ≡ get_elem? (p ∷ ps) k
same_later p ps ps' i zero f d = refl
same_later p ps ps' i (suc k) f d = f k (omega arith)

Reaps-later :
    (cur : ℕ) (p : Proc) (ps : List Proc) (pid : ℕ) (ps' : List Proc)
    → Reaps cur ps pid ps'
    → Reaps cur (p ∷ ps) pid (p ∷ ps')
Reaps-later cur p ps pid ps' r = record {
  i = suc r.i;
  p = r.p;
  at = r.at;
  child = r.child;
  exited = r.exited;
  pid_of = r.pid_of;
  slot = r.slot;
  others = λ k d. same_later p ps ps' r.i k r.others d;
}

NoZombie-cons :
    (cur : ℕ) (p : Proc) (ps : List Proc)
    → (same_place p.parent cur ≡ false) ⊎ (is_zombie p.state ≡ false)
    → NoZombie cur ps
    → NoZombie cur (p ∷ ps)
NoZombie-cons cur p ps (inl n) z zero q e c =
    cc (ap (λ (y : Proc). same_place y.parent cur) (some_inj e), n, c)
NoZombie-cons cur p ps (inr n) z zero q e c = rw (← some_inj e) n
NoZombie-cons cur p ps h z (suc i) q e c = z i q e c

NoChild-cons :
    (cur : ℕ) (p : Proc) (ps : List Proc)
    → same_place p.parent cur ≡ false
    → NoChild cur ps
    → NoChild cur (p ∷ ps)
NoChild-cons cur p ps h z zero q e = rw (← some_inj e) h
NoChild-cons cur p ps h z (suc i) q e = z i q e

past-Scans-other :
    (cur : ℕ) (p : Proc) (ps : List Proc) (r : Option (ℕ × List Proc)) (kids : Bool)
    → same_place p.parent cur ≡ false
    → Scans cur ps (r, kids)
    → Scans cur (p ∷ ps) (past p r, kids)
unfolding past
past-Scans-other cur p ps (some (pid, ps')) kids n s = Reaps-later cur p ps pid ps' s
past-Scans-other cur p ps none true n (z, (i, q, e, c)) =
    (NoZombie-cons cur p ps (inl n) z, (suc i, q, e, c))
past-Scans-other cur p ps none false n s = NoChild-cons cur p ps n s

past-Scans-child :
    (cur : ℕ) (p : Proc) (ps : List Proc) (r : Option (ℕ × List Proc)) (kids : Bool)
    → same_place p.parent cur ≡ true
    → is_zombie p.state ≡ false
    → Scans cur ps (r, kids)
    → Scans cur (p ∷ ps) (past p r, true)
unfolding past
past-Scans-child cur p ps (some (pid, ps')) kids c n s = Reaps-later cur p ps pid ps' s
past-Scans-child cur p ps none true c n (z, _) = (NoZombie-cons cur p ps (inr n) z, (0, p, refl, c))
past-Scans-child cur p ps none false c n s =
    (NoZombie-cons cur p ps (inr n) (λ i q e k. cc (s i q e, k)), (0, p, refl, c))

scan_one-Scans :
    (cur : ℕ) (p : Proc) (ps : List Proc) (r : Option (ℕ × List Proc)) (kids : Bool)
    → Scans cur ps (r, kids)
    → Scans cur (p ∷ ps) (scan_one cur p ps (r, kids))
unfolding scan_one reap
scan_one-Scans cur p ps r kids s = elim (Bool-cases (same_place p.parent cur)) [
  | inl c ↦ elim (Bool-cases (is_zombie p.state)) [
    | inl z ↦
        rw (c, z)
          (record {
            i = 0;
            p = p;
            at = refl;
            child = c;
            exited = z;
            pid_of = refl;
            slot = refl;
            others = same_rest p (reap p) ps;
          })
    | inr z ↦ rw (c, z) (past-Scans-child cur p ps r kids c z s)
  ]
  | inr c ↦ rw c (past-Scans-other cur p ps r kids c s)
]

scan-Scans : (cur : ℕ) (ps : List Proc) → Scans cur ps (scan cur ps)
unfolding scan
scan-Scans cur [] = λ i p e. absurd (none≢some e)
scan-Scans cur (p ∷ ps) =
    scan_one-Scans cur p ps (scan cur ps).0 (scan cur ps).1 (scan-Scans cur ps)

answer-Waits :
    (cur : ℕ) (is_killed : Bool) (ps : List Proc) (r : Option (ℕ × List Proc)) (kids : Bool)
    → Scans cur ps (r, kids)
    → Waits cur is_killed ps (answer is_killed r kids)
unfolding answer
answer-Waits cur k ps (some (pid, ps')) kids s = s
answer-Waits cur true ps none true (z, s) = (z, inr refl)
answer-Waits cur false ps none true (z, s) = (z, refl, s)
answer-Waits cur true ps none false s = (λ i p e c. cc (s i p e, c), inr refl)
answer-Waits cur false ps none false s = (λ i p e c. cc (s i p e, c), inl s)

-- wait answers the pid of a child that has exited, if there is one, and makes its slot UNUSED, with
-- no stack, pid, parent, name or kill left, and changes no other. If there is
-- none, it answers -1 where there are no children or the caller was killed, and else it sleeps.
pub wait-Waits :
    (cur : ℕ) (is_killed : Bool) (ps : List Proc) → Waits cur is_killed ps (wait cur is_killed ps)
unfolding wait
wait-Waits cur k ps = answer-Waits cur k ps (scan cur ps).0 (scan cur ps).1 (scan-Scans cur ps)
