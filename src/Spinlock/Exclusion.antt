-- ===== src/Spinlock/Exclusion.antt =====
-- Mutual exclusion.
use mathlib.Core.Path.{subst}
use os.Prelude.{
  ℕ, ◌≡◌, ◌≢◌, refl, sym, ap, ◌∙◌, ◌⊎◌, inl, inr, Bool, true, false, List, [], ◌∷◌, none, some,
  if◌then◌else◌, ==_of_eq, ==_of_ne,
}
use native.Mathlib.Decide.{ℕ_discrete}
use os.Spinlock.{
  Pc, outside, spinning, won, critical, leaving, panicked, World, holding, goes, act_at, act, run,
  initlock,
}

-- Not beyond the xchg of acquire.
abbrev pub Out : Pc → Type 0
Out p = (p ≡ outside) ⊎ (p ≡ spinning)

-- The owner of the lock has just won it, holds it, or is about to unlock it.
pub data Stage (w : World) (i : ℕ) : Type 0 where
  has_won : w.pc i ≡ won → w.holder ≡ none → Stage w i
  holds : w.pc i ≡ critical → w.holder ≡ some i → Stage w i
  leaves : w.pc i ≡ leaving → w.holder ≡ none → Stage w i

-- The lock is free and every processor is out, or one owns it and the others are out.
pub data Inv (w : World) : Type 0 where
  free : w.locked ≡ false → w.holder ≡ none → ((i : ℕ) → Out (w.pc i)) → Inv w
  owned : (i : ℕ) → w.locked ≡ true → ((j : ℕ) → i ≢ j → Out (w.pc j)) → Stage w i → Inv w

goes_self : (i : ℕ) (p : Pc) (pc : ℕ → Pc) → goes i p pc i ≡ p
goes_self i p pc = rw (==_of_eq i i refl) refl

goes_other : (i j : ℕ) (p : Pc) (pc : ℕ → Pc) → i ≢ j → goes i p pc j ≡ pc j
goes_other i j p pc h = rw (==_of_ne i j h) refl

-- One that goes from out to out disturbs nobody.
goes-Out : (i : ℕ) (p : Pc) (pc : ℕ → Pc) (j : ℕ) → Out p → Out (pc j) → Out (goes i p pc j)
goes-Out i p pc j o h = elim (ℕ_discrete i j) [
  | yes e ↦ rw (==_of_eq i j e) o
  | no n ↦ rw (==_of_ne i j n) h
]

Out-Stage : (w : World) (i : ℕ) → Out (w.pc i) → Stage w i → ⊥
Out-Stage w i (inl e) (has_won f h) = cc
Out-Stage w i (inr e) (has_won f h) = cc
Out-Stage w i (inl e) (holds f h) = cc
Out-Stage w i (inr e) (holds f h) = cc
Out-Stage w i (inl e) (leaves f h) = cc
Out-Stage w i (inr e) (leaves f h) = cc

Stage-other :
    (w : World) (i k : ℕ) (p : Pc) → i ≢ k → Stage w k → Stage (record w { pc = goes i p w.pc }) k
Stage-other w i k p n (has_won f h) = has_won (goes_other i k p w.pc n ∙ f) h
Stage-other w i k p n (holds f h) = holds (goes_other i k p w.pc n ∙ f) h
Stage-other w i k p n (leaves f h) = leaves (goes_other i k p w.pc n ∙ f) h

-- Nobody who is out is taken for the holder.
not_holding : (w : World) (i : ℕ) → Inv w → Out (w.pc i) → holding i w ≡ false
unfolding holding
not_holding w i (free l h o) q = rw l refl
not_holding w i (owned k l o (has_won f h)) q = rw (l, h) refl
not_holding w i (owned k l o (holds f h)) q =
    rw (l, h) (==_of_ne k i (λ e. Out-Stage w i q (holds (ap w.pc (sym e) ∙ f) (h ∙ ap some e))))
not_holding w i (owned k l o (leaves f h)) q = rw (l, h) refl

-- One that is not out is the owner.
owner :
    (w : World) (i : ℕ)
    → Inv w
    → (Out (w.pc i) → ⊥)
    → (w.locked ≡ true) × Stage w i × ((j : ℕ) → i ≢ j → Out (w.pc j))
owner w i (free l h o) q = absurd (q (o i))
owner w i (owned k l o s) q = elim (ℕ_discrete k i) [
  | yes e ↦ (l, subst (Stage w) e s, λ j n. o j (λ f. n (sym e ∙ f)))
  | no n ↦ absurd (q (o i n))
]

-- A processor that stays out changes nothing for the others.
Out-Inv :
    (w : World) (i : ℕ) (p : Pc)
    → Inv w
    → Out (w.pc i)
    → Out p
    → Inv (record w { pc = goes i p w.pc })
Out-Inv w i p (free l h o) q r = free l h (λ j. goes-Out i p w.pc j r (o j))
Out-Inv w i p (owned k l o s) q r =
    owned k l (λ j n. goes-Out i p w.pc j r (o j n))
      (Stage-other w i k p (λ e. Out-Stage w i q (subst (Stage w) (sym e) s)) s)

take_lock :
    (w : World) (i : ℕ)
    → Inv w
    → w.locked ≡ false
    → Inv (record w { locked = true; pc = goes i won w.pc })
take_lock w i (free l h o) e =
    owned i refl (λ j n. rw (==_of_ne i j n) (o j)) (has_won (goes_self i won w.pc) h)
take_lock w i (owned k l o s) e = cc

outside-Inv : (w : World) (i : ℕ) → w.pc i ≡ outside → Inv w → Inv (act_at outside i w)
unfolding act_at
outside-Inv w i e v = rw (not_holding w i v (inl e)) (Out-Inv w i spinning v (inl e) (inr refl))

spinning-Inv :
    (b : Bool) (w : World) (i : ℕ)
    → w.locked ≡ b
    → Inv w
    → Inv (if b then w else record w { locked = true; pc = goes i won w.pc })
spinning-Inv true w i e v = v
spinning-Inv false w i e v = take_lock w i v e

won-Inv : (w : World) (i : ℕ) → w.pc i ≡ won → Inv w → Inv (act_at won i w)
unfolding act_at
won-Inv w i e v =
    let (l, s, o) = owner w i v (λ q. elim q [ inl f ↦ cc | inr f ↦ cc ]) in
    owned i l (λ j n. rw (==_of_ne i j n) (o j n)) (holds (goes_self i critical w.pc) refl)

critical_holder : (w : World) (i : ℕ) → w.pc i ≡ critical → Stage w i → w.holder ≡ some i
critical_holder w i e (has_won f h) = cc
critical_holder w i e (holds f h) = h
critical_holder w i e (leaves f h) = cc

is_holding : (w : World) (i : ℕ) → w.locked ≡ true → w.holder ≡ some i → holding i w ≡ true
unfolding holding
is_holding w i l h = rw (l, h) (==_of_eq i i refl)

critical-Inv : (w : World) (i : ℕ) → w.pc i ≡ critical → Inv w → Inv (act_at critical i w)
unfolding act_at
critical-Inv w i e v =
    let (l, s, o) = owner w i v (λ q. elim q [ inl f ↦ cc | inr f ↦ cc ]) in
    rw (is_holding w i l (critical_holder w i e s))
      (owned i l (λ j n. rw (==_of_ne i j n) (o j n)) (leaves (goes_self i leaving w.pc) refl))

leaving_holder : (w : World) (i : ℕ) → w.pc i ≡ leaving → Stage w i → w.holder ≡ none
leaving_holder w i e (has_won f h) = cc
leaving_holder w i e (holds f h) = cc
leaving_holder w i e (leaves f h) = h

leaving-Inv : (w : World) (i : ℕ) → w.pc i ≡ leaving → Inv w → Inv (act_at leaving i w)
unfolding act_at
leaving-Inv w i e v =
    let (l, s, o) = owner w i v (λ q. elim q [ inl f ↦ cc | inr f ↦ cc ]) in
    free refl (leaving_holder w i e s) (λ j. elim (ℕ_discrete i j) [
      | yes q ↦ rw (==_of_eq i j q) (inl refl)
      | no n ↦ rw (==_of_ne i j n) (o j n)
    ])

act_at-Inv : (p : Pc) (w : World) (i : ℕ) → w.pc i ≡ p → Inv w → Inv (act_at p i w)
unfolding act_at
act_at-Inv outside w i e v = outside-Inv w i e v
act_at-Inv spinning w i e v = spinning-Inv w.locked w i refl v
act_at-Inv won w i e v = won-Inv w i e v
act_at-Inv critical w i e v = critical-Inv w i e v
act_at-Inv leaving w i e v = leaving-Inv w i e v
act_at-Inv panicked w i e v = v

pub run-Inv : (is : List ℕ) (w : World) → Inv w → Inv (run w is)
unfolding run act
run-Inv [] w v = v
run-Inv (i ∷ is) w v = run-Inv is (act_at (w.pc i) i w) (act_at-Inv (w.pc i) w i refl v)

pub initlock-Inv : Inv initlock
unfolding initlock
initlock-Inv = free refl refl (λ i. inl refl)

alone : (w : World) (i j : ℕ) → Inv w → w.pc i ≡ critical → w.pc j ≡ critical → i ≡ j
alone w i j v e f =
    let (l, s, o) = owner w i v (λ q. elim q [ inl g ↦ cc | inr g ↦ cc ]) in
    elim (ℕ_discrete i j) [ yes q ↦ q | no n ↦ elim (o j n) [ inl g ↦ cc | inr g ↦ cc ] ]

no_panic : (w : World) (i : ℕ) → Inv w → w.pc i ≢ panicked
no_panic w i v e =
    let (l, s, o) = owner w i v (λ q. elim q [ inl g ↦ cc | inr g ↦ cc ]) in
    elim s [ has_won f h ↦ cc | holds f h ↦ cc | leaves f h ↦ cc ]

-- Mutual exclusion: however the accesses of the processors to the lock are interleaved, no two of
-- them are between acquire and release at once, and none of them panics in acquire or release.
pub mutual_exclusion :
    (is : List ℕ) (i j : ℕ)
    → ((run initlock is).pc i ≡ critical → (run initlock is).pc j ≡ critical → i ≡ j)
      × ((run initlock is).pc i ≢ panicked)
mutual_exclusion is i j =
    let v = run-Inv is initlock initlock-Inv in
    (alone (run initlock is) i j v, no_panic (run initlock is) i v)
