-- ===== src/Kalloc/Conserve.antt =====
-- Where pages are: each held by a caller or on the free list, over a schedule of calls.
use os.Prelude.{
  ℕ, zero, suc, ◌+◌, ◌<◌, ◌≡◌, refl, ap, ◌∙◌, inl, inr, false, List, [], ◌∷◌, Option, some, arith,
  get_elem?, some_inj, Option-cases,
}
use os.Kalloc.{
  Use, Call, alloc, free, count, without, bad_page, kfree, pop, handed, kalloc, step, run,
}

-- How often a page is accounted for.
abbrev pub total : ℕ → Use → ℕ
total v u = count v u.held + count v u.kmem.freelist

-- Only pages that kfree takes are accounted for.
abbrev pub AllGood : ℕ → Use → Type 0
AllGood kend u = (v : ℕ) → 0 < total v u → bad_page kend v ≡ false

-- The run goes on without a panic, and every page is accounted for as often as before.
pub record Conserves (u : Use) (r : Option Use) : Type 0 where
  pub after : Use
  pub runs : r ≡ some after
  pub same : (v : ℕ) → total v after ≡ total v u

count-without :
    (v w : ℕ) (xs : List ℕ) (i : ℕ)
    → get_elem? xs i ≡ some w
    → count v (w ∷ without xs i) ≡ count v xs
count-without v w [] i e = ground arith
count-without v w (x ∷ xs) zero e = rw (← some_inj e) refl
count-without v w (x ∷ xs) (suc i) e = let rest = count-without v w xs i e in ground arith

count_here : (v : ℕ) (xs : List ℕ) → 0 < count v (v ∷ xs)
count_here v xs = ground arith

moved :
    (v : ℕ) (u : Use) (fs : List ℕ)
    → u.kmem.freelist ≡ fs
    → total v (handed u (pop u.kmem fs)) ≡ count v u.held + count v fs
unfolding pop
moved v u [] e = ap (λ xs. count v u.held + count v xs) e
moved v u (r ∷ fs) e = ground arith

step-alloc : (kend : ℕ) (u : Use) → Conserves u (step kend u alloc)
unfolding step kalloc
step-alloc kend u = record {
  after = handed u (kalloc u.kmem);
  runs = refl;
  same = λ v. moved v u u.kmem.freelist refl;
}

step-free : (kend : ℕ) (u : Use) (i : ℕ) → AllGood kend u → Conserves u (step kend u (free i))
unfolding step kfree
step-free kend u i good = elim (Option-cases (get_elem? u.held i)) [
  | inl e ↦ rw (e, step) (record { after = u; runs = refl; same = λ v. refl })
  | inr (w, e) ↦
      let held : 0 < total w u =
        (let c = count-without w w u.held i e in
          let p = count_here w (without u.held i) in omega arith) in
      rw (e, step, kfree, good w held)
        (record {
          after = record {
            held = without u.held i;
            kmem = record u.kmem { freelist = w ∷ u.kmem.freelist };
          };
          runs = refl;
          same = λ v. let c = count-without v w u.held i e in ground arith;
        })
]

step-Conserves : (kend : ℕ) (u : Use) (c : Call) → AllGood kend u → Conserves u (step kend u c)
step-Conserves kend u alloc good = step-alloc kend u
step-Conserves kend u (free i) good = step-free kend u i good

-- Pages are neither lost nor handed out twice: from a state in which kfree takes every page that is
-- held or free, no schedule of allocations and frees panics, and at its end every page is as often
-- held or free, taken together, as it was at the start.
pub run-Conserves :
    (kend : ℕ) (cs : List Call) (u : Use) → AllGood kend u → Conserves u (run kend u cs)
unfolding run
run-Conserves kend [] u good = record { after = u; runs = refl; same = λ v. refl }
run-Conserves kend (c ∷ cs) u good =
    let one = step-Conserves kend u c good in
    let rest =
      run-Conserves kend cs one.after (λ v h. good v (let s = one.same v in omega arith)) in
    rw (one.runs, run)
      (record { after = rest.after; runs = rest.runs; same = λ v. rest.same v ∙ one.same v })
