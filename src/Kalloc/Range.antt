-- ===== src/Kalloc/Range.antt =====
-- What kinit1 and kinit2 give to the allocator: freerange over a range of memory.
use os.Prelude.{
  ℕ, zero, suc, ◌+◌, ◌*◌, ◌%◌, ◌^◌, ◌≤◌, ◌<◌, ◌≡◌, refl, Bool, false, ◌&&◌, ◌∷◌, some, arith, ◌==◌,
  leb, if◌then◌else◌, leb_of_le, leb_of_lt, ltb_of_le, ==_of_eq,
}
use native.Mathlib.Decide.{dec_le}
use os.Kalloc.{
  Kmem, Freed, freed, pgsize, kernbase, phystop, v2p, pgroundup, count, bad_page, kfree,
  freerange_loop, freerange,
}

-- Whether a whole page at v lies in a range.
abbrev pub in_range : ℕ → ℕ → ℕ → Bool
in_range vstart vend v = v % 4096 == 0 && leb vstart v && leb (v + 4096) vend

-- Just the pages of the range were added to the free list, each once.
pub record Adds (vstart vend : ℕ) (kmem : Kmem) (r : Freed) : Type 0 where
  pub after : Kmem
  pub ends : r ≡ freed after
  pub pages :
      (v : ℕ)
      → count v after.freelist
        ≡ (if in_range vstart vend v then 1 + count v kmem.freelist else count v kmem.freelist)

good_page :
    (kend p : ℕ)
    → p % 4096 ≡ 0
    → kend ≤ p
    → kernbase ≤ p
    → p < kernbase + phystop
    → bad_page kend p ≡ false
unfolding bad_page
good_page kend p h1 h2 h3 h4 =
    let e : v2p p < phystop = omega arith in
    rw (==_of_eq (p % 4096) 0 h1, ltb_of_le p kend h2, leb_of_lt phystop (v2p p) e) refl

kfree_good :
    (kend p : ℕ) (kmem : Kmem)
    → bad_page kend p ≡ false
    → kfree kend p kmem ≡ some (record kmem { freelist = p ∷ kmem.freelist })
unfolding kfree
kfree_good kend p kmem h = rw h refl

count-page :
    (p vend v c c' : ℕ)
    → p % 4096 ≡ 0
    → p + 4096 ≤ vend
    → c' ≡ (
        if in_range (p + 4096) vend v
        then 1 + (if p == v then 1 + c else c)
        else (if p == v then 1 + c else c))
    → c' ≡ (if in_range p vend v then 1 + c else c)
count-page p vend v c c' h1 h2 e = ground arith

no_page : (p vend v c : ℕ) → vend < p + 4096 → c ≡ (if in_range p vend v then 1 + c else c)
no_page p vend v c h = ground arith

next_page : (p : ℕ) → p ≤ kernbase + phystop + pgsize → (p + pgsize) % 2 ^ 32 ≡ p + 4096
next_page p h = omega arith

loop_step :
    (fuel kend p vend : ℕ) (kmem : Kmem)
    → p % 4096 ≡ 0
    → kend ≤ p
    → kernbase ≤ p
    → p + 4096 ≤ vend
    → vend ≤ kernbase + phystop
    → Adds
        (p + 4096)
        vend
        (record kmem { freelist = p ∷ kmem.freelist })
        (freerange_loop fuel kend (p + 4096) vend (record kmem { freelist = p ∷ kmem.freelist }))
    → Adds p vend kmem (freerange_loop (suc fuel) kend p vend kmem)
unfolding freerange_loop
loop_step fuel kend p vend kmem h1 h2 h3 h4 h5 rest = record {
  after = rest.after;
  ends =
      rw
        (
          freerange_loop,
          next_page p (omega arith),
          leb_of_le (p + 4096) vend h4,
          kfree_good kend p kmem (good_page kend p h1 h2 h3 (omega arith)),
          next_page p (omega arith),
        )
        rest.ends;
  pages = λ v.
      count-page p vend v (count v kmem.freelist) (count v rest.after.freelist) h1 h4
        (rest.pages v);
}

loop_end :
    (fuel kend p vend : ℕ) (kmem : Kmem)
    → p ≤ kernbase + phystop + pgsize
    → vend < p + 4096
    → Adds p vend kmem (freerange_loop (suc fuel) kend p vend kmem)
unfolding freerange_loop
loop_end fuel kend p vend kmem h1 h2 = record {
  after = kmem;
  ends = rw (freerange_loop, next_page p h1, leb_of_lt (p + 4096) vend h2) refl;
  pages = λ v. no_page p vend v (count v kmem.freelist) h2;
}

loop-Adds :
    (fuel kend p vend : ℕ) (kmem : Kmem)
    → p % 4096 ≡ 0
    → kend ≤ p
    → kernbase ≤ p
    → p ≤ kernbase + phystop + pgsize
    → vend ≤ kernbase + phystop
    → vend < p + (fuel + 1) * 4096
    → Adds p vend kmem (freerange_loop (suc fuel) kend p vend kmem)
loop-Adds zero kend p vend kmem h1 h2 h3 h4 h5 h6 = loop_end zero kend p vend kmem h4 (omega arith)
loop-Adds (suc fuel) kend p vend kmem h1 h2 h3 h4 h5 h6 = elim (dec_le (p + 4096) vend) [
  | yes in_reach ↦ loop_step (suc fuel) kend p vend kmem h1 h2 h3 in_reach h5 (
      loop-Adds fuel kend (p + 4096) vend _ (omega arith) (omega arith) (omega arith) (omega arith)
        h5 (omega arith))
  | no past ↦ loop_end (suc fuel) kend p vend kmem h4 (omega arith)
]

round_up :
    (vstart : ℕ)
    → vstart ≤ kernbase + phystop
    → (pgroundup vstart % 4096 ≡ 0)
      × (vstart ≤ pgroundup vstart)
      × (pgroundup vstart < vstart + 4096)
round_up vstart h = (omega arith, omega arith, omega arith)

in_range_up :
    (vstart p vend v : ℕ)
    → p % 4096 ≡ 0
    → vstart ≤ p
    → p < vstart + 4096
    → in_range p vend v ≡ in_range vstart vend v
in_range_up vstart p vend v h1 h2 h3 = ground arith

-- freerange of kernel memory that lies behind the kernel's image and below PHYSTOP ends without a
-- panic, on the fuel given. It adds to the free list each whole page of the range, once, and no
-- other page.
pub freerange-Adds :
    (kend vstart vend : ℕ) (kmem : Kmem)
    → kend ≤ vstart
    → kernbase ≤ vstart
    → vstart ≤ vend
    → vend ≤ kernbase + phystop
    → Adds vstart vend kmem (freerange kend vstart vend kmem)
unfolding freerange
freerange-Adds kend vstart vend kmem h1 h2 h3 h4 =
    let (r1, r2, r3) = round_up vstart (omega arith) in
    let all =
      loop-Adds (2 ^ 20) kend (pgroundup vstart) vend kmem r1 (omega arith) (omega arith)
        (omega arith) h4 (omega arith) in
    record {
      after = all.after;
      ends = all.ends;
      pages = λ v. rw (← in_range_up vstart (pgroundup vstart) vend v r1 r2 r3) (all.pages v);
    }
