-- ===== src/Kalloc.antt =====
-- kalloc.c: the allocator of physical pages. A page is its kernel address, a uint; `kend` is the
-- linker's symbol `end`. The bytes in the pages are left out: the junk that kfree fills a page with,
-- and the link that the free list keeps in it.
pub mod Conserve
pub mod Range
mod Tests
use os.Prelude.{
  ℕ, zero, suc, ◌+◌, ◌-◌, ◌*◌, ◌/◌, ◌%◌, ◌^◌, Bool, true, false, not, ◌||◌, List, [], ◌∷◌, Option,
  none, some, ◌==◌, ltb, leb, if◌then◌else◌, get_elem?,
}

abbrev pub pgsize : ℕ
pgsize = 4096

abbrev pub kernbase : ℕ
kernbase = 2147483648

abbrev pub phystop : ℕ
phystop = 234881024

abbrev pub v2p : ℕ → ℕ
v2p a = (a + 2 ^ 32 - kernbase) % 2 ^ 32

abbrev pub pgroundup : ℕ → ℕ
pgroundup sz = (sz + pgsize - 1) % 2 ^ 32 / pgsize * pgsize

-- The struct kmem; its lock is held by each of kfree and kalloc from end to end.
pub record Kmem : Type 0 where
  pub use_lock : Bool
  pub freelist : List ℕ

-- The test that makes kfree panic.
pub bad_page : ℕ → ℕ → Bool
bad_page kend v = not (v % pgsize == 0) || ltb v kend || leb phystop (v2p v)

pub kfree : ℕ → ℕ → Kmem → Option Kmem
kfree kend v kmem =
    if bad_page kend v then none else some (record kmem { freelist = v ∷ kmem.freelist })

-- r = kmem.freelist; if(r) kmem.freelist = r->next; return r
pub pop : Kmem → List ℕ → Option ℕ × Kmem
pop kmem [] = (none, kmem)
pop kmem (r ∷ next) = (some r, record kmem { freelist = next })

-- The page, `none` for 0, and the allocator after it.
pub kalloc : Kmem → Option ℕ × Kmem
unfolding pop
kalloc kmem = pop kmem kmem.freelist

-- How the loop of freerange ends, on fuel.
pub data Freed : Type 0 where
  out_of_fuel panicked : Freed
  freed : Kmem → Freed

pub freerange_loop : ℕ → ℕ → ℕ → ℕ → Kmem → Freed
freerange_loop zero kend p vend kmem = out_of_fuel
freerange_loop (suc fuel) kend p vend kmem = elim (leb ((p + pgsize) % 2 ^ 32) vend) [
  | true ↦ elim (kfree kend p kmem) [
    | none ↦ panicked
    | some kmem' ↦ freerange_loop fuel kend ((p + pgsize) % 2 ^ 32) vend kmem'
  ]
  | false ↦ freed kmem
]

-- There are 2 ^ 20 pages in the address space.
pub freerange : ℕ → ℕ → ℕ → Kmem → Freed
freerange kend vstart vend kmem = freerange_loop (2 ^ 20 + 1) kend (pgroundup vstart) vend kmem

pub kinit1 : ℕ → ℕ → ℕ → Kmem → Freed
kinit1 kend vstart vend kmem = freerange kend vstart vend (record kmem { use_lock = false })

pub set_lock : Freed → Freed
set_lock (freed kmem) = freed (record kmem { use_lock = true })
set_lock out_of_fuel = out_of_fuel
set_lock panicked = panicked

pub kinit2 : ℕ → ℕ → ℕ → Kmem → Freed
kinit2 kend vstart vend kmem = set_lock (freerange kend vstart vend kmem)

-- How often a page is in a list.
abbrev pub count : ℕ → List ℕ → ℕ
count v [] = 0
count v (x ∷ xs) = if x == v then 1 + count v xs else count v xs

-- The allocator and the pages that its callers hold.
pub record Use : Type 0 where
  pub held : List ℕ
  pub kmem : Kmem

-- A caller asks for a page, or frees the i-th page that is held.
pub data Call : Type 0 where
  alloc : Call
  free : ℕ → Call

abbrev pub without : List ℕ → ℕ → List ℕ
without [] i = []
without (x ∷ xs) zero = xs
without (x ∷ xs) (suc i) = x ∷ without xs i

abbrev pub handed : Use → Option ℕ × Kmem → Use
handed u (none, kmem) = record u { kmem = kmem }
handed u (some v, kmem) = record { held = v ∷ u.held; kmem = kmem }

-- `none` is a panic.
pub step : ℕ → Use → Call → Option Use
step kend u alloc = some (handed u (kalloc u.kmem))
step kend u (free i) = elim (get_elem? u.held i) [
  | none ↦ some u
  | some v ↦ elim (kfree kend v u.kmem) [
    | none ↦ none
    | some kmem ↦ some (record { held = without u.held i; kmem = kmem })
  ]
]

pub run : ℕ → Use → List Call → Option Use
run kend u [] = some u
run kend u (c ∷ cs) = elim (step kend u c) [ none ↦ none | some u' ↦ run kend u' cs ]
