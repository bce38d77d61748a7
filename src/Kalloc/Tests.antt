-- ===== src/Kalloc/Tests.antt =====
-- Runs of the page allocator, and its theorems at concrete inputs.
use os.Prelude.{ℕ, ◌≡◌, refl, true, false, [], ◌∷◌, some, arith}
use os.Kalloc.{Kmem, Use, alloc, free, bad_page, kfree, kalloc, pop, step, run, freerange}
use os.Kalloc.Conserve.{AllGood, Conserves, run-Conserves}
use os.Kalloc.Range.{Adds, freerange-Adds}

-- The linker's `end`, and two pages behind it.
abbrev image_end : ℕ
image_end = 2148534000

abbrev page_a : ℕ
page_a = 2148536320

abbrev page_b : ℕ
page_b = 2148540416

abbrev two_pages : Use
two_pages = record { held = page_a ∷ []; kmem = record { use_lock = true; freelist = page_b ∷ [] } }

-- The second allocation finds no page; the first page comes back after its holder freed it.
alloc_free :
    run image_end two_pages (alloc ∷ alloc ∷ free 1 ∷ alloc ∷ [])
    ≡ some
        (record { held = page_a ∷ page_b ∷ []; kmem = record { use_lock = true; freelist = [] } })
unfolding run step kalloc pop kfree bad_page
alloc_free = refl

two_pages-AllGood : AllGood image_end two_pages
unfolding bad_page
two_pages-AllGood v h = ground arith

run-Conserves_example :
    Conserves two_pages (run image_end two_pages (alloc ∷ alloc ∷ free 1 ∷ alloc ∷ []))
run-Conserves_example =
    run-Conserves image_end (alloc ∷ alloc ∷ free 1 ∷ alloc ∷ []) two_pages two_pages-AllGood

abbrev no_pages : Kmem
no_pages = record { use_lock = false; freelist = [] }

freerange-Adds_example :
    Adds image_end 2148545000 no_pages (freerange image_end image_end 2148545000 no_pages)
freerange-Adds_example =
    freerange-Adds image_end image_end 2148545000 no_pages (omega arith) (omega arith) (omega arith)
      (omega arith)
