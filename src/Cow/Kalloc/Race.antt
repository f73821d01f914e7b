-- ===== src/Cow/Kalloc/Race.antt =====
-- `kfree` on two harts at once: the count goes down in one critical section, and is read again
-- outside it, so the steps of two calls may interleave.
use mit.Base.{ℕ, ◌≡◌, ◌≢◌, Bool, true, false, List, [], ◌∷◌, arith, is_pos32, if◌then◌else◌, ok}
use mit.Cow.Kalloc.{
  Layout, Kernel, page_number, null, refcremove, refcget, push_free, bad_page, kfree, kalloc,
}

-- Where a call of `kfree` stands, past its test of the address: before `refcremove`, before
-- `refcget`, before the page is pushed, or at its end.
pub data Pc : Type 0 where
  removing : Pc
  reading : Pc
  pushing : Pc
  done : Pc

-- One step of one call; each is a critical section or a single read.
pub step : ℕ → Pc → Kernel → Pc × Kernel
unfolding refcremove refcget push_free
step pa removing k = (reading, refcremove pa k)
step pa reading k = (if is_pos32 (refcget pa k) then done else pushing, k)
step pa pushing k = (done, push_free pa k)
step pa done k = (done, k)

pub record Harts : Type 0 where
  pub first : Pc
  pub second : Pc
  pub kernel : Kernel

abbrev pub started : Kernel → Harts
started k = record { first = removing; second = removing; kernel = k }

-- Both harts free the page `pa`; an item of the schedule tells whether the first one moves.
pub run : ℕ → List Bool → Harts → Harts
run pa [] h = h
run pa (true ∷ s) h =
    let (pc, k) = step pa h.first h.kernel in run pa s (record h { first = pc; kernel = k })
run pa (false ∷ s) h =
    let (pc, k) = step pa h.second h.kernel in run pa s (record h { second = pc; kernel = k })

-- The steps of a call that is not interrupted make up `kfree` at an address that it accepts.
pub run-kfree :
    (l : Layout) (pa : ℕ) (k : Kernel)
    → bad_page l pa ≡ false
    → kfree l pa k ≡ ok (run pa (true ∷ true ∷ true ∷ []) (started k)).kernel
unfolding run step kfree
run-kfree l pa k h = ground arith

-- Where a page has exactly two references and both are given back at once, there is an order of the
-- steps in which both calls push the page: the free list then leads from the page to itself, and
-- `kalloc` gives the page to each of its next two callers.
pub double_free :
    (pa : ℕ) (k : Kernel)
    → pa ≢ null
    → k.count (page_number pa) ≡ 2
    → (let k' = (run pa (true ∷ false ∷ true ∷ false ∷ true ∷ false ∷ []) (started k)).kernel in
        (k'.freelist ≡ pa)
        × (k'.next pa ≡ pa)
        × ((kalloc k').0 ≡ pa)
        × ((kalloc (kalloc k').1).0 ≡ pa))
unfolding run step kalloc
double_free pa k ne two = (ground arith, ground arith, ground arith, ground arith)
