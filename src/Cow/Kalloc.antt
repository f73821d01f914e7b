-- ===== src/Cow/Kalloc.antt =====
-- lab6, kalloc.c: the allocator of physical pages with a count of references for each page.
-- The free list is the chain of `next` pointers of the C code; the junk and the user's bytes of a
-- page are kept beside it, though in C `next` lies in the page's first bytes.
pub mod Inv
pub mod Laws
pub mod Free
pub mod Init
pub mod Race
use mit.Base.{
  ℕ, zero, suc, ◌+◌, ◌-◌, ◌*◌, ◌/◌, ◌%◌, ◌≤◌, ◌<◌, Bool, ◌==◌, ltb, leb, not, ◌||◌, if◌then◌else◌,
  update, inc32, dec32, is_pos32, add64, Run, ok, panic, out_of_fuel, ◌>>=◌,
}

-- `PGSIZE`: whole 4096-byte pages.
abbrev pub page_size : ℕ
page_size = 4096

-- `PGROUNDUP` and `PGROUNDDOWN`.
abbrev pub round_up : ℕ → ℕ
round_up a = (a + (page_size - 1)) / page_size * page_size

abbrev pub round_down : ℕ → ℕ
round_down a = a / page_size * page_size

-- What the linker and memlayout.h give: the first address after the kernel, and the end of the
-- physical memory.
pub record Layout : Type 0 where
  pub end : ℕ
  pub phystop : ℕ

-- `kmem.freelist`, the `next` field of each `struct run`, `memrefc.count`, and the bytes of memory.
-- A count is the bit pattern of an `int`.
pub record Kernel : Type 0 where
  pub freelist : ℕ
  pub next : ℕ → ℕ
  pub count : ℕ → ℕ
  pub bytes : ℕ → ℕ

abbrev pub null : ℕ
null = 0

-- `memset(pa, c, PGSIZE)`
abbrev pub memset : (ℕ → ℕ) → ℕ → ℕ → ℕ → ℕ
memset m pa c a = if leb pa a then (if ltb a (pa + page_size) then c else m a) else m a

-- `((uint64)pa) >> 12`
abbrev pub page_number : ℕ → ℕ
page_number pa = pa / 4096

pub refcadd : ℕ → Kernel → Kernel
refcadd pa k =
    let offset = page_number pa in
    record k { count = update k.count offset (inc32 (k.count offset)) }

pub refcremove : ℕ → Kernel → Kernel
refcremove pa k =
    let offset = page_number pa in
    record k { count = update k.count offset (dec32 (k.count offset)) }

pub refcget : ℕ → Kernel → ℕ
refcget pa k = k.count (page_number pa)

-- The last part of `kfree`: junk, and the page becomes the head of the free list.
push_free : ℕ → Kernel → Kernel
push_free pa k = record k {
  bytes = memset k.bytes pa 1;
  next = update k.next pa k.freelist;
  freelist = pa;
}

module _ (l : Layout) where
  pub bad_page : ℕ → Bool
  bad_page pa = not (pa % page_size == 0) || (ltb pa l.end || leb l.phystop pa)

  pub kfree : ℕ → Kernel → Run Kernel
  unfolding bad_page refcremove refcget push_free
  kfree pa k =
      if bad_page pa
      then panic
      else (let k1 = refcremove pa k in
          if is_pos32 (refcget pa k1) then ok k1 else ok (push_free pa k1))

  -- `for(; p + PGSIZE <= pa_end; p += PGSIZE) kfree(p);`
  freerange_loop : (fuel pa_end p : ℕ) → Kernel → Run Kernel
  freerange_loop zero pa_end p k = out_of_fuel
  freerange_loop (suc fuel) pa_end p k =
      let rest = kfree p k >>= freerange_loop fuel pa_end (add64 p page_size) in
      if leb (add64 p page_size) pa_end then rest else ok k

  pub freerange : ℕ → ℕ → Kernel → Run Kernel
  unfolding freerange_loop kfree
  freerange pa_start pa_end k =
      freerange_loop (suc (pa_end / page_size)) pa_end (round_up pa_start) k

  -- `for (i = 0; i < PGROUNDUP(PHYSTOP) / PGSIZE; i++) memrefc.count[i] = 0;`
  clear_counts : ℕ → (ℕ → ℕ) → ℕ → ℕ
  clear_counts zero count = count
  clear_counts (suc n) count = update (clear_counts n count) n 0

  pub kinit : Kernel → Run Kernel
  unfolding freerange clear_counts
  kinit k = freerange l.end l.phystop k >>= λ k1.
      ok (record k1 { count = clear_counts (round_up l.phystop / page_size) k1.count })

-- A null result is `kalloc`'s 0.
pub kalloc : Kernel → ℕ × Kernel
unfolding refcadd
kalloc k =
    let r = k.freelist in
    if r == null
    then (null, k)
    else (let k1 = refcadd r (record k { freelist = k.next r }) in
        (r, record k1 { bytes = memset k1.bytes r 5 }))
