-- ===== src/Superpages.antt =====
-- lab3, superpages: xv6-labs-2024/lab3: pgtbl/4. use superpages/kernel, the physical memory allocator
-- of kalloc.c, which keeps a second free list of pages of two megabytes.
pub mod Pools
pub mod Table
pub mod Space
pub mod Grow
pub mod Process
pub mod Fork
pub mod Trap
mod Tests
mod SpaceTests
use mit.Base.{
  ℕ, zero, suc, ◌+◌, ◌-◌, ◌*◌, ◌/◌, ◌%◌, ◌==◌, ltb, leb, not, ◌||◌, Bool, if◌then◌else◌, update,
  add64, sub64, Run, ok, panic, out_of_fuel, ◌>>=◌,
}
use mit.Cow.Kalloc.{Layout, page_size, round_up, null}

-- `SUPERPGSIZE`: two megabytes.
abbrev pub superpage_size : ℕ
superpage_size = 2097152

-- `kmem.freelist`, `superkmem.freelist`, the `next` field of each `struct run`, and the bytes of
-- memory.
pub record Kernel : Type 0 where
  pub freelist : ℕ
  pub super_freelist : ℕ
  pub next : ℕ → ℕ
  pub bytes : ℕ → ℕ

-- `memset(pa, c, n)`
abbrev pub memset : (ℕ → ℕ) → (pa c n : ℕ) → ℕ → ℕ
memset m pa c n a = if leb pa a then (if ltb a (pa + n) then c else m a) else m a

module _ (l : Layout) where
  pub kfree : ℕ → Kernel → Run Kernel
  kfree pa k =
      if not (pa % page_size == 0) || (ltb pa l.end || leb l.phystop pa)
      then panic
      else ok (record k {
        bytes = memset k.bytes pa 1 page_size;
        next = update k.next pa k.freelist;
        freelist = pa;
      })

  pub superkfree : ℕ → Kernel → Run Kernel
  superkfree pa k =
      if not (pa % superpage_size == 0)
      then panic
      else if ltb pa l.end
      then panic
      else if leb l.phystop pa
      then panic
      else ok (record k {
        bytes = memset k.bytes pa 1 superpage_size;
        next = update k.next pa k.super_freelist;
        super_freelist = pa;
      })

  -- `for(; p + PGSIZE <= limit; p += PGSIZE) kfree(p);`, which gives `p` too.
  page_loop : (fuel limit p : ℕ) → Kernel → Run (ℕ × Kernel)
  unfolding kfree
  page_loop zero limit p k = out_of_fuel
  page_loop (suc fuel) limit p k =
      let rest = kfree p k >>= page_loop fuel limit (add64 p page_size) in
      if leb (add64 p page_size) limit then rest else ok (p, k)

  -- `for(; p <= limit; p += SUPERPGSIZE) superkfree(p);`
  superpage_loop : (fuel limit p : ℕ) → Kernel → Run Kernel
  unfolding superkfree
  superpage_loop zero limit p k = out_of_fuel
  superpage_loop (suc fuel) limit p k =
      let rest = superkfree p k >>= superpage_loop fuel limit (add64 p superpage_size) in
      if leb p limit then rest else ok k

  pub freerange : ℕ → ℕ → Kernel → Run Kernel
  unfolding page_loop superpage_loop
  freerange pa_start pa_end k =
      let limit = sub64 pa_end (52 * superpage_size) in
      page_loop (suc (limit / page_size)) limit (round_up pa_start) k >>= λ r.
      superpage_loop (suc (pa_end / superpage_size)) (sub64 pa_end superpage_size) (round_up r.0)
        r.1

  pub kinit : Kernel → Run Kernel
  unfolding freerange
  kinit k = freerange l.end l.phystop k

-- A null result is 0.
pub kalloc : Kernel → ℕ × Kernel
kalloc k =
    let r = k.freelist in
    if r == null
    then (null, k)
    else (r, record k { freelist = k.next r; bytes = memset k.bytes r 5 page_size })

pub superkalloc : Kernel → ℕ × Kernel
superkalloc k =
    let r = k.super_freelist in
    if r == null
    then (null, k)
    else (r, record k { super_freelist = k.next r; bytes = memset k.bytes r 7 superpage_size })
