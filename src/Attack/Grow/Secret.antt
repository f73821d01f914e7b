-- ===== src/Attack/Grow/Secret.antt =====
-- lab2, attack: a page that one process gave back is given to the next one that grows.
use Prim.Native.Nat.{bit_or}
use mit.Base.{
  ℕ, suc, ◌+◌, ◌/◌, ◌%◌, ◌^◌, ◌≤◌, ◌<◌, ◌≡◌, ◌≢◌, refl, Bool, true, false, [], ◌∷◌, ◌==◌, ltb, inr,
  ok, arith, ap, sym, ◌∙◌,
}
use mathlib.Core.Path.{subst}
use mit.Cow.Kalloc.{Layout, page_size}
use mit.Cow.Kalloc.Inv.{IsPage}
use mit.Attack.{Kernel, kfree, kalloc}
use mit.Attack.Leak.{kalloc-kfree}
use mit.Attack.Grow.{
  Paging, Proc, round_up, read_user, write, grow_loop, uvmalloc, growproc, print_loop, sys_sbrk,
}

-- What xv6 promises of a page that `mappages` maps for the user: `walkaddr` finds it, and its bytes
-- are as before.
pub record Laws (m : Paging) : Type 0 where
  pub found :
      (t : m.Tables) (k : Kernel) (va pa : ℕ)
      → va % page_size ≡ 0
      → va < 2 ^ 38
      → (m.mappages t k va pa (bit_or read_user write)).0 ≡ true
      → m.walkaddr (m.mappages t k va pa (bit_or read_user write)).1 va ≡ pa
  pub kept :
      (t : m.Tables) (k : Kernel) (va pa perm i : ℕ)
      → pa ≤ i
      → i < pa + page_size
      → (m.mappages t k va pa perm).2.bytes i ≡ k.bytes i

module _ (l : Layout) (m : Paging) (laws : Laws m) where
  -- What `mappages` gives for the first page above a process.
  abbrev mapped : Proc m.Tables → Kernel → Bool × m.Tables × Kernel
  mapped p k = m.mappages p.pagetable (kalloc k).1 p.sz (kalloc k).0 (bit_or read_user write)

  -- The process has whole pages, fewer than up to the middle of the address space.
  abbrev pub IsWhole : Proc m.Tables → Type 0
  IsWhole p = (p.sz % page_size ≡ 0) × (p.sz + page_size < 2 ^ 38)

  grow_loop-page :
      (fuel : ℕ) (p : Proc m.Tables) (k : Kernel)
      → IsWhole p
      → (kalloc k).0 ≢ 0
      → (mapped p k).0 ≡ true
      → grow_loop l m (suc (suc fuel)) p.pagetable k p.sz p.sz (p.sz + page_size) write
        ≡ ok (p.sz + page_size, (mapped p k).1, (mapped p k).2)
  unfolding grow_loop
  grow_loop-page fuel p k w nz ok_mapped =
      let below : ltb p.sz (p.sz + 4096) ≡ true = ground arith in
      let some_page : ((kalloc k).0 == 0) ≡ false = ground arith in
      let next : (p.sz + 4096) % 2 ^ 64 ≡ p.sz + 4096 = omega (arith, w.1) in
      let done : ltb (p.sz + 4096) (p.sz + 4096) ≡ false = ground arith in
      rw (below, some_page, ok_mapped, next, done) refl

  whole_up : (p : Proc m.Tables) → IsWhole p → round_up p.sz ≡ p.sz
  whole_up p w = omega (arith, w.0, w.1)

  growproc-page :
      (p : Proc m.Tables) (k : Kernel)
      → IsWhole p
      → (kalloc k).0 ≢ 0
      → (mapped p k).0 ≡ true
      → growproc l m page_size p k
        ≡ ok (true, record { sz = p.sz + page_size; pagetable = (mapped p k).1 }, (mapped p k).2)
  unfolding growproc uvmalloc
  growproc-page p k w nz ok_mapped =
      let sum : (p.sz + 4096) % 2 ^ 64 ≡ p.sz + 4096 = omega (arith, w.1) in
      let not_less : ltb (p.sz + 4096) p.sz ≡ false = ground arith in
      let rounds : (p.sz + 4096) / 4096 + 2 ≡ suc (suc ((p.sz + 4096) / 4096)) = omega arith in
      let result : (p.sz + 4096 == 0) ≡ false = ground arith in
      rw
        (
          sum,
          not_less,
          whole_up p w,
          rounds,
          grow_loop-page ((p.sz + 4096) / 4096) p k w nz ok_mapped,
          result,
        )
        refl

  print_loop-page :
      (fuel : ℕ) (t : m.Tables) (va pa : ℕ)
      → va < 2 ^ 38
      → m.walkaddr t va ≡ pa
      → 0 < pa
      → print_loop l m (suc (suc fuel)) t va (va + page_size) ≡ ok ((va, pa) ∷ [])
  unfolding print_loop
  print_loop-page fuel t va pa small e pos =
      let below : ltb va (va + 4096) ≡ true = ground arith in
      let next : (va + 4096) % 2 ^ 64 ≡ va + 4096 = omega arith in
      let done : ltb (va + 4096) (va + 4096) ≡ false = ground arith in
      let seen : ltb 0 pa ≡ true = ground arith in rw (below, next, done, e, seen) refl

  sys_sbrk-page :
      (p : Proc m.Tables) (k : Kernel)
      → IsWhole p
      → (kalloc k).0 ≢ 0
      → (mapped p k).0 ≡ true
      → sys_sbrk l m page_size p k
        ≡ ok (
          p.sz,
          (p.sz, (kalloc k).0) ∷ [],
          record { sz = p.sz + page_size; pagetable = (mapped p k).1 },
          (mapped p k).2,
        )
  unfolding sys_sbrk
  sys_sbrk-page p k w nz ok_mapped =
      let rounds : (p.sz + 4096) / 4096 + 2 ≡ suc (suc ((p.sz + 4096) / 4096)) = omega arith in
      let at_page =
        laws.found p.pagetable (kalloc k).1 p.sz (kalloc k).0 w.0 (omega (arith, w.1)) ok_mapped in
      rw
        (
          growproc-page p k w nz ok_mapped,
          rounds,
          print_loop-page ((p.sz + 4096) / 4096) (mapped p k).1 p.sz (kalloc k).0
              (omega (arith, w.1)) at_page (omega arith),
        )
        refl

  -- `sbrk` for one page, where `kalloc` gives a page and `mappages` works.
  sys_sbrk-given :
      (pa : ℕ) (k1 : Kernel) (p : Proc m.Tables)
      → (kalloc k1).0 ≡ pa
      → 0 < pa
      → IsWhole p
      → ((k' : Kernel) → (m.mappages p.pagetable k' p.sz pa (bit_or read_user write)).0 ≡ true)
      → (t : m.Tables) × (k2 : Kernel) × (sys_sbrk l m page_size p k1
          ≡ ok (p.sz, (p.sz, pa) ∷ [], record { sz = p.sz + page_size; pagetable = t }, k2))
        × (m.walkaddr t p.sz ≡ pa)
        × ((i : ℕ) → i < page_size → k2.bytes (pa + i) ≡ (kalloc k1).1.bytes (pa + i))
  sys_sbrk-given pa k1 p same pos w works =
      let nz : (kalloc k1).0 ≢ 0 = λ e. absurd (omega (arith, e, same, pos)) in
      let ok_mapped : (mapped p k1).0 ≡ true =
        subst (λ q. (m.mappages p.pagetable (kalloc k1).1 p.sz q (bit_or read_user write)).0 ≡ true)
          (sym same) (works (kalloc k1).1) in
      (
        (mapped p k1).1,
        (mapped p k1).2,
        sys_sbrk-page p k1 w nz ok_mapped
            ∙ ap
                (λ q. ok (
                  p.sz,
                  (p.sz, q) ∷ [],
                  record { sz = p.sz + page_size; pagetable = (mapped p k1).1 },
                  (mapped p k1).2,
                ))
                same,
        laws.found p.pagetable (kalloc k1).1 p.sz (kalloc k1).0 w.0 (omega (arith, w.1)) ok_mapped
            ∙ same,
        λ i hi.
            laws.kept p.pagetable (kalloc k1).1 p.sz (kalloc k1).0 (bit_or read_user write) (pa + i)
              (omega (arith, same)) (omega (arith, same)),
      )

  -- A page is freed, and then a process with whole pages, below the middle of the address space,
  -- calls `sbrk` for one page, for which `mappages` works. `sbrk` returns the old size, and prints
  -- that the address there is mapped to the page that was freed; the process is a page larger; and
  -- the bytes of that page from the ninth on are those that its last owner wrote.
  pub sys_sbrk-secret :
      (pa : ℕ) (k : Kernel) (p : Proc m.Tables)
      → 0 < l.end
      → IsPage l pa
      → k.freelist < 2 ^ 64
      → k.allocated_pages < 2 ^ 32
      → IsWhole p
      → ((k' : Kernel) → (m.mappages p.pagetable k' p.sz pa (bit_or read_user write)).0 ≡ true)
      → (k1 : Kernel) × (t : m.Tables) × (k2 : Kernel) × (kfree l pa k ≡ ok k1)
        × (sys_sbrk l m page_size p k1
            ≡ ok (p.sz, (p.sz, pa) ∷ [], record { sz = p.sz + page_size; pagetable = t }, k2))
        × (m.walkaddr t p.sz ≡ pa)
        × ((i : ℕ) → 8 ≤ i → i < page_size → k2.bytes (pa + i) ≡ k.bytes (pa + i))
  sys_sbrk-secret pa k p low h f n w works =
      let (k1, freed, same, list, count, left) = kalloc-kfree l pa k low h f n in
      let (t, k2, run, there, kept) =
        sys_sbrk-given pa k1 p same (omega (arith, h.above)) w works in
      (k1, t, k2, freed, run, there, λ i lo hi. kept i hi ∙ left (pa + i) (inr (omega arith)))
