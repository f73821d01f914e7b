-- ===== src/Attack/Leak.antt =====
-- lab2, kalloc.c: a page that is freed and given out again.
use mit.Base.{
  ℕ, ◌+◌, ◌-◌, ◌*◌, ◌/◌, ◌%◌, ◌^◌, ◌≤◌, ◌<◌, ◌≡◌, refl, true, false, ◌==◌, arith, ltb, leb, dec32,
  ◌⊎◌, inl, inr, Bool-cases, ok, if◌then◌else◌,
}
use mit.Cow.Kalloc.{Layout, page_size, null}
use mit.Cow.Kalloc.Inv.{IsPage}
use mit.Attack.{store_pointer, load_pointer, Kernel, kfree, kalloc}

stored : (m : ℕ → ℕ) (a v i : ℕ) → i < 8 → store_pointer m a v (a + i) ≡ v / 256 ^ i % 256
stored m a v i lt =
    let lo : leb a (a + i) ≡ true = ground arith in
    let hi : ltb (a + i) (a + 8) ≡ true = ground arith in
    let e : a + i - a ≡ i = omega arith in rw (lo, hi, e)

bytes_of :
    (v : ℕ)
    → v < 2 ^ 64
    → v / 256 ^ 0 % 256
        + v / 256 ^ 1 % 256 * 256
        + v / 256 ^ 2 % 256 * 256 ^ 2
        + v / 256 ^ 3 % 256 * 256 ^ 3
        + v / 256 ^ 4 % 256 * 256 ^ 4
        + v / 256 ^ 5 % 256 * 256 ^ 5
        + v / 256 ^ 6 % 256 * 256 ^ 6
        + v / 256 ^ 7 % 256 * 256 ^ 7
      ≡ v
bytes_of v lt = omega arith

load_pointer-store_pointer :
    (m : ℕ → ℕ) (a v : ℕ) → v < 2 ^ 64 → load_pointer (store_pointer m a v) a ≡ v
load_pointer-store_pointer m a v lt =
    let first : store_pointer m a v a ≡ v / 256 ^ 0 % 256 = ground arith in
    rw
      (
        first,
        stored m a v 1 (omega arith),
        stored m a v 2 (omega arith),
        stored m a v 3 (omega arith),
        stored m a v 4 (omega arith),
        stored m a v 5 (omega arith),
        stored m a v 6 (omega arith),
        stored m a v 7 (omega arith),
      )
      (bytes_of v lt)

store_pointer-outside :
    (m : ℕ → ℕ) (a v i : ℕ) → (i < a) ⊎ (a + 8 ≤ i) → store_pointer m a v i ≡ m i
store_pointer-outside m a v i o = ground arith

module _ (l : Layout) where
  -- The state after a page was freed.
  abbrev freed : ℕ → Kernel → Kernel
  freed pa k = record k {
    bytes = store_pointer k.bytes pa k.freelist;
    freelist = pa;
    allocated_pages = if k.has_record then dec32 k.allocated_pages else k.allocated_pages;
  }

  kfree-freed : (pa : ℕ) (k : Kernel) → IsPage l pa → kfree l pa k ≡ ok (freed pa k)
  unfolding kfree
  kfree-freed pa k h =
      let good : (pa % page_size == 0) ≡ true = ground (arith, h.aligned) in
      let above : ltb pa l.end ≡ false = ground (arith, h.above) in
      let below : leb l.phystop pa ≡ false = ground (arith, h.below) in
      rw (good, above, below) (elim (Bool-cases k.has_record) [ inl e ↦ rw e | inr e ↦ rw e ])

  -- A page that is freed and then given out again is the same page, with every byte from the ninth on
  -- as its last owner left it, and no other byte of memory changed; the free list and the counter
  -- are as before both calls.
  pub kalloc-kfree :
      (pa : ℕ) (k : Kernel)
      → 0 < l.end
      → IsPage l pa
      → k.freelist < 2 ^ 64
      → k.allocated_pages < 2 ^ 32
      → (k1 : Kernel) × (kfree l pa k ≡ ok k1)
        × ((kalloc k1).0 ≡ pa)
        × ((kalloc k1).1.freelist ≡ k.freelist)
        × ((kalloc k1).1.allocated_pages ≡ k.allocated_pages)
        × ((i : ℕ) → (i < pa) ⊎ (pa + 8 ≤ i) → (kalloc k1).1.bytes i ≡ k.bytes i)
  unfolding kalloc
  kalloc-kfree pa k low h f n =
      let nz : (pa == null) ≡ false = ground (arith, h.above) in
      let back = load_pointer-store_pointer k.bytes pa k.freelist f in
      (
        freed pa k,
        kfree-freed pa k h,
        refl,
        elim (Bool-cases k.has_record) [ inl e ↦ rw (nz, e) back | inr e ↦ rw (nz, e) back ],
        elim (Bool-cases k.has_record) [ inl e ↦ rw (nz, e) (omega arith) | inr e ↦ rw (nz, e) ],
        λ i o. elim (Bool-cases k.has_record) [
          | inl e ↦ rw (nz, e) (store_pointer-outside k.bytes pa k.freelist i o)
          | inr e ↦ rw (nz, e) (store_pointer-outside k.bytes pa k.freelist i o)
        ],
      )
