-- ===== src/Cow/Copyout/Page.antt =====
-- lab6, vm.c: `copyout` to a destination within one page.
use mit.Base.{
  ℕ, suc, ◌+◌, ◌%◌, ◌^◌, ◌≤◌, ◌<◌, ◌≡◌, true, false, some, ltb, leb, arith, ok, add64, sub64,
  if◌then◌else◌,
}
use mit.Cow.Kalloc.{Layout, Kernel, page_size, round_down}
use mit.Cow.Paging.{Pte, Paging}
use mit.Cow.Fault.{memmove}
use mit.Cow.Copyout.{writable_entry, copyout}

module _ (l : Layout) (g : Paging) where
  open g use {Table, maxva, walk}

  -- One round, for a destination that ends within its page.
  pub one_page :
      (fuel : ℕ) (t t1 : Table) (dstva src len : ℕ) (k k1 : Kernel) (e : Pte)
      → writable_entry l g t (round_down dstva) k ≡ ok (some e, t1, k1)
      → 0 < len
      → dstva % page_size + len ≤ page_size
      → round_down dstva < maxva
      → maxva < 2 ^ 63
      → e.pa < 2 ^ 63
      → copyout l g (suc (suc fuel)) t dstva src len k
        ≡ ok (true, t1, record k1 { bytes = memmove k1.bytes (e.pa + dstva % page_size) src len })
  unfolding copyout
  one_page fuel t t1 dstva src len k k1 e w pos fits lt low pa =
      let test : ltb 0 len ≡ true = ground arith in
      let far : leb maxva (round_down dstva) ≡ false = ground arith in
      let off : add64 e.pa (sub64 dstva (round_down dstva)) ≡ e.pa + dstva % page_size =
        omega arith in
      let n : (if ltb len (sub64 page_size (sub64 dstva (round_down dstva)))
            then len
            else sub64 page_size (sub64 dstva (round_down dstva)))
          ≡ len =
        ground arith in
      let z : sub64 len len ≡ 0 = omega arith in rw (test, far, w, off, n, z)

  -- The entry of a valid user page that is not copy-on-write is taken as it is.
  pub writable_entry-plain :
      (t : Table) (va0 : ℕ) (k : Kernel) (e : Pte)
      → walk t va0 ≡ some e
      → e.flags.v ≡ true
      → e.flags.u ≡ true
      → e.flags.cow ≡ false
      → writable_entry l g t va0 k ≡ ok (some e, t, k)
  unfolding writable_entry
  writable_entry-plain t va0 k e at v u c = ground arith

  -- `copyout` of some bytes within one page below MAXVA, whose entry is valid, of the user, not
  -- copy-on-write and without PTE_W, succeeds and writes the bytes to the page of the entry.
  pub copyout-unwritable :
      (fuel : ℕ) (t : Table) (dstva src len : ℕ) (k : Kernel) (e : Pte)
      → walk t (round_down dstva) ≡ some e
      → e.flags.v ≡ true
      → e.flags.u ≡ true
      → e.flags.cow ≡ false
      → e.flags.w ≡ false
      → 0 < len
      → dstva % page_size + len ≤ page_size
      → round_down dstva < maxva
      → maxva < 2 ^ 63
      → e.pa < 2 ^ 63
      → copyout l g (suc (suc fuel)) t dstva src len k
        ≡ ok (true, t, record k { bytes = memmove k.bytes (e.pa + dstva % page_size) src len })
  copyout-unwritable fuel t dstva src len k e at v u c _ pos fits lt low pa =
      one_page fuel t t dstva src len k k e (writable_entry-plain t (round_down dstva) k e at v u c)
        pos fits lt low pa
