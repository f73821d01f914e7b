-- ===== src/Superpages/Fork/Panic.antt =====
-- lab3, vm.c: `uvmcopy` of a first superpage, with no superpage left.
use mit.Base.{ℕ, ◌<◌, ◌≡◌, refl, true, false, some, ltb, ok, panic, arith}
use mit.Cow.Kalloc.{null}
use mit.Superpages.{Kernel, superkalloc}
use mit.Superpages.Table.{Pte, Vm, Slot, px, load, set_kernel, walk}
use mit.Superpages.Space.{Machine}
use mit.Superpages.Space.Unmap.{uvmunmap-unmapped}
use mit.Superpages.Fork.{copy_at, err, copy_loop, uvmcopy}

module _ (m : Machine) where
  copy_at-full :
      (vm : Vm) (new i : ℕ) (e : Pte) (k : Kernel)
      → e.flags.s ≡ true
      → superkalloc vm.kernel ≡ (null, k)
      → copy_at m vm new i e ≡ ok (false, set_kernel vm k)
  unfolding copy_at
  copy_at-full vm new i e k s full = rw (s, full)

  -- A process whose memory starts with a superpage forks while no superpage is left and the table of
  -- the child is empty below: `uvmcopy` panics in place of returning -1, since it unmaps the pages
  -- of the superpage that it did not map.
  pub uvmcopy-panic :
      (vm : Vm) (old new sz : ℕ) (p : Slot) (k : Kernel)
      → 0 < sz
      → 0 < m.maxva
      → walk m.maxva vm old 0 false ≡ ok (some p, vm)
      → (load vm p).flags.v ≡ true
      → (load vm p).flags.s ≡ true
      → superkalloc vm.kernel ≡ (null, k)
      → (vm.ptes new (px 2 0)).flags.v ≡ false
      → uvmcopy m vm old new sz ≡ panic
  unfolding uvmcopy copy_loop err
  uvmcopy-panic vm old new sz p k pos range w v s full none_yet =
      let more : ltb 0 sz ≡ true = ground arith in
      let undone =
        uvmunmap-unmapped m (set_kernel vm k) new 0 511 true range refl (omega arith) none_yet in
      rw (more, w, v, copy_at-full vm new 0 (load vm p) k s full, s, undone)
