-- ===== src/Superpages/Table/Ends.antt =====
-- lab3, vm.c: the loop of `supermappages`, for one superpage.
use mit.Base.{
  ℕ, zero, suc, ◌^◌, ◌<◌, ◌≡◌, Bool, true, false, add64, sub64, Ends, Ensures-bind, arith,
}
use mit.Cow.Kalloc.{page_size}
use mit.Superpages.{superpage_size, kalloc}
use mit.Superpages.Table.{
  px, clear, set_kernel, no_flags, Flags, Pte, Vm, Slot, store, load, superwalk, supermap_loop,
  supermappages, walk_level, walk,
}

superwalk-Ends :
    (maxva : ℕ) (vm : Vm) (t va : ℕ) (alloc : Bool) → Ends (superwalk maxva vm t va alloc)
unfolding superwalk
superwalk-Ends maxva vm t va alloc = ground arith

supermap_loop-Ends :
    (maxva : ℕ) (vm : Vm) (t a pa : ℕ) (perm : Flags)
    → Ends (supermap_loop maxva 2 vm t a a pa perm)
unfolding supermap_loop
supermap_loop-Ends maxva vm t a pa perm =
    Ensures-bind (λ r. Unit) (λ r. Unit) (superwalk maxva vm t a true) _
      (superwalk-Ends maxva vm t a true) (λ r h. ground arith)

pub supermappages-Ends :
    (maxva : ℕ) (vm : Vm) (t va pa : ℕ) (perm : Flags)
    → va < 2 ^ 63
    → Ends (supermappages maxva vm t va superpage_size pa perm)
unfolding supermappages
supermappages-Ends maxva vm t va pa perm lt =
    let last : sub64 (add64 va superpage_size) superpage_size ≡ va = omega arith in
    rw last (ground (arith, supermap_loop-Ends maxva vm t va pa perm))

walk_level-Ends : (n : ℕ) (vm : Vm) (t va : ℕ) (alloc : Bool) → Ends (walk_level n vm t va alloc)
unfolding walk_level
walk_level-Ends zero vm t va alloc = tt
walk_level-Ends (suc n) vm t va alloc =
    let p : Slot = record { table = t; index = px (suc n) va } in
    let page = kalloc vm.kernel in
    let vm1 = clear (set_kernel vm page.1) page.0 page_size in
    let e : Pte = record { pa = page.0; flags = record no_flags { v = true } } in
    let down = walk_level-Ends n vm (load vm p).pa va in
    let new = walk_level-Ends n (store vm1 p e) page.0 va true in
    ground (arith, down true, down false, new)

pub walk-Ends : (maxva : ℕ) (vm : Vm) (t va : ℕ) (alloc : Bool) → Ends (walk maxva vm t va alloc)
unfolding walk
walk-Ends maxva vm t va alloc = ground (arith, walk_level-Ends 2 vm t va alloc)
