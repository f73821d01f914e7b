-- ===== src/Cow/Fork/Step.antt =====
-- lab6, vm.c: one round of the loop of `uvmcopy`.
use mit.Base.{ℕ, suc, ◌^◌, ◌≤◌, ◌<◌, ◌≡◌, true, false, some, ltb, arith, add64, ok}
use mit.Cow.Kalloc.{Kernel, page_size, refcadd}
use mit.Cow.Paging.{Pte, Paging, page, mapped}
use mit.Cow.Paging.Uses.{walk_of_valid}
use mit.Cow.Fork.{share, copy_loop, undo}

module _ (g : Paging) where
  open g use {Table, walk, store, mappages}

  pub loop-next :
      (fuel sz j : ℕ) (old new new' : Table) (k k1 : Kernel) (e : Pte)
      → mapped g old (page j) ≡ some e
      → page j < sz
      → sz < 2 ^ 63
      → mappages new (page j) e.pa (share e).flags k ≡ ok (true, new', k1)
      → copy_loop g (suc fuel) sz (page j) old new k
        ≡ copy_loop g fuel sz (page (suc j)) (store old (page j) (share e)) new' (refcadd e.pa k1)
  unfolding copy_loop
  loop-next fuel sz j old new new' k k1 e m more small mp =
      let (w, v) = walk_of_valid (walk old (page j)) e m in
      let next : add64 (page j) page_size ≡ page (suc j) = omega arith in
      let test : ltb (page j) sz ≡ true = ground arith in rw (test, w, mp, v, next)

  pub loop-undo :
      (fuel sz j : ℕ) (old new new' : Table) (k k1 : Kernel) (e : Pte)
      → mapped g old (page j) ≡ some e
      → page j < sz
      → mappages new (page j) e.pa (share e).flags k ≡ ok (false, new', k1)
      → copy_loop g (suc fuel) sz (page j) old new k
        ≡ undo g (page j) (store old (page j) (share e)) new' k1
  unfolding copy_loop
  loop-undo fuel sz j old new new' k k1 e m more mp =
      let (w, v) = walk_of_valid (walk old (page j)) e m in
      let test : ltb (page j) sz ≡ true = ground arith in rw (test, w, mp, v)

  pub loop-end :
      (fuel sz j : ℕ) (old new : Table) (k : Kernel)
      → sz ≤ page j
      → copy_loop g (suc fuel) sz (page j) old new k
        ≡ ok (record { success = true; old = old; new = new; kernel = k })
  unfolding copy_loop
  loop-end fuel sz j old new k done = let test : ltb (page j) sz ≡ false = ground arith in rw test
