-- ===== src/Superpages/Grow/Shrink.antt =====
-- lab3, proc.c: the record of pages when a process gives up less than a page.
use mit.Base.{
  ℕ, suc, ◌+◌, ◌-◌, ◌^◌, ◌≤◌, ◌<◌, ◌≡◌, true, false, ◌==◌, dec32, is_pos32, is_neg32, if◌then◌else◌,
  sub64, ok, arith,
}
use mit.Cow.Kalloc.{page_size, round_up}
use mit.Superpages.Table.{Vm}
use mit.Superpages.Space.{Machine}
use mit.Superpages.Grow.{Proc, small, large, add32, shrink_loop, growproc}
use mit.Superpages.Grow.Bounds.{covered, covered-suc, IsRecorded}

module _ (m : Machine) where
  shrink_loop-part :
      (j n sz' : ℕ) (p : Proc) (vm vm' : Vm)
      → p.next ≡ suc (suc j)
      → j < 2 ^ 30
      → p.kinds (suc j) ≡ small
      → 2 ^ 32 - page_size < n
      → n < 2 ^ 32
      → m.uvmdealloc vm p.pagetable p.sz (sub64 p.sz page_size) ≡ ok (sz', vm')
      → shrink_loop m (suc (suc j)) n p vm ≡ ok (record p { sz = sz'; next = j }, vm')
  unfolding shrink_loop
  shrink_loop-part j n sz' p vm vm' e lt kind lo hi d =
      let top : (p.kinds (suc j) == large) ≡ false = ground arith in
      let over : is_pos32 (add32 n page_size) ≡ true = ground arith in
      let next : dec32 (suc j) ≡ j = omega arith in rw (top, d, over, next)

  -- A process that gives up less than a page, whose last page is small and not its first, loses two
  -- places of its record for the one page: if the record accounted for the size before, it does
  -- not after.
  pub growproc-loses :
      (start j n : ℕ) (p : Proc) (vm vm' : Vm)
      → p.next ≡ suc (suc j)
      → j < 2 ^ 30
      → p.kinds (suc j) ≡ small
      → 2 ^ 32 - page_size < n
      → n < 2 ^ 32
      → page_size ≤ p.sz
      → p.sz < 2 ^ 63
      → m.uvmdealloc vm p.pagetable p.sz (sub64 p.sz page_size) ≡ ok (p.sz - page_size, vm')
      → IsRecorded start p
      → (let p' : Proc = record p { sz = p.sz - page_size; next = j } in
          (growproc m n p vm ≡ ok (true, p', vm')) × ¬ IsRecorded start p')
  unfolding growproc
  growproc-loses start j n p vm vm' e lt kind lo hi big low d inv =
      let shrinks : is_pos32 n ≡ false = ground arith in
      let neg : is_neg32 n ≡ true = ground arith in
      let rounds : (if is_pos32 p.next then p.next else 0) ≡ suc (suc j) = ground arith in
      let before : covered p.kinds (suc (suc j)) + start ≡ round_up p.sz = rw (← e) inv.sum in
      (
        rw (
          shrinks,
          neg,
          rounds,
          shrink_loop-part j n (p.sz - page_size) p vm vm' e lt kind lo hi d,
        ),
        λ after.
            ground
              (arith, before, after.sum, kind, covered-suc p.kinds j, covered-suc p.kinds (suc j)),
      )
