-- ===== src/Superpages/Space/Unmap.antt =====
-- lab3, vm.c: `uvmunmap` of what is not mapped, and the end of its loop.
use mit.Base.{
  ℕ, zero, suc, ◌+◌, ◌-◌, ◌*◌, ◌%◌, ◌^◌, ◌≤◌, ◌<◌, ◌≡◌, Bool, true, false, Option, none, some, ◌==◌,
  ltb, if◌then◌else◌, add64, Run, ok, panic, ◌>>=◌, Ends, Ensures-bind, arith, Bool-cases, inl, inr,
  not,
}
use mit.Cow.Kalloc.{page_size}
use mit.Superpages.{superpage_size}
use mit.Superpages.Table.{Vm, Pte, Slot, px, load, store, empty, walk}
use mit.Superpages.Table.Super.{walk-unmapped}
use mit.Superpages.Table.Ends.{walk-Ends}
use mit.Superpages.Space.{Machine, only_valid, size_of, free_entry, unmap_loop, uvmunmap}
use mit.Superpages.Space.Counts.{kfree-Ends, superkfree-Ends}

pub size_bounds :
    (a : ℕ) (e : Pte)
    → a < 2 ^ 63
    → (page_size ≤ size_of e) × (add64 a (size_of e) ≡ a + size_of e) × (size_of e ≤ superpage_size)
size_bounds a e lt = ground arith

module _ (m : Machine) where
  -- `uvmunmap` panics where the upper entry of its first address is not valid.
  pub uvmunmap-unmapped :
      (vm : Vm) (t va npages : ℕ) (do_free : Bool)
      → va < m.maxva
      → va % page_size ≡ 0
      → va < add64 va (npages * page_size)
      → (vm.ptes t (px 2 va)).flags.v ≡ false
      → uvmunmap m vm t va npages do_free ≡ panic
  unfolding uvmunmap unmap_loop
  uvmunmap-unmapped vm t va npages do_free range al lt none_yet =
      let aligned : (va % page_size == 0) ≡ true = ground (arith, al) in
      let more : ltb va (add64 va (npages * page_size)) ≡ true = ground arith in
      rw (aligned, more, walk-unmapped m.maxva vm t va range none_yet)

  freed : Bool → Pte → Vm → Run Vm
  freed do_free e vm = if do_free then free_entry m e vm else ok vm

  freed-Ends : (do_free : Bool) (e : Pte) (vm : Vm) → Ends (freed do_free e vm)
  unfolding freed free_entry
  freed-Ends do_free e vm =
      ground (arith, kfree-Ends m.layout e.pa vm.kernel, superkfree-Ends m.layout e.pa vm.kernel)

  -- A round of the loop, after the walk.
  abbrev after_walk : (fuel : ℕ) → (t a end : ℕ) → Bool → Option Slot → Vm → Run Vm
  after_walk fuel t a end do_free o vm = elim o [
    | none ↦ panic
    | some p ↦
        let e = load vm p in
        if not e.flags.v
        then panic
        else if only_valid e
        then panic
        else (freed do_free e vm >>= λ vm1.
            unmap_loop m fuel (store vm1 p empty) t (add64 a (size_of e)) end do_free)
  ]

  after_walk-Ends :
      (fuel : ℕ) (t a end : ℕ) (do_free : Bool) (o : Option Slot) (vm : Vm)
      → ((e : Pte) (vm1 : Vm) → Ends (unmap_loop m fuel vm1 t (add64 a (size_of e)) end do_free))
      → Ends (after_walk fuel t a end do_free o vm)
  after_walk-Ends fuel t a end do_free none vm h = tt
  after_walk-Ends fuel t a end do_free (some p) vm h =
      let e = load vm p in
      let last =
        Ensures-bind (λ vm1. Unit) (λ r. Unit) (freed do_free e vm)
          (λ vm1. unmap_loop m fuel (store vm1 p empty) t (add64 a (size_of e)) end do_free)
          (freed-Ends do_free e vm) (λ vm1 _. h e (store vm1 p empty)) in
      elim (Bool-cases e.flags.v) [
        | inr n ↦ rw n tt
        | inl v ↦ elim (Bool-cases (only_valid e)) [ inl o ↦ rw (o, v) tt | inr o ↦ rw (o, v) last ]
      ]

  -- The loop ends if it has a round for each page and one more.
  unmap_loop-Ends :
      (fuel : ℕ) (vm : Vm) (t a end : ℕ) (do_free : Bool)
      → end < 2 ^ 63
      → 0 < fuel
      → end ≤ a + (fuel - 1) * page_size
      → Ends (unmap_loop m fuel vm t a end do_free)
  unfolding unmap_loop freed
  unmap_loop-Ends zero vm t a end do_free low pos en = absurd (omega arith)
  unmap_loop-Ends (suc fuel) vm t a end do_free low pos en = elim (Bool-cases (ltb a end)) [
    | inr done ↦ rw done tt
    | inl more ↦
        let lt : a < end = ground arith in
        rw more (
          Ensures-bind (λ r. Unit) (λ r. Unit) (walk m.maxva vm t a false)
            (λ r. after_walk fuel t a end do_free r.0 r.1) (walk-Ends m.maxva vm t a false)
            (λ r _. after_walk-Ends fuel t a end do_free r.0 r.1 (λ e vm1.
              let (size, next, _) = size_bounds a e (omega arith) in
              unmap_loop-Ends fuel vm1 t (add64 a (size_of e)) end do_free low (omega arith)
                (omega (arith, size, next)))))
  ]

  -- `uvmunmap` of a range below `2 ^ 63` ends, whatever the table holds: it returns or panics.
  pub uvmunmap-Ends :
      (vm : Vm) (t va npages : ℕ) (do_free : Bool)
      → va + npages * page_size < 2 ^ 63
      → Ends (uvmunmap m vm t va npages do_free)
  unfolding uvmunmap
  uvmunmap-Ends vm t va npages do_free low =
      let end : add64 va (npages * page_size) ≡ va + npages * page_size = omega arith in
      rw end (
        ground (
          arith,
          unmap_loop-Ends (suc npages) vm t va (va + npages * page_size) do_free low (omega arith)
              (omega arith),
        ))
