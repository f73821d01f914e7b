-- ===== src/Superpages/Fork/Ends.antt =====
-- lab3, vm.c: the rounds of `uvmcopy`.
use mit.Base.{
  ℕ, zero, suc, ◌+◌, ◌-◌, ◌*◌, ◌/◌, ◌^◌, ◌≤◌, ◌<◌, Bool, true, false, Option, none, some, ◌==◌, ltb,
  not, if◌then◌else◌, add64, Run, panic, ◌>>=◌, Ends, Ensures-bind, arith, Bool-cases, inl, inr,
}
use mit.Cow.Kalloc.{page_size, null}
use mit.Superpages.{superpage_size, kalloc, superkalloc, kfree, superkfree}
use mit.Superpages.Table.{Pte, Vm, Slot, load, walk}
use mit.Superpages.Table.Ends.{walk-Ends, supermappages-Ends}
use mit.Superpages.Space.{Machine, size_of}
use mit.Superpages.Space.Counts.{MachineEnds, undo-Ends, kfree-Ends, superkfree-Ends}
use mit.Superpages.Space.Unmap.{size_bounds, uvmunmap-Ends}
use mit.Superpages.Fork.{copy_bytes, copy_at, err, copy_loop, uvmcopy}

module _ (m : Machine) (ends : MachineEnds m) where
  copy_at-Ends : (vm : Vm) (new i : ℕ) (e : Pte) → i < 2 ^ 63 → Ends (copy_at m vm new i e)
  unfolding copy_at
  copy_at-Ends vm new i e lt =
      let large = superkalloc vm.kernel in
      let small = kalloc vm.kernel in
      elim (Bool-cases e.flags.s) [
        | inl y ↦ elim (Bool-cases (large.0 == null)) [
          | inl z ↦ rw (y, z) tt
          | inr z ↦
              rw (y, z)
                (Ensures-bind (λ r. Unit) (λ r. Unit) _ _
                  (supermappages-Ends m.maxva (copy_bytes vm large.1 large.0 e.pa superpage_size)
                    new i large.0 _ lt)
                  (λ r h.
                    undo-Ends r (superkfree m.layout large.0 r.1.kernel)
                      (superkfree-Ends m.layout large.0 r.1.kernel)))
        ]
        | inr n ↦ elim (Bool-cases (small.0 == null)) [
          | inl z ↦ rw (n, z) tt
          | inr z ↦
              rw (n, z)
                (Ensures-bind (λ r. Unit) (λ r. Unit) _ _
                  (ends.mappages_ends (copy_bytes vm small.1 small.0 e.pa page_size) new i page_size
                    small.0 _)
                  (λ r h.
                    undo-Ends r (kfree m.layout small.0 r.1.kernel)
                      (kfree-Ends m.layout small.0 r.1.kernel)))
        ]
      ]

  err-Ends : (vm : Vm) (new i : ℕ) (e : Pte) → i < 2 ^ 62 → Ends (err m vm new i (size_of e))
  unfolding err
  err-Ends vm new i e lt =
      let (_, _, most) = size_bounds i e (omega arith) in
      Ensures-bind (λ r. Unit) (λ r. Unit) _ _
        (uvmunmap-Ends m vm new 0 ((i + size_of e - 1) / page_size) true (omega (arith, most)))
        (λ r _. tt)

  -- A round, after the walk.
  abbrev after_walk : (fuel : ℕ) → (old new sz i : ℕ) → Option Slot → Vm → Run (Bool × Vm)
  after_walk fuel old new sz i o vm = elim o [
    | none ↦ panic
    | some p ↦
        let e = load vm p in
        if not e.flags.v
        then panic
        else (copy_at m vm new i e >>= λ r.
            if r.0
            then copy_loop m fuel r.1 old new sz (add64 i (size_of e))
            else err m r.1 new i (size_of e))
  ]

  abbrev after_copy : (fuel : ℕ) → (old new sz i : ℕ) → Pte → Bool → Vm → Run (Bool × Vm)
  after_copy fuel old new sz i e b vm =
      if b then copy_loop m fuel vm old new sz (add64 i (size_of e)) else err m vm new i (size_of e)

  after_copy-Ends :
      (fuel old new sz i : ℕ) (e : Pte) (b : Bool) (vm : Vm)
      → i < 2 ^ 62
      → Ends (copy_loop m fuel vm old new sz (add64 i (size_of e)))
      → Ends (after_copy fuel old new sz i e b vm)
  after_copy-Ends fuel old new sz i e true vm lt h = h
  after_copy-Ends fuel old new sz i e false vm lt h = err-Ends vm new i e lt

  after_walk-Ends :
      (fuel old new sz i : ℕ) (o : Option Slot) (vm : Vm)
      → i < 2 ^ 62
      → ((e : Pte) (vm1 : Vm) → Ends (copy_loop m fuel vm1 old new sz (add64 i (size_of e))))
      → Ends (after_walk fuel old new sz i o vm)
  after_walk-Ends fuel old new sz i none vm lt h = tt
  after_walk-Ends fuel old new sz i (some p) vm lt h =
      let e = load vm p in
      let last =
        Ensures-bind (λ r. Unit) (λ r. Unit) (copy_at m vm new i e)
          (λ r. after_copy fuel old new sz i e r.0 r.1) (copy_at-Ends vm new i e (omega arith))
          (λ r _. after_copy-Ends fuel old new sz i e r.0 r.1 lt (h e r.1)) in
      elim (Bool-cases e.flags.v) [ inl v ↦ rw v last | inr n ↦ rw n tt ]

  copy_loop-Ends :
      (fuel : ℕ) (vm : Vm) (old new sz i : ℕ)
      → sz < 2 ^ 62
      → 0 < fuel
      → sz ≤ i + (fuel - 1) * page_size
      → Ends (copy_loop m fuel vm old new sz i)
  unfolding copy_loop
  copy_loop-Ends zero vm old new sz i low pos en = absurd (omega arith)
  copy_loop-Ends (suc fuel) vm old new sz i low pos en = elim (Bool-cases (ltb i sz)) [
    | inr done ↦ rw done tt
    | inl more ↦
        let lt : i < sz = ground arith in
        rw more (
          Ensures-bind (λ r. Unit) (λ r. Unit) (walk m.maxva vm old i false)
            (λ r. after_walk fuel old new sz i r.0 r.1) (walk-Ends m.maxva vm old i false)
            (λ r _. after_walk-Ends fuel old new sz i r.0 r.1 (omega arith) (λ e vm1.
              let (size, next, _) = size_bounds i e (omega arith) in
              copy_loop-Ends fuel vm1 old new sz (add64 i (size_of e)) low (omega arith)
                (omega (arith, size, next)))))
  ]

  -- `uvmcopy` of a size below `2 ^ 62` ends, its error path included, whatever the tables hold and
  -- whichever allocation fails: it returns or panics.
  pub uvmcopy-Ends : (vm : Vm) (old new sz : ℕ) → sz < 2 ^ 62 → Ends (uvmcopy m vm old new sz)
  unfolding uvmcopy
  uvmcopy-Ends vm old new sz low =
      copy_loop-Ends (suc (sz / page_size + 1)) vm old new sz 0 low (omega arith) (omega arith)
