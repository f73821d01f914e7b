-- ===== src/Cow/Copyout/Ends.antt =====
-- lab6, vm.c: the rounds of the loop of `copyout`.
use mit.Base.{
  ℕ, zero, suc, ◌+◌, ◌-◌, ◌/◌, ◌%◌, ◌^◌, ◌<◌, ◌≡◌, ◌≢◌, Bool, true, false, Option, none, some, ltb,
  leb, arith, Run, ok, panic, out_of_fuel, ◌>>=◌, add64, sub64, if◌then◌else◌, refl,
}
use native.Mathlib.Decide.{dec_lt}
use mit.Cow.Kalloc.{Layout, Kernel, page_size, round_down}
use mit.Cow.Paging.{Pte, Paging}
use mit.Cow.Fault.{memmove}
use mit.Cow.Fault.Copy.{cowhandle-ne-out_of_fuel}
use mit.Cow.Copyout.{writable_entry, copyout}

bind-ends :
    {A B : Type 0} (w : Run A) (f : A → Run B)
    → w ≢ out_of_fuel
    → ((a : A) → f a ≢ out_of_fuel)
    → (w >>= f) ≢ out_of_fuel
bind-ends (ok a) f w h = h a
bind-ends panic f w h = λ e. absurd (ground (arith, e))
bind-ends out_of_fuel f w h = absurd (w refl)

module _ (l : Layout) (g : Paging) where
  open g use {Table, maxva, walk}

  writable_entry-ends :
      (t : Table) (va0 : ℕ) (k : Kernel) → writable_entry l g t va0 k ≢ out_of_fuel
  unfolding writable_entry
  writable_entry-ends t va0 k = ground (arith, cowhandle-ne-out_of_fuel l g t va0 k)

  -- How many bytes a round writes.
  abbrev amount : (dstva len : ℕ) → ℕ
  amount dstva len =
      let room = sub64 page_size (sub64 dstva (round_down dstva)) in
      if ltb len room then len else room

  -- A round after its entry was found.
  abbrev after_entry :
      (fuel dstva src len : ℕ) → Option Pte × Table × Kernel → Run (Bool × Table × Kernel)
  after_entry fuel dstva src len r = elim r.0 [
    | none ↦ ok (false, r.1, r.2)
    | some pte ↦
        let n = amount dstva len in
        copyout l g fuel r.1 (add64 (round_down dstva) page_size) (add64 src n) (sub64 len n)
          (record r.2 {
            bytes = memmove r.2.bytes (add64 pte.pa (sub64 dstva (round_down dstva))) src n;
          })
  ]

  after_entry-ends :
      (fuel dstva src len : ℕ) (o : Option Pte) (t : Table) (k : Kernel)
      → ((t' : Table) (k' : Kernel)
          → copyout l g fuel t'
              (add64 (round_down dstva) page_size)
              (add64 src (amount dstva len))
              (sub64 len (amount dstva len))
              k'
            ≢ out_of_fuel)
      → after_entry fuel dstva src len (o, t, k) ≢ out_of_fuel
  after_entry-ends fuel dstva src len none t k h = λ e. absurd (ground (arith, e))
  after_entry-ends fuel dstva src len (some pte) t k h = h t _

  copyout-round :
      (fuel : ℕ) (t : Table) (dstva src len : ℕ) (k : Kernel)
      → 0 < len
      → round_down dstva < maxva
      → copyout l g (suc fuel) t dstva src len k
        ≡ (writable_entry l g t (round_down dstva) k >>= after_entry fuel dstva src len)
  unfolding copyout
  copyout-round fuel t dstva src len k pos lt =
      let more : ltb 0 len ≡ true = ground arith in
      let near : leb maxva (round_down dstva) ≡ false = ground arith in rw (more, near)

  copyout-stop :
      (fuel : ℕ) (t : Table) (dstva src len : ℕ) (k : Kernel)
      → ¬ ((0 < len) × (round_down dstva < maxva))
      → copyout l g (suc fuel) t dstva src len k ≢ out_of_fuel
  unfolding copyout
  copyout-stop fuel t dstva src len k stop = elim (dec_lt 0 len) [
    | yes pos ↦
        let more : ltb 0 len ≡ true = ground arith in
        let far : leb maxva (round_down dstva) ≡ true = ground arith in
        rw (more, far) (λ e. absurd (ground (arith, e)))
    | no none_left ↦
        let done : ltb 0 len ≡ false = ground arith in rw done (λ e. absurd (ground (arith, e)))
  ]

  amount_left :
      (fuel dstva len : ℕ)
      → 0 < len
      → dstva < 2 ^ 63 + page_size
      → len < 2 ^ 64
      → (len + dstva % page_size + (page_size - 1)) / page_size < suc fuel
      → (sub64 len (amount dstva len)
            + add64 (round_down dstva) page_size % page_size
            + (page_size - 1))
          / page_size
        < fuel
  amount_left fuel dstva len pos lt w en =
      let room : sub64 page_size (sub64 dstva (round_down dstva)) ≡ page_size - dstva % page_size =
        omega arith in
      let whole : add64 (round_down dstva) page_size % page_size ≡ 0 = omega arith in
      rw (room, whole)
        (elim (dec_lt len (page_size - dstva % page_size)) [
          | yes fits ↦
              let t : ltb len (page_size - dstva % page_size) ≡ true = ground arith in
              rw t (omega arith)
          | no more ↦
              let t : ltb len (page_size - dstva % page_size) ≡ false = ground arith in
              rw t (omega arith)
        ])

  -- Below a MAXVA of less than `2 ^ 63`, with fuel for more rounds than pages of the destination,
  -- `copyout` does not run out of it, for every page table and kernel.
  pub copyout-ends :
      (fuel : ℕ) (t : Table) (dstva src len : ℕ) (k : Kernel)
      → maxva < 2 ^ 63
      → len < 2 ^ 64
      → (len + dstva % page_size + (page_size - 1)) / page_size < fuel
      → copyout l g fuel t dstva src len k ≢ out_of_fuel
  copyout-ends zero t dstva src len k low w en = absurd (omega arith)
  copyout-ends (suc fuel) t dstva src len k low w en = elim (dec_lt 0 len) [
    | no done ↦ copyout-stop fuel t dstva src len k (λ h. done h.0)
    | yes pos ↦ elim (dec_lt (round_down dstva) maxva) [
      | no far ↦ copyout-stop fuel t dstva src len k (λ h. far h.1)
      | yes near ↦
          let left = amount_left fuel dstva len pos (omega arith) w en in
          rw (copyout-round fuel t dstva src len k pos near) (
            bind-ends (writable_entry l g t (round_down dstva) k) (after_entry fuel dstva src len)
              (writable_entry-ends t (round_down dstva) k)
              (λ r. after_entry-ends fuel dstva src len r.0 r.1 r.2 (λ t' k'.
                copyout-ends fuel t' (add64 (round_down dstva) page_size)
                  (add64 src (amount dstva len)) (sub64 len (amount dstva len)) k' low (omega arith)
                  left)))
    ]
  ]
