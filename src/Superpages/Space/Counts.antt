-- ===== src/Superpages/Space/Counts.antt =====
-- lab3, vm.c: what `sbrksuperuvmalloc` counts.
use mit.Base.{
  ℕ, zero, suc, ◌+◌, ◌*◌, ◌/◌, ◌%◌, ◌^◌, ◌≤◌, ◌<◌, ◌≡◌, refl, Bool, true, false, ◌==◌, ltb, ◌⊎◌,
  inl, inr, if◌then◌else◌, add64, inc32, Run, ok, ◌>>=◌, Ensures, Ends, Ensures-bind,
  Ensures-weaken, arith, Bool-cases, ap,
}
use mit.Cow.Kalloc.{Layout, page_size, round_up, null}
use mit.Superpages.{Kernel, superpage_size, kfree, superkfree, kalloc, superkalloc}
use mit.Superpages.Table.{Flags, Vm, clear, set_kernel}
use mit.Superpages.Table.Ends.{supermappages-Ends}
use mit.Superpages.Space.{
  Machine, SbrkHelp, takes_super, alloc_at, step_size, count_at, sbrk_loop, no_help,
  sbrksuperuvmalloc,
}

-- The functions that the lab calls end.
pub record MachineEnds (m : Machine) : Type 0 where
  pub mappages_ends :
      (vm : Vm) (t va size pa : ℕ) (perm : Flags) → Ends (m.mappages vm t va size pa perm)
  pub uvmdealloc_ends : (vm : Vm) (t old new : ℕ) → Ends (m.uvmdealloc vm t old new)

-- The memory that the pages and superpages counted make up.
abbrev pub total : SbrkHelp → ℕ
total h = (h.startpages + h.endpages) * page_size + h.superpages * superpage_size

pub kfree-Ends : (l : Layout) (pa : ℕ) (k : Kernel) → Ends (kfree l pa k)
unfolding kfree
kfree-Ends l pa k = ground arith

pub superkfree-Ends : (l : Layout) (pa : ℕ) (k : Kernel) → Ends (superkfree l pa k)
unfolding superkfree
superkfree-Ends l pa k = ground arith

-- The end of `alloc_at`, where the page is given back if it could not be mapped.
abbrev pub undo : Bool × Vm → Run Kernel → Run (Bool × Vm)
undo r free = if r.0 then ok r else (free >>= λ k. ok (false, set_kernel r.1 k))

pub undo-Ends : (r : Bool × Vm) (free : Run Kernel) → Ends free → Ends (undo r free)
undo-Ends (true, vm) free h = tt
undo-Ends (false, vm) free h = Ensures-bind (λ k. Unit) (λ r. Unit) free _ h (λ k _. tt)

module _ (m : Machine) (ends : MachineEnds m) where
  alloc_at-Ends :
      (vm : Vm) (t a newsz : ℕ) (xperm : Flags) → a < 2 ^ 63 → Ends (alloc_at m vm t a newsz xperm)
  unfolding alloc_at
  alloc_at-Ends vm t a newsz xperm lt =
      let perm : Flags = record xperm { r = true; u = true } in
      let large = superkalloc vm.kernel in
      let small = kalloc vm.kernel in
      elim (Bool-cases (takes_super a newsz)) [
        | inl y ↦ elim (Bool-cases (large.0 == null)) [
          | inl z ↦ rw (y, z) tt
          | inr z ↦
              rw (y, z)
                (Ensures-bind (λ r. Unit) (λ r. Unit) _ _
                  (supermappages-Ends m.maxva (clear (set_kernel vm large.1) large.0 superpage_size)
                    t a large.0 perm lt)
                  (λ r h.
                    undo-Ends r (superkfree m.layout large.0 r.1.kernel)
                      (superkfree-Ends m.layout large.0 r.1.kernel)))
        ]
        | inr n ↦ elim (Bool-cases (small.0 == null)) [
          | inl z ↦ rw (n, z) tt
          | inr z ↦
              rw (n, z)
                (Ensures-bind (λ r. Unit) (λ r. Unit) _ _
                  (ends.mappages_ends (clear (set_kernel vm small.1) small.0 page_size) t a
                    page_size small.0 perm)
                  (λ r h.
                    undo-Ends r (kfree m.layout small.0 r.1.kernel)
                      (kfree-Ends m.layout small.0 r.1.kernel)))
        ]
      ]

  count_at-total :
      (a newsz : ℕ) (h : SbrkHelp)
      → total h < 2 ^ 32
      → total (count_at m a newsz h) ≡ total h + step_size m a newsz
  unfolding count_at step_size
  count_at-total a newsz h few =
      let start : inc32 h.startpages ≡ h.startpages + 1 = omega arith in
      let super : inc32 h.superpages ≡ h.superpages + 1 = omega arith in
      let end : inc32 h.endpages ≡ h.endpages + 1 = omega arith in ground (arith, start, super, end)

  step_fits :
      (a newsz : ℕ)
      → newsz < 2 ^ 63
      → a % page_size ≡ 0
      → a < newsz
      → (page_size ≤ step_size m a newsz)
        × ((a + step_size m a newsz) % page_size ≡ 0)
        × (a + step_size m a newsz ≤ round_up newsz)
  unfolding step_size
  step_fits a newsz low al lt = ground arith

  -- What is known of the help at the end of the loop.
  abbrev Counted : (newsz a : ℕ) → SbrkHelp → SbrkHelp × Vm → Type 0
  Counted newsz a h r =
      (r.0.state ≡ 0)
      ⊎ ((r.0.state ≡ 1) × (r.0.sz ≡ newsz) × (total r.0 + a ≡ total h + round_up newsz))

  after_alloc :
      (fuel : ℕ) (b : Bool) (vm : Vm) (t a old newsz : ℕ) (xperm : Flags) (h : SbrkHelp)
      → a + step_size m a newsz < 2 ^ 64
      → total h < 2 ^ 32
      → Ensures
          (sbrk_loop m fuel vm t
            (add64 a (step_size m a newsz))
            old
            newsz
            xperm
            (count_at m a newsz h))
          (Counted newsz (add64 a (step_size m a newsz)) (count_at m a newsz h))
      → Ensures
          (if b
            then sbrk_loop m fuel vm t
                (add64 a (step_size m a newsz))
                old
                newsz
                xperm
                (count_at m a newsz h)
            else (m.uvmdealloc vm t a old >>= λ d.
                ok (record (count_at m a newsz h) { state = 0 }, d.1)))
          (Counted newsz a h)
  after_alloc fuel true vm t a old newsz xperm h fits few e =
      let next = add64 a (step_size m a newsz) in
      let counted = count_at-total a newsz h few in
      Ensures-weaken (Counted newsz next (count_at m a newsz h)) (Counted newsz a h) _ e (λ r c.
        elim c [
          | inl failed ↦ inl failed
          | inr (done, sz, sum) ↦ inr (done, sz, omega (arith, sum, counted))
        ])
  after_alloc fuel false vm t a old newsz xperm h fits few e =
      Ensures-bind (λ d. Unit) (Counted newsz a h) _ _ (ends.uvmdealloc_ends vm t a old)
        (λ d _. inl refl)

  sbrk_loop-Counted :
      (fuel : ℕ) (vm : Vm) (t a old newsz : ℕ) (xperm : Flags) (h : SbrkHelp)
      → newsz < 2 ^ 31
      → a % page_size ≡ 0
      → a ≤ round_up newsz
      → total h ≤ a
      → round_up newsz < a + fuel * page_size
      → Ensures (sbrk_loop m fuel vm t a old newsz xperm h) (Counted newsz a h)
  unfolding sbrk_loop
  sbrk_loop-Counted zero vm t a old newsz xperm h low al le under en = absurd (omega arith)
  sbrk_loop-Counted (suc fuel) vm t a old newsz xperm h low al le under en =
      elim (Bool-cases (ltb a newsz)) [
        | inr done ↦
            let past : newsz ≤ a = ground arith in
            let top : a ≡ round_up newsz = omega arith in
            rw done (inr (refl, omega arith, ap (λ (x : ℕ). total h + x) top))
        | inl more ↦
            let lt : a < newsz = ground arith in
            let (big, al', le') = step_fits a newsz (omega arith) al lt in
            let few : total h < 2 ^ 32 = omega arith in
            let more_total = count_at-total a newsz h few in
            rw more (
              Ensures-bind (λ r. Unit) (Counted newsz a h) _ _
                (alloc_at-Ends vm t a newsz xperm (omega arith))
                (λ r _. after_alloc fuel r.0 r.1 t a old newsz xperm h (omega (arith, le')) few (
                  sbrk_loop-Counted fuel r.1 t (add64 a (step_size m a newsz)) old newsz xperm
                    (count_at m a newsz h) low (omega (arith, al', le')) (omega (arith, le'))
                    (omega (arith, more_total, under, le')) (omega (arith, le')))))
      ]

  -- `sbrksuperuvmalloc` for a new size below `2 ^ 31`, where it fits in the int that holds it, ends, by
  -- a panic or with a value, if `mappages` and `uvmdealloc` do. It says that it failed, or it gives
  -- the new size, and the pages and superpages that it counts make up exactly the whole pages from
  -- the old size to the new.
  pub sbrksuperuvmalloc-Counted :
      (vm : Vm) (t old newsz : ℕ) (xperm : Flags)
      → newsz < 2 ^ 31
      → Ensures (sbrksuperuvmalloc m vm t old newsz xperm) (λ r.
        (r.0.state ≡ 0)
        ⊎ ((r.0.state ≡ 1)
            × (r.0.sz ≡ newsz)
            × (old ≤ newsz)
            × (total r.0 + round_up old ≡ round_up newsz)))
  unfolding sbrksuperuvmalloc
  sbrksuperuvmalloc-Counted vm t old newsz xperm low = elim (Bool-cases (ltb newsz old)) [
    | inl less ↦ rw less (inl refl)
    | inr more ↦
        let le : old ≤ newsz = ground arith in
        rw more (
          Ensures-weaken (Counted newsz (round_up old) (no_help m)) _ _
            (sbrk_loop-Counted (suc (newsz / page_size + 1)) vm t (round_up old) (round_up old)
              newsz xperm (no_help m) low (omega arith) (omega arith) (omega arith) (omega arith))
            (λ r c. elim c [
              | inl failed ↦ inl failed
              | inr (done, sz, sum) ↦ inr (done, sz, le, omega (arith, sum))
            ]))
  ]
