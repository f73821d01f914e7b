-- ===== src/Cow/Copyout/Private.antt =====
-- lab6, vm.c: `copyout` to a page that a process shares with another one.
use mit.Base.{
  ℕ, suc, ◌+◌, ◌-◌, ◌/◌, ◌%◌, ◌≤◌, ◌<◌, ◌≡◌, ◌≢◌, refl, true, false, none, some, ltb, leb, ◌==◌,
  arith, ok, update, if◌then◌else◌, ◌⊎◌, inl, inr, ap, ◌∙◌,
}
use mit.Cow.Kalloc.{Layout, Kernel, page_size, round_down}
use mit.Cow.Kalloc.Inv.{IsLayout, IsPage, Inv}
use mit.Cow.Paging.{Pte, Paging, mapped, Laws}
use mit.Cow.Paging.Uses.{walk_of_valid}
use mit.Cow.Fault.{memmove, cowhandle}
use mit.Cow.Fault.Memmove.{memmove-inside, memmove-outside}
use mit.Cow.Fault.Copy.{OwnCopy, Inv-bytes, cowhandle_lem}
use mit.Cow.Copyout.{writable_entry, copyout}
use mit.Cow.Copyout.Page.{one_page}

module _ (l : Layout) (ly : IsLayout l) (g : Paging) (laws : Laws g l) where
  open g use {Table, maxva, walk}

  -- The entry of a valid user page that is copy-on-write, as `cowhandle` leaves it.
  writable_entry-cow :
      (t t' : Table) (va0 : ℕ) (k k' : Kernel) (e e' : Pte)
      → mapped g t va0 ≡ some e
      → e.flags.u ≡ true
      → e.flags.cow ≡ true
      → va0 ≢ 0
      → cowhandle l g t va0 k ≡ ok (true, t', k')
      → mapped g t' va0 ≡ some e'
      → writable_entry l g t va0 k ≡ ok (some e', t', k')
  unfolding writable_entry
  writable_entry-cow t t' va0 k k' e e' m u c nz run m' =
      let (w, v) = walk_of_valid (walk t va0) e m in
      let (w', v') = walk_of_valid (walk t' va0) e' m' in ground (arith, w, v, run, w')

  writable_entry-full :
      (t : Table) (va0 : ℕ) (k : Kernel) (e : Pte)
      → mapped g t va0 ≡ some e
      → e.flags.u ≡ true
      → e.flags.cow ≡ true
      → va0 ≢ 0
      → cowhandle l g t va0 k ≡ ok (false, t, k)
      → writable_entry l g t va0 k ≡ ok (none, t, k)
  unfolding writable_entry
  writable_entry-full t va0 k e m u c nz run =
      let (w, v) = walk_of_valid (walk t va0) e m in ground (arith, w, v, run)

  no_entry :
      (fuel : ℕ) (t : Table) (dstva src len : ℕ) (k : Kernel)
      → writable_entry l g t (round_down dstva) k ≡ ok (none, t, k)
      → 0 < len
      → round_down dstva < maxva
      → copyout l g (suc fuel) t dstva src len k ≡ ok (false, t, k)
  unfolding copyout
  no_entry fuel t dstva src len k w pos lt =
      let test : ltb 0 len ≡ true = ground arith in
      let near : leb maxva (round_down dstva) ≡ false = ground arith in rw (test, near, w) refl

  -- What a process has after bytes were written to its copy of a page, which are those of the old
  -- page outside of the destination.
  pub record Private (t : Table) (va0 off src len : ℕ) (e : Pte) (k : Kernel) (refs : ℕ → ℕ) (q : ℕ)
      (t' : Table) (k' : Kernel) : Type 0 where
    pub unused : refs q ≡ 0
    pub entry :
        (va' : ℕ)
        → mapped g t' va' ≡ (
            if va0 / page_size == va' / page_size
            then some (record { pa = q; flags = record e.flags { cow = false; w = true } })
            else mapped g t va')
    pub written : (i : ℕ) → i < len → k'.bytes (q + off + i) ≡ k.bytes (src + i)
    pub before : (i : ℕ) → i < off → k'.bytes (q + i) ≡ k.bytes (e.pa + i)
    pub after : (i : ℕ) → off + len ≤ i → i < page_size → k'.bytes (q + i) ≡ k.bytes (e.pa + i)
    pub kept : (a : ℕ) → 0 < refs (round_down a) → k'.bytes a ≡ k.bytes a
    pub inv : Inv l k' (update (update refs q 1) e.pa (refs e.pa - 1))

  -- The bytes are written to the copy that `cowhandle` made.
  own-Private :
      (t t1 : Table) (va0 off src len : ℕ) (e : Pte) (k k1 : Kernel) (refs : ℕ → ℕ) (q : ℕ)
      → OwnCopy l ly g laws t va0 e k refs q t1 k1
      → 1 < refs e.pa
      → IsPage l e.pa
      → off + len ≤ page_size
      → ((i : ℕ) → i < len → 0 < refs (round_down (src + i)))
      → Private t va0 off src len e k refs q t1
          (record k1 { bytes = memmove k1.bytes (q + off) src len })
  own-Private t t1 va0 off src len e k k1 refs q c two pg fits live =
      let aligned = c.new_page.aligned in
      record {
        unused = c.unused;
        entry = c.entry;
        written = λ i lt.
            memmove-inside k1.bytes (q + off) src len i lt ∙ c.kept (src + i) (live i lt) (inr two);
        before = λ i lt.
            memmove-outside k1.bytes (q + off) src len (q + i) (λ j lj e. absurd (omega arith))
            ∙ c.copied i (omega arith);
        after = λ i from to.
            memmove-outside k1.bytes (q + off) src len (q + i) (λ j lj e. absurd (omega arith))
            ∙ c.copied i to;
        kept = λ a held.
            memmove-outside k1.bytes (q + off) src len a (λ j lj e.
              let same : round_down a ≡ q = omega arith in
              absurd (omega (arith, c.unused, held, ap refs same)))
            ∙ c.kept a held (inr two);
        inv = Inv-bytes l ly g laws k1 _ _ c.inv;
      }

  -- `copyout` of some bytes within one page, other than the first, that is the user's and
  -- copy-on-write and has more than one reference, from pages in use, finds every page referenced,
  -- changes nothing and returns -1; or it succeeds, and the process has a page of its own there,
  -- writable, with the bytes in it and else what the shared page holds, while no byte of a
  -- referenced page is changed and the old page has one reference less.
  pub copyout-Private :
      (fuel : ℕ) (t : Table) (dstva src len : ℕ) (k : Kernel) (refs : ℕ → ℕ) (e : Pte)
      → Inv l k refs
      → mapped g t (round_down dstva) ≡ some e
      → e.flags.u ≡ true
      → e.flags.cow ≡ true
      → page_size ≤ dstva
      → IsPage l e.pa
      → 1 < refs e.pa
      → 0 < len
      → dstva % page_size + len ≤ page_size
      → round_down dstva < maxva
      → ((i : ℕ) → i < len → 0 < refs (round_down (src + i)))
      → ((copyout l g (suc (suc fuel)) t dstva src len k ≡ ok (false, t, k))
          × ((p : ℕ) → IsPage l p → refs p ≢ 0))
        ⊎ ((q : ℕ) × (t' : Table) × (k' : Kernel) × (copyout l g (suc (suc fuel)) t dstva src len k
              ≡ ok (true, t', k'))
            × Private t (round_down dstva) (dstva % page_size) src len e k refs q t' k')
  copyout-Private fuel t dstva src len k refs e i m u cow high pg two pos fits lt live =
      let va0 = round_down dstva in
      let nz : va0 ≢ 0 = λ z. absurd (omega arith) in
      elim (cowhandle_lem l ly g laws t va0 e k refs i m cow nz pg (omega arith)) [
        | inl (run, full) ↦ inl (
          no_entry (suc fuel) t dstva src len k (writable_entry-full t va0 k e m u cow nz run) pos
              lt,
          full,
        )
        | inr (q, t', k', run, c) ↦
            let own : Pte = record { pa = q; flags = record e.flags { cow = false; w = true } } in
            let there : mapped g t' va0 ≡ some own = ground (arith, c.entry va0) in
            let w = writable_entry-cow t t' va0 k k' e own m u cow nz run there in
            inr (
              q,
              t',
              record k' { bytes = memmove k'.bytes (q + dstva % page_size) src len },
              one_page l g fuel t t' dstva src len k k' own w pos fits lt laws.low
                  (omega (arith, c.new_page.below, ly.high)),
              own-Private t t' va0 (dstva % page_size) src len e k k' refs q c two pg fits live,
            )
      ]
