-- ===== src/Cow/Fault/Copy.antt =====
-- What `cowhandle` does to the entry, to the counts and to memory.
use mit.Base.{
  ℕ, ◌+◌, ◌-◌, ◌/◌, ◌%◌, ◌<◌, ◌≡◌, ◌≢◌, true, false, some, ◌==◌, if◌then◌else◌, arith, update, ok,
  out_of_fuel, ◌∙◌, inl, inr, ◌⊎◌, ap,
}
use mathlib.Core.Path.{subst}
use mit.Cow.Kalloc.{Layout, Kernel, page_size, round_down, null, kalloc, kfree}
use mit.Cow.Kalloc.Inv.{IsLayout, IsPage, Inv, Outside}
use mit.Cow.Kalloc.Laws.{Allocated, kalloc_lem}
use mit.Cow.Kalloc.Free.{kfree-ne-out_of_fuel, kfree_lem}
use mit.Cow.Paging.{Pte, Paging, mapped, valid, Laws}
use mit.Cow.Paging.Uses.{walk_of_valid, mapped-store}
use mit.Cow.Fault.{memmove, own, take_copy, cowhandle}

pub cowhandle-ne-out_of_fuel :
    (l : Layout) (g : Paging) (t : Paging.Table g) (va : ℕ) (k : Kernel)
    → cowhandle l g t va k ≢ out_of_fuel
unfolding cowhandle take_copy
cowhandle-ne-out_of_fuel l g t va k = grind (arith, kfree-ne-out_of_fuel)

module _ (l : Layout) (ly : IsLayout l) (g : Paging) (laws : Laws g l) where
  open g use {Table, walk, store}

  -- The entry `e` for `va` was replaced by one for the new page `r`.
  pub record OwnCopy (t : Table) (va : ℕ) (e : Pte) (k : Kernel) (refs : ℕ → ℕ) (r : ℕ) (t' : Table)
      (k' : Kernel) : Type 0 where
    pub new_page : IsPage l r
    pub unused : refs r ≡ 0
    pub inv : Inv l k' (update (update refs r 1) e.pa (refs e.pa - 1))
    pub entry :
        (va' : ℕ)
        → mapped g t' va' ≡ (
            if va / page_size == va' / page_size
            then some (record { pa = r; flags = record e.flags { cow = false; w = true } })
            else mapped g t va')
    pub copied : (i : ℕ) → i < page_size → k'.bytes (r + i) ≡ k.bytes (e.pa + i)
    pub kept :
        (a : ℕ)
        → 0 < refs (round_down a)
        → Outside e.pa a ⊎ (1 < refs e.pa)
        → k'.bytes a ≡ k.bytes a

  cowhandle-take_copy :
      (t : Table) (va : ℕ) (e : Pte) (k : Kernel)
      → mapped g t va ≡ some e
      → e.flags.cow ≡ true
      → va ≢ 0
      → cowhandle l g t va k ≡ take_copy l g t va e k
  unfolding cowhandle
  cowhandle-take_copy t va e k m cow nz =
      let (w, v) = walk_of_valid (walk t va) e m in ground (arith, w, v)

  take_copy-run :
      (t : Table) (va : ℕ) (e : Pte) (k k1 k3 : Kernel) (r : ℕ)
      → kalloc k ≡ (r, k1)
      → r ≢ null
      → kfree l e.pa (record k1 { bytes = memmove k1.bytes r e.pa page_size }) ≡ ok k3
      → take_copy l g t va e k ≡ ok (true, store t va (own e r), k3)
  unfolding take_copy
  take_copy-run t va e k k1 k3 r al nz free =
      let z : (r == null) ≡ false = ground arith in rw (al, z, free)

  take_copy-full :
      (t : Table) (va : ℕ) (e : Pte) (k : Kernel)
      → kalloc k ≡ (null, k)
      → take_copy l g t va e k ≡ ok (false, t, k)
  unfolding take_copy
  take_copy-full t va e k al = rw al

  pub Inv-bytes :
      (k : Kernel) (refs : ℕ → ℕ) (m : ℕ → ℕ) → Inv l k refs → Inv l (record k { bytes = m }) refs
  Inv-bytes k refs m i = record {
    free = i.free;
    chain = i.chain;
    free_page = i.free_page;
    free_unused = i.free_unused;
    unused_free = i.unused_free;
    counts = i.counts;
    small = i.small;
  }

  -- The bytes and the counts, once `r` was allocated.
  copy_and_free :
      (t : Table) (va : ℕ) (e : Pte) (k k1 : Kernel) (refs : ℕ → ℕ) (r : ℕ)
      → Inv l k refs
      → mapped g t va ≡ some e
      → IsPage l e.pa
      → 0 < refs e.pa
      → Allocated l ly k refs r k1
      → (k3 : Kernel) × (kfree l e.pa (record k1 { bytes = memmove k1.bytes r e.pa page_size })
          ≡ ok k3)
        × OwnCopy t va e k refs r (store t va (own e r)) k3
  copy_and_free t va e k k1 refs r i m pg pos new =
      let (k3, free, inv, kept) =
        kfree_lem l ly e.pa k2 refs1 (Inv-bytes k1 refs1 m2 new.inv) pg (omega (arith, same)) in
      (
        k3,
        free,
        record {
          new_page = new.page;
          unused = new.unused;
          inv = subst (λ n. Inv l k3 (update refs1 e.pa (n - 1))) same inv;
          entry = λ va'. ground (arith, stored va', present.1);
          copied = λ i lt. kept (r + i) (inl (apart i lt)) ∙ (to_copy i lt ∙ from_old i lt);
          kept = λ a h o. kept a (still a o) ∙ (spared a h ∙ new.others a (outside a h));
        },
      )
    where
      ne : r ≢ e.pa
      ne q = omega (arith, new.unused, ap refs q)

      refs1 : ℕ → ℕ
      refs1 = update refs r 1

      m2 : ℕ → ℕ
      m2 = memmove k1.bytes r e.pa page_size

      k2 : Kernel
      k2 = record k1 { bytes = m2 }

      same : refs1 e.pa ≡ refs e.pa
      same = ground (arith, ne)

      present : (walk t va ≡ some e) × (e.flags.v ≡ true)
      present = walk_of_valid (walk t va) e m

      stored :
          (va' : ℕ)
          → mapped g (store t va (own e r)) va'
            ≡ (if va / page_size == va' / page_size then valid (some (own e r)) else mapped g t va')
      stored va' = mapped-store g l laws t va va' e (own e r) present.0

      aligned : r % page_size ≡ 0
      aligned = new.page.aligned

      apart : (i : ℕ) → i < page_size → Outside e.pa (r + i)
      apart i lt q = ne (omega (arith, aligned))

      to_copy : (i : ℕ) → i < page_size → m2 (r + i) ≡ k1.bytes (e.pa + i)
      to_copy i lt = let q : r + i - r ≡ i = omega arith in ground (arith, q)

      from_old : (i : ℕ) → i < page_size → k1.bytes (e.pa + i) ≡ k.bytes (e.pa + i)
      from_old i lt = new.others (e.pa + i) (λ q. ne (omega (arith, pg.aligned)))

      outside : (a : ℕ) → 0 < refs (round_down a) → Outside r a
      outside a h q = omega (arith, new.unused, ap refs q)

      spared : (a : ℕ) → 0 < refs (round_down a) → m2 a ≡ k1.bytes a
      spared a h = ground (arith, outside a h, aligned)

      still : (a : ℕ) → Outside e.pa a ⊎ (1 < refs e.pa) → Outside e.pa a ⊎ (1 < refs1 e.pa)
      still a (inl o) = inl o
      still a (inr two) = inr (omega (arith, same))

  -- `cowhandle` at a valid copy-on-write entry, other than for address 0, either finds every page
  -- referenced, changes nothing and returns -1; or it returns 0, and the entry then points to a page
  -- that nobody referenced, writable and no longer marked, with the old page's bytes; the old page
  -- has one reference less, and no other entry, count or referenced page is changed.
  pub cowhandle_lem :
      (t : Table) (va : ℕ) (e : Pte) (k : Kernel) (refs : ℕ → ℕ)
      → Inv l k refs
      → mapped g t va ≡ some e
      → e.flags.cow ≡ true
      → va ≢ 0
      → IsPage l e.pa
      → 0 < refs e.pa
      → ((cowhandle l g t va k ≡ ok (false, t, k)) × ((p : ℕ) → IsPage l p → refs p ≢ 0))
        ⊎ ((r : ℕ) × (t' : Table) × (k' : Kernel) × (cowhandle l g t va k ≡ ok (true, t', k'))
            × OwnCopy t va e k refs r t' k')
  cowhandle_lem t va e k refs i m cow nz pg pos =
      let start = cowhandle-take_copy t va e k m cow nz in
      elim (kalloc_lem l ly k refs i) [
        | inl (al, full) ↦ inl (start ∙ take_copy-full t va e k al, full)
        | inr (r, k1, al, rnz, new) ↦
            let (k3, free, own_it) = copy_and_free t va e k k1 refs r i m pg pos new in
            inr (
              r,
              store t va (own e r),
              k3,
              start ∙ take_copy-run t va e k k1 k3 r al rnz free,
              own_it,
            )
      ]
