-- ===== src/Cow/Kalloc/Laws.antt =====
-- lab6, kalloc.c: `kalloc` and the count of references.
use mit.Base.{ℕ, ◌≡◌, ◌≢◌, ◌⊎◌, inl, inr, refl, true, false, List, ◌∷◌, arith, update, inc32, ap}
use mit.Cow.Kalloc.{Layout, Kernel, page_number, null, memset, refcadd, kalloc}
use mit.Cow.Kalloc.Inv.{
  has, memset-Outside, IsLayout, IsPage, Chain, nil, cons, Outside, Inv, page_number-injective,
}

module _ (l : Layout) (ly : IsLayout l) where
  -- A page `r` that nobody referenced, now with one reference.
  pub record Allocated (k : Kernel) (refs : ℕ → ℕ) (r : ℕ) (k' : Kernel) : Type 0 where
    pub page : IsPage l r
    pub unused : refs r ≡ 0
    pub inv : Inv l k' (update refs r 1)
    pub others : (a : ℕ) → Outside r a → k'.bytes a ≡ k.bytes a

  -- `k` after the head of its free list was taken off.
  abbrev taken : Kernel → Kernel
  taken k = record {
    freelist = k.next k.freelist;
    next = k.next;
    count = update k.count (page_number k.freelist) (inc32 (k.count (page_number k.freelist)));
    bytes = memset k.bytes k.freelist 5;
  }

  kalloc-taken : (k : Kernel) → k.freelist ≢ null → kalloc k ≡ (k.freelist, taken k)
  unfolding kalloc refcadd
  kalloc-taken k ne = ground arith

  taken-Allocated :
      (k : Kernel) (refs : ℕ → ℕ) (i : Inv l k refs) (xs : List ℕ)
      → i.free ≡ k.freelist ∷ xs
      → has k.freelist xs ≡ false
      → Chain k.next (k.next k.freelist) xs
      → Allocated k refs k.freelist (taken k)
  taken-Allocated k refs i xs e fresh c = record {
    page = page;
    unused = unused;
    inv = record {
      free = xs;
      chain = c;
      free_page = λ p h. i.free_page p (rw e (ground arith));
      free_unused = λ p h. ground (arith, i.free_unused p (rw e (ground arith)));
      unused_free = λ p h z. ground (arith, ap (has p) e, i.unused_free p h);
      counts = λ p h.
          ground
            (arith, i.counts p h, i.small p h, unused, page_number-injective l p k.freelist h page);
      small = λ p h. ground (arith, i.small p h);
    };
    others = λ a o. memset-Outside k.bytes k.freelist 5 a page.aligned o;
  }
    where
      mem : has k.freelist i.free ≡ true
      mem = rw e (ground arith)

      page : IsPage l k.freelist
      page = i.free_page k.freelist mem

      unused : refs k.freelist ≡ 0
      unused = i.free_unused k.freelist mem

  abbrev Result : Kernel → (ℕ → ℕ) → Type 0
  Result k refs =
      ((kalloc k ≡ (null, k)) × ((p : ℕ) → IsPage l p → refs p ≢ 0))
      ⊎ ((r : ℕ) × (k' : Kernel) × (kalloc k ≡ (r, k')) × (r ≢ null) × Allocated k refs r k')

  kalloc_by-Chain :
      (k : Kernel) (refs : ℕ → ℕ) (i : Inv l k refs) (f : ℕ) (xs : List ℕ)
      → i.free ≡ xs
      → k.freelist ≡ f
      → Chain k.next f xs
      → Result k refs
  unfolding kalloc
  kalloc_by-Chain k refs i f xs e head (nil z) =
      inl (ground arith, λ p h u. cc (i.unused_free p h u, ap (has p) e))
  kalloc_by-Chain k refs i f xs e head (cons {xs = ys} ne fresh c) = inr (
    k.freelist,
    taken k,
    kalloc-taken k (omega arith),
    omega arith,
    taken-Allocated k refs i ys (rw head e) (rw head fresh) (rw head c),
  )

  -- `kalloc` gives a page that nobody referenced, and counts its one reference; it gives null, and
  -- changes nothing, if every page is referenced.
  pub kalloc_lem :
      (k : Kernel) (refs : ℕ → ℕ)
      → Inv l k refs
      → ((kalloc k ≡ (null, k)) × ((p : ℕ) → IsPage l p → refs p ≢ 0))
        ⊎ ((r : ℕ) × (k' : Kernel) × (kalloc k ≡ (r, k')) × (r ≢ null) × Allocated k refs r k')
  kalloc_lem k refs i = kalloc_by-Chain k refs i k.freelist i.free refl refl i.chain
