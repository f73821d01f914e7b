-- ===== src/Cow/Kalloc/Free.antt =====
-- lab6, kalloc.c: `kfree` and the count of references.
use mit.Base.{
  ℕ, ◌+◌, ◌-◌, ◌<◌, ◌≡◌, ◌≢◌, ◌⊎◌, inl, inr, refl, false, ◌∷◌, arith, update, dec32, ◌^◌, ok, panic,
  out_of_fuel, Bool-cases, ◌==◌, ==→eq, sym,
}
use mathlib.Core.Path.{subst}
use native.Mathlib.Decide.{dec_lt}
use mit.Cow.Kalloc.{Layout, Kernel, page_number, memset, refcadd, bad_page, kfree}
use mit.Cow.Kalloc.Inv.{
  has, IsLayout, IsPage, Chain, cons, Outside, Inv, Chain-update, page_number-injective,
  memset-Outside,
}

pub bytes-refcadd : (p : ℕ) (k : Kernel) → (refcadd p k).bytes ≡ k.bytes
unfolding refcadd
bytes-refcadd p k = refl

pub kfree-ne-out_of_fuel : (l : Layout) (p : ℕ) (k : Kernel) → kfree l p k ≢ out_of_fuel
unfolding kfree
kfree-ne-out_of_fuel l p k = ground arith

module _ (l : Layout) (ly : IsLayout l) where
  bad_page-IsPage : (p : ℕ) → bad_page l p ≡ false → IsPage l p
  unfolding bad_page
  bad_page-IsPage p h = ground arith

  IsPage-bad_page : (p : ℕ) → IsPage l p → bad_page l p ≡ false
  unfolding bad_page
  IsPage-bad_page p h = ground arith

  -- `k` with one reference of `p` less.
  abbrev dropped : ℕ → Kernel → Kernel
  dropped p k = record k {
    count = update k.count (page_number p) (dec32 (k.count (page_number p)));
  }

  -- `k` with the page `p` at the head of the free list.
  abbrev freed : ℕ → Kernel → Kernel
  freed p k = record {
    freelist = p;
    next = update k.next p k.freelist;
    count = update k.count (page_number p) (dec32 (k.count (page_number p)));
    bytes = memset k.bytes p 1;
  }

  kfree-dropped :
      (p : ℕ) (k : Kernel) (refs : ℕ → ℕ)
      → Inv l k refs
      → IsPage l p
      → 1 < refs p
      → kfree l p k ≡ ok (dropped p k)
  unfolding kfree
  kfree-dropped p k refs i h two = ground (arith, IsPage-bad_page p h, i.counts p h, i.small p h)

  kfree-freed :
      (p : ℕ) (k : Kernel) (refs : ℕ → ℕ)
      → Inv l k refs
      → IsPage l p
      → refs p ≡ 1
      → kfree l p k ≡ ok (freed p k)
  unfolding kfree
  kfree-freed p k refs i h one = ground (arith, IsPage-bad_page p h, i.counts p h, i.small p h)

  dropped-Inv :
      (p : ℕ) (k : Kernel) (refs : ℕ → ℕ)
      → Inv l k refs
      → IsPage l p
      → 1 < refs p
      → Inv l (dropped p k) (update refs p (refs p - 1))
  dropped-Inv p k refs i h two = record {
    free = i.free;
    chain = i.chain;
    free_page = i.free_page;
    free_unused = λ q m. ground (arith, i.free_unused q m);
    unused_free = λ q m z. ground (arith, i.unused_free q m);
    counts = λ q m.
        ground (arith, i.counts q m, i.counts p h, i.small p h, page_number-injective l p q h m);
    small = λ q m. ground (arith, i.small q m);
  }

  freed-Inv :
      (p : ℕ) (k : Kernel) (refs : ℕ → ℕ)
      → Inv l k refs
      → IsPage l p
      → refs p ≡ 1
      → Inv l (freed p k) (update refs p 0)
  freed-Inv p k refs i h one = record {
    free = p ∷ i.free;
    chain = cons (omega (arith, h.above, ly.low)) fresh next_chain;
    free_page = λ q m. elim (Bool-cases (q == p)) [
      | inl e ↦ subst (IsPage l) (sym (==→eq q p e)) h
      | inr n ↦ i.free_page q (ground arith)
    ];
    free_unused = λ q m. ground (arith, i.free_unused q);
    unused_free = λ q m z. ground (arith, i.unused_free q m);
    counts = λ q m.
        ground (arith, i.counts q m, i.counts p h, i.small p h, page_number-injective l p q h m);
    small = λ q m. ground (arith, i.small q m);
  }
    where
      fresh : has p i.free ≡ false
      fresh = ground (arith, i.free_unused p)

      next_chain : Chain (update k.next p k.freelist) (update k.next p k.freelist p) i.free
      next_chain =
          let e : update k.next p k.freelist p ≡ k.freelist = ground arith in
          rw e (Chain-update p k.freelist i.chain fresh)

  -- `kfree` of a referenced page succeeds, and gives back exactly one reference. The other pages
  -- keep their bytes; so does this page, unless it was its last reference.
  pub kfree_lem :
      (p : ℕ) (k : Kernel) (refs : ℕ → ℕ)
      → Inv l k refs
      → IsPage l p
      → 0 < refs p
      → (k' : Kernel) × (kfree l p k ≡ ok k')
        × Inv l k' (update refs p (refs p - 1))
        × ((a : ℕ) → Outside p a ⊎ (1 < refs p) → k'.bytes a ≡ k.bytes a)
  kfree_lem p k refs i h pos = elim (dec_lt 1 (refs p)) [
    | yes two ↦
        (dropped p k, kfree-dropped p k refs i h two, dropped-Inv p k refs i h two, λ a o. refl)
    | no few ↦
        let one : refs p ≡ 1 = omega arith in
        let less : refs p - 1 ≡ 0 = omega arith in
        (
          freed p k,
          kfree-freed p k refs i h one,
          rw less (freed-Inv p k refs i h one),
          λ a o. spared a o few,
        )
  ]
    where
      spared :
          (a : ℕ) → Outside p a ⊎ (1 < refs p) → ¬ (1 < refs p) → memset k.bytes p 1 a ≡ k.bytes a
      spared a (inl o) few = memset-Outside k.bytes p 1 a h.aligned o
      spared a (inr two) few = absurd (few two)

  -- `kfree` panics at exactly the addresses that are no page of the allocator.
  pub kfree-panic :
      (p : ℕ) (k : Kernel)
      → (IsPage l p → kfree l p k ≢ panic) × ((kfree l p k ≡ panic) ⊎ IsPage l p)
  unfolding kfree
  kfree-panic p k = (
    λ h. ground (arith, IsPage-bad_page p h),
    elim (Bool-cases (bad_page l p)) [ inl e ↦ inl (rw e) | inr e ↦ inr (bad_page-IsPage p e) ],
  )

  -- `refcadd` counts one more reference of a page that has some.
  pub refcadd_lem :
      (p : ℕ) (k : Kernel) (refs : ℕ → ℕ)
      → Inv l k refs
      → IsPage l p
      → 0 < refs p
      → refs p + 1 < 2 ^ 31
      → Inv l (refcadd p k) (update refs p (refs p + 1))
  unfolding refcadd
  refcadd_lem p k refs i h pos room = record {
    free = i.free;
    chain = i.chain;
    free_page = i.free_page;
    free_unused = λ q m. ground (arith, i.free_unused q m);
    unused_free = λ q m z. ground (arith, i.unused_free q m);
    counts = λ q m.
        ground (arith, i.counts q m, i.counts p h, i.small p h, page_number-injective l p q h m);
    small = λ q m. ground (arith, i.small q m);
  }
