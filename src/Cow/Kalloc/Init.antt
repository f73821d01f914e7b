-- ===== src/Cow/Kalloc/Init.antt =====
-- lab6, kalloc.c: `kinit`, with the loop of `freerange`.
use mit.Base.{
  ℕ, zero, suc, ◌+◌, ◌*◌, ◌/◌, ◌%◌, ◌≤◌, ◌<◌, ◌≡◌, inl, inr, refl, true, false, List, [], ◌∷◌,
  arith, update, dec32, ok, Bool-cases, ◌==◌, ==→eq, sym, ◌∙◌, leb, add64,
}
use mathlib.Core.Path.{subst}
use native.Mathlib.Decide.{dec_le}
use mit.Cow.Kalloc.{
  Layout, Kernel, page_size, page_number, null, memset, round_up, refcremove, refcget, push_free,
  bad_page, kfree, freerange_loop, freerange, clear_counts, kinit,
}
use mit.Cow.Kalloc.Inv.{has, IsLayout, IsPage, Chain, nil, cons, Inv, Chain-update}

clear_counts_below : (l : Layout) (n : ℕ) (c : ℕ → ℕ) (i : ℕ) → i < n → clear_counts l n c i ≡ 0
unfolding clear_counts
clear_counts_below l zero c i h = absurd (omega arith)
clear_counts_below l (suc n) c i h = ground (arith, clear_counts_below l n c i)

module _ (l : Layout) (ly : IsLayout l) where
  -- The pages below `p` are free, and those from `p` on were not yet counted.
  record Filled (k : Kernel) (p : ℕ) : Type 0 where
    free : List ℕ
    chain : Chain k.next k.freelist free
    free_page : (q : ℕ) → has q free ≡ true → IsPage l q
    free_below : (q : ℕ) → has q free ≡ true → q < p
    below_free : (q : ℕ) → IsPage l q → q < p → has q free ≡ true
    uncounted : (i : ℕ) → p ≤ i * page_size → k.count i ≡ 0

  -- `k` with the page `p`, whose count was 0, at the head of the free list.
  abbrev added : ℕ → Kernel → Kernel
  added p k = record {
    freelist = p;
    next = update k.next p k.freelist;
    count = update k.count (page_number p) (dec32 (k.count (page_number p)));
    bytes = memset k.bytes p 1;
  }

  kfree-added :
      (p : ℕ) (k : Kernel) → IsPage l p → k.count (page_number p) ≡ 0 → kfree l p k ≡ ok (added p k)
  unfolding kfree bad_page refcremove refcget push_free
  kfree-added p k h z = ground arith

  added-Filled : (p : ℕ) (k : Kernel) → IsPage l p → Filled k p → Filled (added p k) (p + page_size)
  added-Filled p k h f = record {
    free = p ∷ f.free;
    chain = cons (omega (arith, h.above, ly.low)) fresh next_chain;
    free_page = λ q m. elim (Bool-cases (q == p)) [
      | inl e ↦ subst (IsPage l) (sym (==→eq q p e)) h
      | inr n ↦ f.free_page q (ground arith)
    ];
    free_below = λ q m. ground (arith, f.free_below q);
    below_free = λ q m b. ground (arith, f.below_free q m, m.aligned, h.aligned);
    uncounted = λ i b. ground (arith, f.uncounted i);
  }
    where
      fresh : has p f.free ≡ false
      fresh = ground (arith, f.free_below p)

      next_chain : Chain (update k.next p k.freelist) (update k.next p k.freelist p) f.free
      next_chain =
          let e : update k.next p k.freelist p ≡ k.freelist = ground arith in
          rw e (Chain-update p k.freelist f.chain fresh)

  loop-step :
      (fuel p : ℕ) (k : Kernel)
      → IsPage l p
      → p + page_size ≤ l.phystop
      → k.count (page_number p) ≡ 0
      → freerange_loop l (suc fuel) l.phystop p k
        ≡ freerange_loop l fuel l.phystop (p + page_size) (added p k)
  unfolding freerange_loop
  loop-step fuel p k h more z =
      let e : add64 p page_size ≡ p + page_size = omega (arith, ly.high) in
      let t : leb (p + page_size) l.phystop ≡ true = ground arith in rw (e, t, kfree-added p k h z)

  loop-end :
      (fuel p : ℕ) (k : Kernel)
      → p ≤ l.phystop
      → ¬ (p + page_size ≤ l.phystop)
      → freerange_loop l (suc fuel) l.phystop p k ≡ ok k
  unfolding freerange_loop
  loop-end fuel p k small done = ground (arith, ly.high)

  -- The loop ends within the fuel, and past the end of the memory.
  loop-Filled :
      (fuel p : ℕ) (k : Kernel)
      → l.phystop < p + fuel * page_size
      → p ≤ l.phystop
      → p % page_size ≡ 0
      → l.end ≤ p
      → Filled k p
      → (k' : Kernel) × (q : ℕ) × (freerange_loop l fuel l.phystop p k ≡ ok k')
        × Filled k' q
        × (l.phystop ≤ q)
  loop-Filled zero p k en small al ab f = absurd (omega arith)
  loop-Filled (suc fuel) p k en small al ab f = elim (dec_le (p + page_size) l.phystop) [
    | yes more ↦
        let h : IsPage l p = record { aligned = al; above = ab; below = omega arith } in
        let (k', q, run, g, b) =
          loop-Filled fuel (p + page_size) (added p k) (omega arith) more (omega arith)
            (omega arith) (added-Filled p k h f) in
        let z : k.count (page_number p) ≡ 0 = f.uncounted (page_number p) (omega arith) in
        (k', q, loop-step fuel p k h more z ∙ run, g, b)
    | no done ↦ (k, p, loop-end fuel p k small done, f, omega (arith, ly.whole))
  ]

  -- From zeroed static data `kinit` ends without a panic in a state where no page is referenced and
  -- every page of the physical memory is free.
  pub kinit_lem :
      (k : Kernel)
      → k.freelist ≡ null
      → ((i : ℕ) → k.count i ≡ 0)
      → (k' : Kernel) × (kinit l k ≡ ok k') × Inv l k' (λ p. 0)
  unfolding kinit freerange
  kinit_lem k empty zeroed =
      let (k1, q, run, f, b) =
        loop-Filled (suc (l.phystop / page_size)) (round_up l.end) k (omega arith)
          (omega (arith, ly.ordered, ly.whole)) (omega arith) (omega arith)
          (record {
            free = [];
            chain = nil empty;
            free_page = λ q m. cc;
            free_below = λ q m. cc;
            below_free = λ q m b. absurd (omega (arith, m.aligned, m.above));
            uncounted = λ i b. zeroed i;
          }) in
      (
        record k1 { count = clear_counts l (round_up l.phystop / page_size) k1.count },
        rw run,
        record {
          free = f.free;
          chain = f.chain;
          free_page = f.free_page;
          free_unused = λ p m. refl;
          unused_free = λ p m z. f.below_free p m (omega (arith, m.below));
          counts = λ p m. clear_counts_below l _ k1.count (page_number p) (omega (arith, m.below));
          small = λ p m. omega arith;
        },
      )
