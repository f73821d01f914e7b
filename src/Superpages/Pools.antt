-- ===== src/Superpages/Pools.antt =====
-- lab3, kalloc.c: how `kinit` shares the memory out.
use mit.Base.{
  ℕ, zero, suc, ◌+◌, ◌-◌, ◌*◌, ◌/◌, ◌%◌, ◌^◌, ◌≤◌, ◌<◌, ◌≡◌, ◌≢◌, inl, inr, true, false, List, [],
  ◌∷◌, arith, update, ok, Bool-cases, ◌==◌, ==→eq, ◌∙◌, ap, leb, add64, sub64,
}
use mathlib.Core.Path.{subst}
use native.Mathlib.Decide.{dec_le}
use mit.Cow.Kalloc.{Layout, page_size, round_up, null}
use mit.Cow.Kalloc.Inv.{has, Chain, nil, cons, Chain-update}
use mit.Superpages.{
  Kernel, superpage_size, memset, kfree, superkfree, page_loop, superpage_loop, freerange, kinit,
}

-- The superpages are the last 52.
abbrev pub super_start : Layout → ℕ
super_start l = l.phystop - 52 * superpage_size

-- The memory ends at a multiple of the superpage size, and the kernel leaves room for the 52.
pub record IsLayout (l : Layout) : Type 0 where
  pub low : 0 < l.end
  pub whole : l.phystop % superpage_size ≡ 0
  pub high : l.phystop < 2 ^ 63
  pub room : l.end + 52 * superpage_size ≤ l.phystop

-- The first free list is the pages from the kernel's end to `p`, the second the superpages from
-- `super_start` to `q`.
pub record Pools (l : Layout) (k : Kernel) (p q : ℕ) : Type 0 where
  pub pages : List ℕ
  pub superpages : List ℕ
  pub chain : Chain k.next k.freelist pages
  pub super_chain : Chain k.next k.super_freelist superpages
  pub page_in : (a : ℕ) → has a pages ≡ true → (a % page_size ≡ 0) × (l.end ≤ a) × (a < p)
  pub in_page : (a : ℕ) → a % page_size ≡ 0 → l.end ≤ a → a < p → has a pages ≡ true
  pub superpage_in :
      (a : ℕ) → has a superpages ≡ true → (a % superpage_size ≡ 0) × (super_start l ≤ a) × (a < q)
  pub in_superpage :
      (a : ℕ) → a % superpage_size ≡ 0 → super_start l ≤ a → a < q → has a superpages ≡ true

module _ (l : Layout) (ly : IsLayout l) where
  abbrev base : ℕ
  base = super_start l

  abbrev added : ℕ → Kernel → Kernel
  added p k = record k {
    bytes = memset k.bytes p 1 page_size;
    next = update k.next p k.freelist;
    freelist = p;
  }

  abbrev super_added : ℕ → Kernel → Kernel
  super_added q k = record k {
    bytes = memset k.bytes q 1 superpage_size;
    next = update k.next q k.super_freelist;
    super_freelist = q;
  }

  -- A new head of a list, of an address that no list has.
  Chain-push :
      {next : ℕ → ℕ} {h : ℕ} {xs : List ℕ} (p : ℕ)
      → p ≢ null
      → has p xs ≡ false
      → Chain next h xs
      → Chain (update next p h) p (p ∷ xs)
  Chain-push {next} {h} p nz fresh c =
      let e : update next p h p ≡ h = ground arith in
      cons nz fresh (rw e (Chain-update p h c fresh))

  added-Pools :
      (p : ℕ) (k : Kernel)
      → p % page_size ≡ 0
      → l.end ≤ p
      → p + page_size ≤ base
      → Pools l k p base
      → Pools l (added p k) (p + page_size) base
  added-Pools p k al ab lt s = record {
    pages = p ∷ s.pages;
    superpages = s.superpages;
    chain = Chain-push p (omega (arith, ly.low)) (ground (arith, s.page_in p)) s.chain;
    super_chain = Chain-update p k.freelist s.super_chain (ground (arith, s.superpage_in p));
    page_in = λ a m. elim (Bool-cases (a == p)) [
      | inl e ↦ let same : a ≡ p = ==→eq a p e in (omega arith, omega arith, omega arith)
      | inr n ↦ ground (arith, s.page_in a)
    ];
    in_page = λ a al' ab' lt'. ground (arith, s.in_page a);
    superpage_in = s.superpage_in;
    in_superpage = s.in_superpage;
  }

  super_added-Pools :
      (q : ℕ) (k : Kernel)
      → q % superpage_size ≡ 0
      → base ≤ q
      → Pools l k base q
      → Pools l (super_added q k) base (q + superpage_size)
  super_added-Pools q k al ab s = record {
    pages = s.pages;
    superpages = q ∷ s.superpages;
    chain = Chain-update q k.super_freelist s.chain (ground (arith, s.page_in q));
    super_chain =
        Chain-push q (omega (arith, ly.low, ly.room)) (ground (arith, s.superpage_in q))
          s.super_chain;
    page_in = s.page_in;
    in_page = s.in_page;
    superpage_in = λ a m. elim (Bool-cases (a == q)) [
      | inl e ↦ let same : a ≡ q = ==→eq a q e in (omega arith, omega arith, omega arith)
      | inr n ↦ ground (arith, s.superpage_in a)
    ];
    in_superpage = λ a al' ab' lt'. ground (arith, s.in_superpage a);
  }

  kfree-added :
      (p : ℕ) (k : Kernel)
      → p % page_size ≡ 0
      → l.end ≤ p
      → p < l.phystop
      → kfree l p k ≡ ok (added p k)
  unfolding kfree
  kfree-added p k al ab lt = ground arith

  superkfree-super_added :
      (q : ℕ) (k : Kernel)
      → q % superpage_size ≡ 0
      → l.end ≤ q
      → q < l.phystop
      → superkfree l q k ≡ ok (super_added q k)
  unfolding superkfree
  superkfree-super_added q k al ab lt = ground arith

  page_loop-step :
      (fuel p : ℕ) (k : Kernel)
      → p % page_size ≡ 0
      → l.end ≤ p
      → p + page_size ≤ base
      → page_loop l (suc fuel) base p k ≡ page_loop l fuel base (p + page_size) (added p k)
  unfolding page_loop
  page_loop-step fuel p k al ab lt =
      let e : add64 p page_size ≡ p + page_size = omega (arith, ly.high) in
      let t : leb (p + page_size) base ≡ true = ground arith in
      rw (e, t, kfree-added p k al ab (omega arith))

  page_loop-end :
      (fuel p : ℕ) (k : Kernel)
      → p ≤ base
      → ¬ (p + page_size ≤ base)
      → page_loop l (suc fuel) base p k ≡ ok (p, k)
  unfolding page_loop
  page_loop-end fuel p k small done = ground (arith, ly.high)

  -- The first loop ends within the fuel, exactly where the superpages start.
  page_loop-Pools :
      (fuel p : ℕ) (k : Kernel)
      → base < p + fuel * page_size
      → p ≤ base
      → p % page_size ≡ 0
      → l.end ≤ p
      → Pools l k p base
      → (k' : Kernel) × (page_loop l fuel base p k ≡ ok (base, k')) × Pools l k' base base
  page_loop-Pools zero p k en small al ab s = absurd (omega arith)
  page_loop-Pools (suc fuel) p k en small al ab s = elim (dec_le (p + page_size) base) [
    | yes more ↦
        let (k', run, s') =
          page_loop-Pools fuel (p + page_size) (added p k) (omega arith) more (omega arith)
            (omega arith) (added-Pools p k al ab more s) in
        (k', page_loop-step fuel p k al ab more ∙ run, s')
    | no done ↦
        let e : p ≡ base = omega (arith, ly.whole, ly.room) in
        (
          k,
          page_loop-end fuel p k small done ∙ ap (λ x. ok (x, k)) e,
          subst (λ x. Pools l k x base) e s,
        )
  ]

  superpage_loop-step :
      (fuel q : ℕ) (k : Kernel)
      → q % superpage_size ≡ 0
      → base ≤ q
      → q + superpage_size ≤ l.phystop
      → superpage_loop l (suc fuel) (sub64 l.phystop superpage_size) q k
        ≡ superpage_loop l fuel
            (sub64 l.phystop superpage_size)
            (q + superpage_size)
            (super_added q k)
  unfolding superpage_loop
  superpage_loop-step fuel q k al ab lt =
      let e : add64 q superpage_size ≡ q + superpage_size = omega (arith, ly.high) in
      let t : leb q (sub64 l.phystop superpage_size) ≡ true = ground (arith, ly.high) in
      rw (t, e, superkfree-super_added q k al (omega (arith, ly.room)) (omega arith))

  superpage_loop-end :
      (fuel q : ℕ) (k : Kernel)
      → ¬ (q + superpage_size ≤ l.phystop)
      → superpage_loop l (suc fuel) (sub64 l.phystop superpage_size) q k ≡ ok k
  unfolding superpage_loop
  superpage_loop-end fuel q k done = ground (arith, ly.high, ly.room)

  -- The second loop ends within the fuel, at the end of the memory.
  superpage_loop-Pools :
      (fuel q : ℕ) (k : Kernel)
      → l.phystop < q + fuel * superpage_size
      → q ≤ l.phystop
      → q % superpage_size ≡ 0
      → base ≤ q
      → Pools l k base q
      → (k' : Kernel) × (superpage_loop l fuel (sub64 l.phystop superpage_size) q k ≡ ok k')
        × Pools l k' base l.phystop
  superpage_loop-Pools zero q k en small al ab s = absurd (omega arith)
  superpage_loop-Pools (suc fuel) q k en small al ab s =
      elim (dec_le (q + superpage_size) l.phystop) [
        | yes more ↦
            let (k', run, s') =
              superpage_loop-Pools fuel (q + superpage_size) (super_added q k) (omega arith) more
                (omega arith) (omega arith) (super_added-Pools q k al ab s) in
            (k', superpage_loop-step fuel q k al ab more ∙ run, s')
        | no done ↦
            let e : q ≡ l.phystop = omega (arith, ly.whole) in
            (k, superpage_loop-end fuel q k done, subst (Pools l k base) e s)
      ]

  kinit-run :
      (k k1 k2 : Kernel)
      → page_loop l (suc (base / page_size)) base (round_up l.end) k ≡ ok (base, k1)
      → superpage_loop l (suc (l.phystop / superpage_size)) (sub64 l.phystop superpage_size) base k1
        ≡ ok k2
      → kinit l k ≡ ok k2
  unfolding kinit freerange
  kinit-run k k1 k2 run1 run2 =
      let limit : sub64 l.phystop (52 * superpage_size) ≡ base = omega (arith, ly.high, ly.room) in
      let up : round_up base ≡ base = omega (arith, ly.whole, ly.room) in rw (limit, run1, up, run2)

  -- From zeroed static data `kinit` ends without a panic, and shares the memory out: the first list
  -- is exactly the pages from the kernel's end up to the last 52 superpages, the second exactly those
  -- superpages, each without a repetition, so that no byte is in both.
  pub kinit-Pools :
      (k : Kernel)
      → k.freelist ≡ null
      → k.super_freelist ≡ null
      → (k' : Kernel) × (kinit l k ≡ ok k') × Pools l k' (super_start l) l.phystop
  kinit-Pools k empty super_empty =
      let start : Pools l k (round_up l.end) base = record {
        pages = [];
        superpages = [];
        chain = nil empty;
        super_chain = nil super_empty;
        page_in = λ a m. cc;
        in_page = λ a al ab lt. absurd (omega arith);
        superpage_in = λ a m. cc;
        in_superpage = λ a al ab lt. absurd (omega arith);
      } in
      let (k1, run1, s1) =
        page_loop-Pools (suc (base / page_size)) (round_up l.end) k (omega arith)
          (omega (arith, ly.room, ly.whole)) (omega arith) (omega arith) start in
      let (k2, run2, s2) =
        superpage_loop-Pools (suc (l.phystop / superpage_size)) base k1 (omega arith) (omega arith)
          (omega (arith, ly.whole, ly.room)) (omega arith) s1 in
      (k2, kinit-run k k1 k2 run1 run2, s2)
