-- ===== src/Cow/Paging/Array.antt =====
-- lab6: a page table as an array of entries, one for each virtual page, for the record `Paging`.
-- With `works` false, `mappages` always reports that it could not map.
use mit.Base.{
  ℕ, zero, suc, ◌+◌, ◌-◌, ◌/◌, ◌^◌, ◌≤◌, ◌<◌, ◌≡◌, refl, Bool, true, false, Option, none, some,
  ◌==◌, ◌&&◌, ltb, if◌then◌else◌, arith, update, Run, ok, panic, ◌>>=◌, fun_ext, inl, inr, ◌⊎◌, ap,
  Bool-cases, ==→eq, ==→ne, ◌∙◌,
}
use mathlib.Core.Path.{subst}
use mit.Cow.Kalloc.{Layout, Kernel, page_size, round_down, kfree}
use mit.Cow.Kalloc.Inv.{IsLayout, IsPage, Inv, Outside}
use mit.Cow.Kalloc.Free.{kfree_lem}
use mit.Cow.Paging.{Flags, Pte, Paging, valid, page, uses, Laws, Grown}

abbrev pub Entries : Type 0
Entries = ℕ → Option Pte

pub unmap : Layout → Entries → ℕ → Kernel → Run (Entries × Kernel)
unmap l t zero k = ok (t, k)
unmap l t (suc n) k = unmap l t n k >>= λ r. elim (valid (r.0 n)) [
  | none ↦ panic
  | some e ↦ kfree l e.pa r.1 >>= λ k'. ok (update r.0 n none, k')
]

unmap-suc :
    (l : Layout) (t t1 : Entries) (n : ℕ) (k k1 k2 : Kernel) (e : Pte)
    → unmap l t n k ≡ ok (t1, k1)
    → valid (t1 n) ≡ some e
    → kfree l e.pa k1 ≡ ok k2
    → unmap l t (suc n) k ≡ ok (update t1 n none, k2)
unfolding unmap
unmap-suc l t t1 n k k1 k2 e run here free = ground arith

abbrev pub map_page : Bool → Entries → (va pa : ℕ) → Flags → Kernel → Bool × Entries × Kernel
map_page false t va pa f k = (false, t, k)
map_page true t va pa f k =
    (true, update t (va / page_size) (some (record { pa = pa; flags = record f { v = true } })), k)

abbrev pub array : Bool → Layout → Paging
array works l = record {
  Table = Entries;
  maxva = 2 ^ 38;
  walk = λ t va. t (va / page_size);
  store = λ t va e. update t (va / page_size) (some e);
  mappages = λ t va pa f k. ok (map_page works t va pa f k);
  uvmunmap = unmap l;
}

Grown-self : (l : Layout) (k : Kernel) (refs : ℕ → ℕ) → Inv l k refs → Grown l k refs k
Grown-self l k refs i = record { refs' = refs; inv = i; held = λ p h. refl; kept = λ a h. refl }

map_page_lem :
    (works : Bool) (l : Layout) (t : Entries) (va pa : ℕ) (f : Flags) (k : Kernel) (refs : ℕ → ℕ)
    → Inv l k refs
    → (b : Bool) × (t' : Entries) × (k' : Kernel) × (ok (map_page works t va pa f k)
        ≡ ok (b, t', k'))
      × Grown l k refs k'
      × ((va' : ℕ)
          → valid (t' (va' / page_size)) ≡ (
              if b && (va / page_size == va' / page_size)
              then some (record { pa = pa; flags = record f { v = true } })
              else valid (t (va' / page_size))))
map_page_lem false l t va pa f k refs i = (false, t, k, refl, Grown-self l k refs i, λ va'. refl)
map_page_lem true l t va pa f k refs i = (
  true,
  update t (va / page_size) (some (record { pa = pa; flags = record f { v = true } })),
  k,
  refl,
  Grown-self l k refs i,
  λ va'. ground arith,
)

valid-if :
    (b : Bool) (o : Option Pte) → valid (if b then none else o) ≡ (if b then none else valid o)
valid-if true o = refl
valid-if false o = refl

module _ (works : Bool) (l : Layout) (ly : IsLayout l) where
  abbrev arr : Paging
  arr = array works l

  elsewhere :
      (t : Entries) (n : ℕ) (e : Pte) (refs : ℕ → ℕ) (a : ℕ)
      → valid (t (page n / page_size)) ≡ some e
      → uses arr t (suc n) (round_down a) < refs (round_down a)
      → Outside e.pa a ⊎ (1 < refs e.pa - uses arr t n e.pa)
  unfolding uses
  elsewhere t n e refs a m0 lt = elim (Bool-cases (round_down a == e.pa)) [
    | inl same ↦
        let q : round_down a ≡ e.pa = ==→eq (round_down a) e.pa same in
        inr (let lt' : uses arr t (suc n) e.pa < refs e.pa = rw q at lt in ground arith)
    | inr other ↦ inl (==→ne (round_down a) e.pa other)
  ]

  unmap_lem :
      (t : Entries) (n : ℕ) (k : Kernel) (refs : ℕ → ℕ)
      → Inv l k refs
      → ((m : ℕ) → m < n → (e : Pte) × (valid (t m) ≡ some e) × IsPage l e.pa × (0 < refs e.pa))
      → ((p : ℕ) → uses arr t n p ≤ refs p)
      → (t' : Entries) × (k' : Kernel) × (unmap l t n k ≡ ok (t', k'))
        × Inv l k' (λ p. refs p - uses arr t n p)
        × ((a : ℕ) → uses arr t n (round_down a) < refs (round_down a) → k'.bytes a ≡ k.bytes a)
        × ((m : ℕ) → t' m ≡ (if ltb m n then none else t m))
  unfolding unmap uses
  unmap_lem t zero k refs i h le = (t, k, refl, i', λ a lt. refl, λ m. ground arith)
    where
      i' : Inv l k (λ p. refs p - 0)
      i' = let e : (λ (p : ℕ). refs p - 0) ≡ refs = fun_ext (λ p. omega arith) in rw e i
  unmap_lem t (suc n) k refs i h le =
      let (t1, k1, run, i1, kept1, clear1) =
        unmap_lem t n k refs i (λ m lt. h m (omega arith)) (λ p. omega (arith, le p)) in
      let (e, m0, pg, pos) = h n (omega arith) in
      let here0 : valid (t (page n / page_size)) ≡ some e =
        let q : page n / page_size ≡ n = omega arith in rw q m0 in
      let here : valid (t1 n) ≡ some e = ground (arith, clear1 n) in
      let last : uses arr t n e.pa + 1 ≤ refs e.pa = ground (arith, le e.pa) in
      let (k2, free, i2, kept2) =
        kfree_lem l ly e.pa k1 (λ p. refs p - uses arr t n p) i1 pg (omega arith) in
      (
        update t1 n none,
        k2,
        unmap-suc l t t1 n k k1 k2 e run here free,
        subst (λ r. Inv l k2 r) (fun_ext λ p. ground arith) i2,
        λ a lt. kept2 a (elsewhere t n e refs a here0 lt) ∙ kept1 a (omega arith),
        λ m. ground (arith, clear1 m),
      )

  -- The array of entries meets the laws.
  pub array-Laws : Laws arr l
  array-Laws = record {
    low = omega arith;
    walk-store = λ t va va' e f h. refl;
    mappages_lem = λ t va pa f k refs i al low free. map_page_lem works l t va pa f k refs i;
    uvmunmap_lem = λ t n k refs i h le.
        let (t', k', run, i', kept, clear) =
          unmap_lem t n k refs i
            (λ m lt.
              let (e, m0, pg, pos) = h m lt in
              (e, (let q : page m / page_size ≡ m = omega arith in rw q at m0), pg, pos))
            le in
        (t', k', run, i', kept, λ va. ap valid (clear (va / page_size)) ∙ valid-if _ _);
  }
