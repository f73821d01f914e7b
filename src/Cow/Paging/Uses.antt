-- ===== src/Cow/Paging/Uses.antt =====
-- Entries, writes to them, and the count of the references that a table holds.
use mit.Base.{
  ℕ, zero, suc, ◌+◌, ◌/◌, ◌≤◌, ◌<◌, ◌≡◌, refl, true, Option, none, some, ◌==◌, if◌then◌else◌, arith,
  ap,
}
use native.Mathlib.Decide.{dec_le}
use mit.Cow.Kalloc.{page_size}
use mit.Cow.Paging.{Pte, Paging, valid, page, mapped, refers, uses, Present, Laws}
use mit.Cow.Kalloc.{Layout}

pub walk_of_valid :
    (o : Option Pte) (e : Pte) → valid o ≡ some e → (o ≡ some e) × (e.flags.v ≡ true)
walk_of_valid none e h = cc
walk_of_valid (some f) e h = ground arith

module _ (g : Paging) where
  open g use {Table, walk, store}

  pub mapped-store :
      (l : Layout) (laws : Laws g l) (t : Table) (va va' : ℕ) (e f : Pte)
      → walk t va ≡ some e
      → mapped g (store t va f) va'
        ≡ (if va / page_size == va' / page_size then valid (some f) else mapped g t va')
  mapped-store l laws t va va' e f h = ground (arith, laws.walk-store t va va' e f h)

  pub uses-zero : (t : Table) (p : ℕ) → uses g t 0 p ≡ 0
  unfolding uses
  uses-zero t p = refl

  pub uses-suc :
      (t : Table) (n p : ℕ) → uses g t (suc n) p ≡ uses g t n p + refers g (mapped g t (page n)) p
  unfolding uses
  uses-suc t n p = refl

  refers-le : (o : Option Pte) (p : ℕ) → refers g o p ≤ 1
  refers-le none p = omega arith
  refers-le (some e) p = ground arith

  pub uses_mono : (t : Table) (m n p : ℕ) → m ≤ n → uses g t m p ≤ uses g t n p
  unfolding uses
  uses_mono t zero n p h = omega arith
  uses_mono t (suc m) zero p h = absurd (omega arith)
  uses_mono t (suc m) (suc n) p h = elim (dec_le (suc m) n) [
    | yes below ↦ omega (arith, uses_mono t (suc m) n p below)
    | no top ↦ let e : m ≡ n = omega arith in rw e (omega arith)
  ]

  pub uses-le : (t : Table) (n p : ℕ) → uses g t n p ≤ n
  unfolding uses
  uses-le t zero p = omega arith
  uses-le t (suc n) p = omega (arith, uses-le t n p, refers-le (mapped g t (page n)) p)

  -- Tables that agree on the pages give the same counts.
  pub uses-congr :
      (s t : Table) (n p : ℕ)
      → ((m : ℕ) → m < n → refers g (mapped g s (page m)) p ≡ refers g (mapped g t (page m)) p)
      → uses g s n p ≡ uses g t n p
  unfolding uses
  uses-congr s t zero p h = refl
  uses-congr s t (suc n) p h =
      omega (arith, h n (omega arith), uses-congr s t n p (λ m lt. h m (omega arith)))

  -- A page that has no references is not used by a table whose pages all have some.
  pub uses-unreferenced :
      (l : Layout) (refs : ℕ → ℕ) (t : Table) (n j p : ℕ)
      → Present g l refs t n
      → refs p ≡ 0
      → j ≤ n
      → uses g t j p ≡ 0
  unfolding uses
  uses-unreferenced l refs t n zero p h z le = refl
  uses-unreferenced l refs t n (suc j) p h z le =
      let (e, m, pg, pos) = h j le in
      ground (arith, uses-unreferenced l refs t n j p h z (omega arith), ap (λ o. refers g o p) m)
