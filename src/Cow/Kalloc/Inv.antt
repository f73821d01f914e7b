-- ===== src/Cow/Kalloc/Inv.antt =====
-- What the allocator keeps: an abstract count `refs` of the references to each page, with which the
-- C counters agree, and a free list of exactly the pages that have none.
use mit.Base.{
  ℕ, ◌*◌, ◌%◌, ◌/◌, ◌^◌, ◌≤◌, ◌<◌, ◌≡◌, ◌≢◌, Bool, true, false, ◌||◌, List, [], ◌∷◌, arith, ◌==◌,
  update,
}
use mit.Cow.Kalloc.{Layout, Kernel, page_size, page_number, null, memset}

-- `end` lies above the null pointer, and the physical memory is a row of whole pages.
pub record IsLayout (l : Layout) : Type 0 where
  pub low : 0 < l.end
  pub whole : l.phystop % page_size ≡ 0
  pub high : l.phystop < 2 ^ 63
  pub ordered : l.end ≤ l.phystop

pub record IsPage (l : Layout) (p : ℕ) : Type 0 where
  pub aligned : p % page_size ≡ 0
  pub above : l.end ≤ p
  pub below : p < l.phystop

abbrev pub has : ℕ → List ℕ → Bool
has p [] = false
has p (q ∷ xs) = (p == q) || has p xs

-- The `next` pointers lead from `p` through the distinct pages `xs` to null.
pub data Chain (next : ℕ → ℕ) : ℕ → List ℕ → Type 0 where
  nil : {p : ℕ} → p ≡ null → Chain next p []
  cons :
      {p : ℕ} {xs : List ℕ}
      → p ≢ null
      → has p xs ≡ false
      → Chain next (next p) xs
      → Chain next p (p ∷ xs)

abbrev pub Outside : ℕ → ℕ → Type 0
Outside p a = a / page_size * page_size ≢ p

pub record Inv (l : Layout) (k : Kernel) (refs : ℕ → ℕ) : Type 0 where
  pub free : List ℕ
  pub chain : Chain k.next k.freelist free
  pub free_page : (p : ℕ) → has p free ≡ true → IsPage l p
  pub free_unused : (p : ℕ) → has p free ≡ true → refs p ≡ 0
  pub unused_free : (p : ℕ) → IsPage l p → refs p ≡ 0 → has p free ≡ true
  pub counts : (p : ℕ) → IsPage l p → k.count (page_number p) ≡ refs p
  pub small : (p : ℕ) → IsPage l p → refs p < 2 ^ 31

-- A change of `next` at a page that is not on the list leaves the chain.
pub Chain-update :
    {next : ℕ → ℕ} {p : ℕ} {xs : List ℕ} (q v : ℕ)
    → Chain next p xs
    → has q xs ≡ false
    → Chain (update next q v) p xs
Chain-update q v (nil e) out = nil e
Chain-update {next} q v (cons {p = p} {xs = xs} ne fresh c) out =
    let same : update next q v p ≡ next p = ground arith in
    cons ne fresh (rw same (Chain-update q v c (ground arith)))

-- Two aligned addresses with one page number are one.
pub page_number-injective :
    (l : Layout) (p q : ℕ) → IsPage l p → IsPage l q → page_number p ≡ page_number q → p ≡ q
page_number-injective l p q a b e = omega arith

-- `memset` of a page spares the bytes outside it.
pub memset-Outside :
    (m : ℕ → ℕ) (p c a : ℕ) → p % page_size ≡ 0 → Outside p a → memset m p c a ≡ m a
memset-Outside m p c a h o = ground arith
