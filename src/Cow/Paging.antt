-- ===== src/Cow/Paging.antt =====
-- lab6: the page table entries of riscv.h, and the page table code that the lab leaves as it is.
-- `walk`, `mappages` and `uvmunmap` are not among the lab's files: they are the record `Paging`, and
-- what their comments in xv6 promise is the record `Laws`.
pub mod Uses
pub mod Array
use mit.Base.{
  ℕ, zero, suc, ◌+◌, ◌-◌, ◌*◌, ◌/◌, ◌%◌, ◌^◌, ◌≤◌, ◌<◌, ◌≡◌, ◌≢◌, Bool, true, false, Option, none,
  some, ◌==◌, ltb, if◌then◌else◌, Run, ok, ◌&&◌,
}
use mit.Cow.Kalloc.{Layout, Kernel, page_size, round_down}
use mit.Cow.Kalloc.Inv.{IsPage, Inv}

-- The flag bits of an entry: PTE_V, PTE_R, PTE_W, PTE_X, PTE_U, PTE_COW, and the other ones.
pub record Flags : Type 0 where
  pub v : Bool
  pub r : Bool
  pub w : Bool
  pub x : Bool
  pub u : Bool
  pub cow : Bool
  pub others : ℕ

-- An entry: the page `PTE2PA(pte)` that it points to, and its flags `PTE_FLAGS(pte)`.
pub record Pte : Type 0 where
  pub pa : ℕ
  pub flags : Flags

-- A kernel that has taken free pages at most: every reference of before is still counted once.
pub record Grown (l : Layout) (k : Kernel) (refs : ℕ → ℕ) (k' : Kernel) : Type 0 where
  pub refs' : ℕ → ℕ
  pub inv : Inv l k' refs'
  pub held : (p : ℕ) → 0 < refs p → refs' p ≡ refs p
  pub kept : (a : ℕ) → 0 < refs (round_down a) → k'.bytes a ≡ k.bytes a

-- `walk t va` is the entry that `walk(pagetable, va, 0)` points to (`none` for a null pointer), and
-- `store t va e` writes it. `mappages` maps one page and says whether it could; `uvmunmap t n`
-- unmaps and frees the pages from address 0 on.
pub record Paging : Type 1 where
  pub Table : Type 0
  pub maxva : ℕ
  pub walk : Table → ℕ → Option Pte
  pub store : Table → ℕ → Pte → Table
  pub mappages : Table → (va pa : ℕ) → Flags → Kernel → Run (Bool × Table × Kernel)
  pub uvmunmap : Table → (npages : ℕ) → Kernel → Run (Table × Kernel)

abbrev pub valid : Option Pte → Option Pte
valid none = none
valid (some e) = if e.flags.v then some e else none

abbrev pub page : ℕ → ℕ
page m = m * page_size

module _ (g : Paging) where
  open g use {Table, maxva, walk, store, mappages, uvmunmap}

  -- The valid entry for an address.
  abbrev pub mapped : Table → ℕ → Option Pte
  mapped t va = valid (walk t va)

  -- How often the entry refers to the page `p`.
  abbrev pub refers : Option Pte → ℕ → ℕ
  refers none p = 0
  refers (some e) p = if e.pa == p then 1 else 0

  -- How many of the first `n` pages of the address space are the page `p`.
  pub uses : Table → ℕ → ℕ → ℕ
  uses t zero p = 0
  uses t (suc n) p = uses t n p + refers (mapped t (page n)) p

  -- The first `n` pages are mapped to pages of the allocator that have references.
  abbrev pub Present : Layout → (ℕ → ℕ) → Table → ℕ → Type 0
  Present l refs t n =
      (m : ℕ) → m < n → (e : Pte) × (mapped t (page m) ≡ some e) × IsPage l e.pa × (0 < refs e.pa)

  pub record Laws (l : Layout) : Type 0 where
    pub low : maxva < 2 ^ 63
    -- A write through the pointer changes the entry of that page alone.
    pub walk-store :
        (t : Table) (va va' : ℕ) (e f : Pte)
        → walk t va ≡ some e
        → walk (store t va f) va'
          ≡ (if va / page_size == va' / page_size then some f else walk t va')
    -- At an unmapped page `mappages` either maps it or says that it could not; it takes at most free
    -- pages, for the table itself.
    pub mappages_lem :
        (t : Table) (va pa : ℕ) (f : Flags) (k : Kernel) (refs : ℕ → ℕ)
        → Inv l k refs
        → va % page_size ≡ 0
        → va < maxva
        → mapped t va ≡ none
        → (b : Bool) × (t' : Table) × (k' : Kernel) × (mappages t va pa f k ≡ ok (b, t', k'))
          × Grown l k refs k'
          × ((va' : ℕ)
              → mapped t' va' ≡ (
                  if b && (va / page_size == va' / page_size)
                  then some (record { pa = pa; flags = record f { v = true } })
                  else mapped t va'))
    -- `uvmunmap` of mapped pages removes the mappings, and frees each page once.
    pub uvmunmap_lem :
        (t : Table) (n : ℕ) (k : Kernel) (refs : ℕ → ℕ)
        → Inv l k refs
        → Present l refs t n
        → ((p : ℕ) → uses t n p ≤ refs p)
        → (t' : Table) × (k' : Kernel) × (uvmunmap t n k ≡ ok (t', k'))
          × Inv l k' (λ p. refs p - uses t n p)
          × ((a : ℕ) → uses t n (round_down a) < refs (round_down a) → k'.bytes a ≡ k.bytes a)
          × ((va : ℕ) → mapped t' va ≡ (if ltb (va / page_size) n then none else mapped t va))
