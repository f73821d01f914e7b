-- ===== src/Attack/Grow/Maps.antt =====
-- lab2, attack: what `uvmalloc` and `sys_sbrk` map.
use Prim.Native.Nat.{bit_or}
use mit.Base.{
  ℕ, ◌+◌, ◌-◌, ◌%◌, ◌^◌, ◌≤◌, ◌<◌, ◌≡◌, ◌≢◌, ◌⊎◌, Bool, true, false, List, ◌==◌, if◌then◌else◌,
  Ends,
}
use mit.Cow.Kalloc.{Layout, page_size}
use mit.Attack.{Kernel}
use mit.Attack.Grow.{Paging, Proc, read_user}

-- `mappages` of one page for the user, where it works, makes `walkaddr` give it and keeps the other pages.
abbrev pub MapsOne : Paging → Type 0
MapsOne m =
    (t : m.Tables) (k : Kernel) (a pa xperm va : ℕ)
    → a % page_size ≡ 0
    → va % page_size ≡ 0
    → (m.mappages t k a pa (bit_or read_user xperm)).0 ≡ true
    → m.walkaddr (m.mappages t k a pa (bit_or read_user xperm)).1 va
      ≡ (if va == a then pa else m.walkaddr t va)

module _ (l : Layout) (m : Paging)
    (dealloc : (t : m.Tables) (k : Kernel) (a b : ℕ) → Ends (m.uvmdealloc t k a b))
    (maps : MapsOne m) (va : ℕ) where
  -- A page begins at `va`, above the old memory and in the new one.
  abbrev pub InNew : (oldsz newsz : ℕ) → Type 0
  InNew oldsz newsz = (va % page_size ≡ 0) × (oldsz ≤ va) × (va < newsz)

  -- `uvmalloc` fails, or gives the new size, and the page at `va` is mapped.
  abbrev Maps : ℕ → ℕ × m.Tables × Kernel → Type 0
  Maps newsz r = (r.0 ≡ 0) ⊎ ((r.0 ≡ newsz) × (m.walkaddr r.1 va ≢ 0))

  -- The process has the size that was asked for, or `growproc` failed and it has the size it had.
  abbrev Grown : ℕ → Proc m.Tables → Bool × Proc m.Tables × Kernel → Type 0
  Grown n p r =
      ((r.0 ≡ false) × (r.1.sz ≡ p.sz))
      ⊎ ((r.0 ≡ true) × (r.1.sz ≡ p.sz + n) × (m.walkaddr r.1.pagetable va ≢ 0))

  -- `sbrk` returned -1 and the size is as it was, or it returned the old size and there are `n` bytes
  -- more.
  abbrev pub Sold : ℕ → Proc m.Tables → ℕ × List (ℕ × ℕ) × Proc m.Tables × Kernel → Type 0
  Sold n p r =
      ((r.0 ≡ 2 ^ 64 - 1) × (r.2.sz ≡ p.sz))
      ⊎ ((r.0 ≡ p.sz) × (r.2.sz ≡ p.sz + n) × (m.walkaddr r.2.pagetable va ≢ 0))
