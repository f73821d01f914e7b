-- ===== src/Cow/Sample.antt =====
-- A small machine for the tests of the lab's modules: four pages of memory, of which the first two
-- are free, the third has one reference and the last has two.
use mit.Base.{
  ℕ, ◌/◌, ◌%◌, refl, true, false, Bool, none, some, [], ◌∷◌, ◌==◌, if◌then◌else◌, arith, update,
}
use mit.Cow.Kalloc.{Layout, Kernel}
use mit.Cow.Kalloc.Inv.{IsLayout, IsPage, Inv, nil, cons}
use mit.Cow.Paging.{Pte, Paging}
use mit.Cow.Paging.Array.{Entries, array}

abbrev pub layout : Layout
layout = record { end = 0x1000; phystop = 0x5000 }

pub layout-IsLayout : IsLayout layout
layout-IsLayout = omega arith

abbrev pub counts : ℕ → ℕ
counts i = if i == 3 then 1 else if i == 4 then 2 else 0

abbrev pub refs : ℕ → ℕ
refs p = counts (p / 4096)

abbrev pub kernel : Kernel
kernel = record {
  freelist = 0x1000;
  next = update (λ p. 0) 0x1000 0x2000;
  count = counts;
  bytes = λ a. a % 256;
}

pub kernel-Inv : Inv layout kernel refs
kernel-Inv = record {
  free = 0x1000 ∷ 0x2000 ∷ [];
  chain = cons (omega arith) refl (cons (omega arith) refl (nil refl));
  free_page = λ p h. ground arith;
  free_unused = λ p h. ground arith;
  unused_free = λ p h z. ground arith;
  counts = λ p h. refl;
  small = λ p h. ground arith;
}

pub third-IsPage : IsPage layout 0x3000
third-IsPage = omega arith

pub last-IsPage : IsPage layout 0x4000
last-IsPage = omega arith

abbrev pub user_page : Bool → ℕ → Pte
user_page w pa = record {
  pa = pa;
  flags = record { v = true; r = true; w = w; x = false; u = true; cow = false; others = 0 };
}

-- An address space of two pages, the second of them read-only.
abbrev pub table : Entries
table =
    update (update (λ m. none) 0 (some (user_page true 0x3000))) 1 (some (user_page false 0x4000))

abbrev pub nothing : Entries
nothing m = none

abbrev pub works : Paging
works = array true layout
