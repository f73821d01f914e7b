-- ===== src/Attack.antt =====
-- lab2, attack: xv6-labs-2024/lab2: syscall/2. attack xv6/kernal, the physical memory allocator of
-- kalloc.c, which no longer fills pages with junk.
pub mod Leak
pub mod Grow
pub mod Exec
pub mod Fork
mod Tests
use mit.Base.{
  ℕ, zero, suc, ◌+◌, ◌-◌, ◌*◌, ◌/◌, ◌%◌, ◌^◌, Bool, List, [], ◌∷◌, ◌==◌, ltb, leb, not, ◌||◌,
  if◌then◌else◌, inc32, dec32, Run, ok, panic, ◌>>=◌,
}
use mit.Cow.Kalloc.{Layout, page_size, null}

-- A pointer in memory: eight bytes, the lowest first.
abbrev pub store_pointer : (ℕ → ℕ) → (a v : ℕ) → ℕ → ℕ
store_pointer m a v i =
    if leb a i then (if ltb i (a + 8) then v / 256 ^ (i - a) % 256 else m i) else m i

abbrev pub load_pointer : (ℕ → ℕ) → ℕ → ℕ
load_pointer m a =
    m a
    + m (a + 1) * 256
    + m (a + 2) * 256 ^ 2
    + m (a + 3) * 256 ^ 3
    + m (a + 4) * 256 ^ 4
    + m (a + 5) * 256 ^ 5
    + m (a + 6) * 256 ^ 6
    + m (a + 7) * 256 ^ 7

-- `kmem.freelist`, the bytes of memory, with the `next` pointer of a free page in its first ones,
-- and the counter of pages, the pattern of an `int`.
pub record Kernel : Type 0 where
  pub freelist : ℕ
  pub bytes : ℕ → ℕ
  pub has_record : Bool
  pub allocated_pages : ℕ

module _ (l : Layout) where
  pub kfree : ℕ → Kernel → Run Kernel
  kfree pa k =
      if not (pa % page_size == 0) || (ltb pa l.end || leb l.phystop pa)
      then panic
      else (let k1 = record k { bytes = store_pointer k.bytes pa k.freelist; freelist = pa } in
          ok (
            if k1.has_record then record k1 { allocated_pages = dec32 k1.allocated_pages } else k1))

pub kalloc : Kernel → ℕ × Kernel
kalloc k =
    let r = k.freelist in
    let k1 = if k.has_record then record k { allocated_pages = inc32 k.allocated_pages } else k in
    (r, if r == null then k1 else record k1 { freelist = load_pointer k1.bytes r })
