-- ===== src/Cow/Fault.antt =====
-- lab6, proc.c: `cowhandle`, which gives a process its own copy of a shared page.
pub mod Memmove
pub mod Copy
pub mod Writable
use mit.Base.{
  ℕ, ◌+◌, ◌-◌, ◌^◌, ◌%◌, Bool, true, false, none, some, ◌==◌, ltb, leb, not, ◌||◌, ◌&&◌,
  if◌then◌else◌, add64, sub64, Run, ok, panic, ◌>>=◌,
}
use mit.Cow.Kalloc.{Layout, Kernel, page_size, round_down, null, kalloc, kfree}
use mit.Cow.Paging.{Flags, Pte, Paging}

-- `memmove(dst, src, n)`, of bytes that do not overlap.
abbrev pub memmove : (ℕ → ℕ) → (dst src n : ℕ) → ℕ → ℕ
memmove m dst src n a =
    if leb dst a then (if ltb a (dst + n) then m (src + (a - dst)) else m a) else m a

-- `flags = (flags & ~PTE_COW) | PTE_W`, with the new page.
abbrev pub own : Pte → ℕ → Pte
own e mem = record { pa = mem; flags = record e.flags { cow = false; w = true } }

module _ (l : Layout) (g : Paging) where
  open g use {Table, maxva, walk, store}

  -- The part of `cowhandle` after its tests: a new page, the copy, the entry, and the old page's
  -- reference given back.
  pub take_copy : Table → ℕ → Pte → Kernel → Run (Bool × Table × Kernel)
  take_copy t va pte k =
      let (mem, k1) = kalloc k in
      if mem == null
      then ok (false, t, k1)
      else (let k2 = record k1 { bytes = memmove k1.bytes mem pte.pa page_size } in
          kfree l pte.pa k2 >>= λ k3. ok (true, store t va (own pte mem), k3))

  -- Whether it returned 0, the table and the kernel. It is called below MAXVA, where `walk` does
  -- not panic.
  pub cowhandle : Table → ℕ → Kernel → Run (Bool × Table × Kernel)
  cowhandle t va k = elim (walk t va) [
    | none ↦ ok (false, t, k)
    | some pte ↦
        if not pte.flags.v || not pte.flags.cow
        then ok (false, t, k)
        else if va == 0
        then ok (false, t, k)
        else take_copy t va pte k
  ]
