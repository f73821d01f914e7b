-- ===== src/Cow/Copyout.antt =====
-- lab6, vm.c: `copyout`, by which the kernel writes to user memory.
pub mod Ends
pub mod Page
pub mod Bytes
pub mod Private
use mit.Base.{
  ℕ, zero, suc, Bool, true, false, Option, none, some, ◌==◌, ltb, leb, not, ◌||◌, if◌then◌else◌,
  add64, sub64, Run, ok, panic, out_of_fuel, ◌>>=◌,
}
use mit.Cow.Kalloc.{Layout, Kernel, page_size, round_down}
use mit.Cow.Paging.{Pte, Paging}
use mit.Cow.Fault.{memmove, cowhandle}

module _ (l : Layout) (g : Paging) where
  open g use {Table, maxva, walk}

  -- The entry that `copyout` writes through, after a copy-on-write page was copied: `none` where it
  -- returns -1. A null entry after the copy would be a fault of the kernel.
  pub writable_entry : Table → ℕ → Kernel → Run (Option Pte × Table × Kernel)
  writable_entry t va0 k = elim (walk t va0) [
    | none ↦ ok (none, t, k)
    | some pte ↦
        if not pte.flags.u || not pte.flags.v
        then ok (none, t, k)
        else if not pte.flags.cow
        then ok (some pte, t, k)
        else if va0 == 0
        then ok (none, t, k)
        else (cowhandle l g t va0 k >>= λ r.
            if not r.0
            then ok (none, r.1, r.2)
            else elim (walk r.1 va0) [ none ↦ panic | some pte' ↦ ok (some pte', r.1, r.2) ])
  ]

  -- Whether it returned 0, the table and the kernel.
  pub copyout : (fuel : ℕ) → Table → (dstva src len : ℕ) → Kernel → Run (Bool × Table × Kernel)
  copyout zero t dstva src len k = out_of_fuel
  copyout (suc fuel) t dstva src len k =
      if not (ltb 0 len)
      then ok (true, t, k)
      else (let va0 = round_down dstva in
          if leb maxva va0
          then ok (false, t, k)
          else (writable_entry t va0 k >>= λ r. elim r.0 [
            | none ↦ ok (false, r.1, r.2)
            | some pte ↦
                let offset = sub64 dstva va0 in
                let room = sub64 page_size offset in
                let n = if ltb len room then len else room in
                let k2 = record r.2 { bytes = memmove r.2.bytes (add64 pte.pa offset) src n } in
                copyout fuel r.1 (add64 va0 page_size) (add64 src n) (sub64 len n) k2
          ]))
