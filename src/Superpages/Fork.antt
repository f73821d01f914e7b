-- ===== src/Superpages/Fork.antt =====
-- lab3, vm.c: `uvmcopy`, which copies the pages and superpages of a process for its child.
pub mod Panic
pub mod Ends
use mit.Base.{
  ℕ, zero, suc, ◌+◌, ◌-◌, ◌*◌, ◌/◌, ◌%◌, ◌^◌, Bool, true, false, Option, none, some, ◌==◌, ltb, leb,
  not, if◌then◌else◌, add64, Run, ok, panic, out_of_fuel, ◌>>=◌,
}
use mit.Cow.Kalloc.{page_size, null}
use mit.Cow.Fault.{memmove}
use mit.Superpages.{Kernel, superpage_size, kalloc, superkalloc, kfree, superkfree}
use mit.Superpages.Table.{Flags, Pte, Vm, Slot, load, set_kernel, walk, supermappages}
use mit.Superpages.Space.{Machine, size_of, uvmunmap}

abbrev pub copy_bytes : Vm → Kernel → (dst src n : ℕ) → Vm
copy_bytes vm k dst src n = set_kernel vm (record k { bytes = memmove k.bytes dst src n })

module _ (m : Machine) where
  open m use {layout, maxva, mappages}

  -- The copy of one page or superpage, and whether it worked.
  pub copy_at : Vm → (new i : ℕ) → Pte → Run (Bool × Vm)
  copy_at vm new i e =
      if e.flags.s
      then (let mem = superkalloc vm.kernel in
          if mem.0 == null
          then ok (false, set_kernel vm mem.1)
          else (supermappages maxva (copy_bytes vm mem.1 mem.0 e.pa superpage_size) new i
                superpage_size mem.0 e.flags
              >>= λ r.
                  if r.0
                  then ok r
                  else (superkfree layout mem.0 r.1.kernel >>= λ k. ok (false, set_kernel r.1 k))))
      else (let mem = kalloc vm.kernel in
          if mem.0 == null
          then ok (false, set_kernel vm mem.1)
          else (mappages (copy_bytes vm mem.1 mem.0 e.pa page_size) new i page_size mem.0 e.flags
              >>= λ r.
                  if r.0
                  then ok r
                  else (kfree layout mem.0 r.1.kernel >>= λ k. ok (false, set_kernel r.1 k))))

  -- The label `err`, where the last page was of `size` bytes.
  err : Vm → (new i size : ℕ) → Run (Bool × Vm)
  err vm new i size =
      uvmunmap m vm new 0 ((i + size - 1) / page_size) true >>= λ vm1. ok (false, vm1)

  -- Whether it returned 0.
  pub copy_loop : (fuel : ℕ) → Vm → (old new sz i : ℕ) → Run (Bool × Vm)
  copy_loop zero vm old new sz i = out_of_fuel
  copy_loop (suc fuel) vm old new sz i =
      let round = walk maxva vm old i false >>= λ w. elim w.0 [
        | none ↦ panic
        | some p ↦
            let e = load w.1 p in
            if not e.flags.v
            then panic
            else (copy_at w.1 new i e >>= λ r.
                if r.0
                then copy_loop fuel r.1 old new sz (add64 i (size_of e))
                else err r.1 new i (size_of e))
      ] in
      if ltb i sz then round else ok (true, vm)

  pub uvmcopy : Vm → (old new sz : ℕ) → Run (Bool × Vm)
  uvmcopy vm old new sz = copy_loop (suc (sz / page_size + 1)) vm old new sz 0
