-- ===== src/Cow/Fork.antt =====
-- lab6, vm.c: `uvmcopy`, by which `fork` lets the child share the parent's pages.
pub mod Step
pub mod Round
pub mod Laws
pub mod Sample
use mit.Base.{
  ℕ, zero, suc, ◌+◌, ◌/◌, Bool, true, false, none, some, ltb, not, if◌then◌else◌, add64, Run, ok,
  panic, out_of_fuel, ◌>>=◌,
}
use mit.Cow.Kalloc.{Layout, Kernel, page_size, refcadd}
use mit.Cow.Paging.{Flags, Pte, Paging}

-- `flags &= ~PTE_W; flags |= PTE_COW;`
abbrev pub share : Pte → Pte
share e = record e { flags = record e.flags { w = false; cow = true } }

module _ (g : Paging) where
  open g use {Table, walk, store, mappages, uvmunmap}

  -- What `uvmcopy` leaves: whether it returned 0, the two tables, and the kernel.
  pub record Copied : Type 0 where
    pub success : Bool
    pub old : Table
    pub new : Table
    pub kernel : Kernel

  -- The label `err`.
  pub undo : ℕ → Table → Table → Kernel → Run Copied
  undo i old new k = uvmunmap new (i / page_size) k >>= λ r.
      ok (record { success = false; old = old; new = r.0; kernel = r.1 })

  -- The loop from `i` on.
  pub copy_loop : (fuel sz i : ℕ) → Table → Table → Kernel → Run Copied
  unfolding undo
  copy_loop zero sz i old new k = out_of_fuel
  copy_loop (suc fuel) sz i old new k =
      if ltb i sz
      then (elim (walk old i) [
        | none ↦ panic
        | some pte ↦
            if not pte.flags.v
            then panic
            else (let pte' = share pte in
                let old' = store old i pte' in
                mappages new i pte.pa pte'.flags k >>= λ r. elim r.0 [
                  | true ↦ copy_loop fuel sz (add64 i page_size) old' r.1 (refcadd pte.pa r.2)
                  | false ↦ undo i old' r.1 r.2
                ])
      ])
      else ok (record { success = true; old = old; new = new; kernel = k })

  pub uvmcopy : Table → Table → ℕ → Kernel → Run Copied
  uvmcopy old new sz k = copy_loop (suc (sz / page_size + 1)) sz 0 old new k
