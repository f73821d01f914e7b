-- ===== src/Superpages/Table.antt =====
-- lab3, vm.c: page tables with superpages, as they lie in memory: `walk`, `superwalk` and
-- `supermappages`. A table is an array of 512 entries at an address. The entries are kept apart
-- from the other bytes of memory.
pub mod Super
pub mod Ends
use mit.Base.{
  ℕ, zero, suc, ◌+◌, ◌-◌, ◌*◌, ◌/◌, ◌%◌, ◌^◌, Bool, true, false, Option, none, some, ◌==◌, ltb, leb,
  not, ◌||◌, ◌&&◌, if◌then◌else◌, add64, sub64, Run, ok, panic, out_of_fuel, ◌>>=◌,
}
use mit.Cow.Kalloc.{page_size, null}
use mit.Superpages.{Kernel, superpage_size, memset, kalloc, superkalloc}

-- The flag bits of an entry: PTE_V, PTE_R, PTE_W, PTE_X, PTE_U, PTE_S, and the other ones.
pub record Flags : Type 0 where
  pub v : Bool
  pub r : Bool
  pub w : Bool
  pub x : Bool
  pub u : Bool
  pub s : Bool
  pub others : ℕ

-- An entry: `PTE2PA(pte)` and `PTE_FLAGS(pte)`.
pub record Pte : Type 0 where
  pub pa : ℕ
  pub flags : Flags

abbrev pub no_flags : Flags
no_flags = record { v = false; r = false; w = false; x = false; u = false; s = false; others = 0 }

abbrev pub empty : Pte
empty = record { pa = 0; flags = no_flags }

-- The allocator, and the entries of each table.
pub record Vm : Type 0 where
  pub kernel : Kernel
  pub ptes : ℕ → ℕ → Pte

-- A pointer to an entry.
pub record Slot : Type 0 where
  pub table : ℕ
  pub index : ℕ

-- `PX(level, va)` of Sv39: nine bits above the twelve of the page and nine for each level below.
abbrev pub px : (level va : ℕ) → ℕ
px zero va = va / 2 ^ 12 % 512
px (suc zero) va = va / 2 ^ 21 % 512
px (suc (suc n)) va = va / 2 ^ 30 % 512

abbrev pub load : Vm → Slot → Pte
load vm p = vm.ptes p.table p.index

abbrev pub store : Vm → Slot → Pte → Vm
store vm p e = record vm { ptes = λ t i. if t == p.table && i == p.index then e else vm.ptes t i }

-- `memset(pa, 0, n)`, of the bytes and of the tables that lie there.
abbrev pub clear : Vm → (pa n : ℕ) → Vm
clear vm pa n = record vm {
  kernel = record vm.kernel { bytes = memset vm.kernel.bytes pa 0 n };
  ptes = λ t i. if leb pa t && ltb t (pa + n) then empty else vm.ptes t i;
}

abbrev pub set_kernel : Vm → Kernel → Vm
set_kernel vm k = record vm { kernel = k }

-- `PTE_LEAF(pte)`: one of PTE_R, PTE_W and PTE_X is set.
abbrev pub is_leaf : Pte → Bool
is_leaf e = e.flags.r || (e.flags.w || e.flags.x)

-- `walk` from a level on.
pub walk_level : (level : ℕ) → Vm → (pagetable va : ℕ) → (alloc : Bool) → Run (Option Slot × Vm)
walk_level zero vm pagetable va alloc =
    ok (some (record { table = pagetable; index = px 0 va }), vm)
walk_level (suc n) vm pagetable va alloc =
    let p : Slot = record { table = pagetable; index = px (suc n) va } in
    let e = load vm p in
    elim (e.flags.v) [
      | true ↦ elim (e.flags.s || is_leaf e) [
        | true ↦ ok (some p, vm)
        | false ↦ walk_level n vm e.pa va alloc
      ]
      | false ↦ elim alloc [
        | false ↦ ok (none, vm)
        | true ↦
            let page = kalloc vm.kernel in
            elim (page.0 == null) [
              | true ↦ ok (none, set_kernel vm page.1)
              | false ↦
                  let vm1 = clear (set_kernel vm page.1) page.0 page_size in
                  let e' : Pte = record { pa = page.0; flags = record no_flags { v = true } } in
                  walk_level n (store vm1 p e') page.0 va true
            ]
      ]
    ]

-- `maxva` is MAXVA.
module _ (maxva : ℕ) where
  unfoldable pub walk : Vm → (pagetable va : ℕ) → (alloc : Bool) → Run (Option Slot × Vm)
  unfolding walk_level
  walk vm pagetable va alloc = if leb maxva va then panic else walk_level 2 vm pagetable va alloc

  pub superwalk : Vm → (pagetable va : ℕ) → (alloc : Bool) → Run (Option Slot × Vm)
  superwalk vm pagetable va alloc =
      let p : Slot = record { table = pagetable; index = px 2 va } in
      let e = load vm p in
      if leb maxva va
      then panic
      else if e.flags.v
      then ok (some (record { table = e.pa; index = px 1 va }), vm)
      else if not alloc
      then ok (none, vm)
      else (let page = superkalloc vm.kernel in
          if page.0 == null
          then ok (none, set_kernel vm page.1)
          else (let vm1 = clear (set_kernel vm page.1) page.0 superpage_size in
              let e' : Pte = record {
                pa = page.0;
                flags = record no_flags { v = true; s = true };
              } in
              ok (some (record { table = page.0; index = px 1 va }), store vm1 p e')))

  -- The loop of `supermappages`: whether it returned 0.
  pub supermap_loop : (fuel : ℕ) → Vm → (pagetable a last pa : ℕ) → Flags → Run (Bool × Vm)
  unfolding superwalk
  supermap_loop zero vm pagetable a last pa perm = out_of_fuel
  supermap_loop (suc fuel) vm pagetable a last pa perm = superwalk vm pagetable a true >>= λ r.
      elim r.0 [
        | none ↦ ok (false, r.1)
        | some p ↦
            let vm1 =
              store r.1 p (record { pa = pa; flags = record perm { v = true; s = true } }) in
            let rest =
              supermap_loop fuel vm1 pagetable (add64 a superpage_size) last
                (add64 pa superpage_size) perm in
            if (load r.1 p).flags.v then panic else if a == last then ok (true, vm1) else rest
      ]

  pub supermappages : Vm → (pagetable va size pa : ℕ) → Flags → Run (Bool × Vm)
  supermappages vm pagetable va size pa perm =
      if not (va % superpage_size == 0)
      then panic
      else if not (size % superpage_size == 0)
      then panic
      else if size == 0
      then panic
      else supermap_loop (suc (size / superpage_size)) vm pagetable va
          (sub64 (add64 va size) superpage_size) pa perm
