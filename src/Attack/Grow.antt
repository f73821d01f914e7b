-- ===== src/Attack/Grow.antt =====
-- lab2, attack: how a process gets memory, `uvmalloc` of vm.c, `growproc` of proc.c and `sys_sbrk`
-- of sysproc.c, over the allocator of Attack. The tables of a process are those of xv6.
pub mod Ends
pub mod Maps
pub mod Secret
mod Tests
use Prim.Native.Nat.{bit_or}
use mit.Base.{
  ℕ, zero, suc, ◌+◌, ◌-◌, ◌*◌, ◌/◌, ◌%◌, ◌^◌, Bool, true, false, List, [], ◌∷◌, ◌==◌, ltb,
  if◌then◌else◌, add64, extend, is_neg32, is_pos32, Run, ok, out_of_fuel, ◌>>=◌,
}
use mit.Cow.Kalloc.{Layout, page_size, null}
use mit.Attack.{Kernel, kfree, kalloc}

-- The functions of xv6 on page tables. `mappages` tells whether it returned 0; it may take pages
-- for tables.
pub record Paging : Type 1 where
  pub Tables : Type 0
  pub mappages : Tables → Kernel → (va pa perm : ℕ) → Bool × Tables × Kernel
  pub uvmdealloc : Tables → Kernel → (oldsz newsz : ℕ) → Run (ℕ × Tables × Kernel)
  pub walkaddr : Tables → (va : ℕ) → ℕ

-- The fields of `struct proc` that are used here.
pub record Proc (Tables : Type 0) : Type 0 where
  pub sz : ℕ
  pub pagetable : Tables

-- `PGROUNDUP(sz)`
abbrev pub round_up : ℕ → ℕ
round_up sz = add64 sz (page_size - 1) / page_size * page_size

-- `PTE_R|PTE_U`, and `PTE_W`.
abbrev pub read_user : ℕ
read_user = 18

abbrev pub write : ℕ
write = 4

module _ (l : Layout) (m : Paging) where
  open m use {Tables, mappages, uvmdealloc, walkaddr}

  -- `uvmdealloc(pagetable, a, oldsz); return 0;`
  pub undo : Tables → Kernel → (a oldsz : ℕ) → Run (ℕ × Tables × Kernel)
  undo t k a oldsz = uvmdealloc t k a oldsz >>= λ d. ok (0, d.1, d.2)

  pub grow_loop :
      (fuel : ℕ) → Tables → Kernel → (a oldsz newsz xperm : ℕ) → Run (ℕ × Tables × Kernel)
  unfolding undo
  grow_loop zero t k a oldsz newsz xperm = out_of_fuel
  grow_loop (suc fuel) t k a oldsz newsz xperm =
      let mem = kalloc k in
      let mapped = mappages t mem.1 a mem.0 (bit_or read_user xperm) in
      let rest = grow_loop fuel mapped.1 mapped.2 (add64 a page_size) oldsz newsz xperm in
      let failed = kfree l mem.0 mapped.2 >>= λ k1. undo mapped.1 k1 a oldsz in
      if ltb a newsz
      then (if mem.0 == null then undo t mem.1 a oldsz else if mapped.0 then rest else failed)
      else ok (newsz, t, k)

  -- A round for each page below `newsz`, and two more.
  unfoldable pub uvmalloc : Tables → Kernel → (oldsz newsz xperm : ℕ) → Run (ℕ × Tables × Kernel)
  unfolding grow_loop
  uvmalloc t k oldsz newsz xperm =
      if ltb newsz oldsz
      then ok (oldsz, t, k)
      else grow_loop (newsz / page_size + 2) t k (round_up oldsz) (round_up oldsz) newsz xperm

  -- Whether it returned 0, the process, and the allocator.
  pub growproc : (n : ℕ) → Proc Tables → Kernel → Run (Bool × Proc Tables × Kernel)
  unfolding uvmalloc
  growproc n p k =
      if is_pos32 n
      then (uvmalloc p.pagetable k p.sz (add64 p.sz n) write >>= λ r. ok (
          if r.0 == 0
          then (false, record p { pagetable = r.1 }, r.2)
          else (true, record { sz = r.0; pagetable = r.1 }, r.2)))
      else if is_neg32 n
      then (uvmdealloc p.pagetable k p.sz (add64 p.sz (extend n)) >>= λ r.
          ok (true, record { sz = r.0; pagetable = r.1 }, r.2))
      else ok (true, p, k)

  -- The lines `VA … -> …` for the pages from `va` on.
  pub print_loop : (fuel : ℕ) → Tables → (va new_sz : ℕ) → Run (List (ℕ × ℕ))
  print_loop zero t va new_sz = out_of_fuel
  print_loop (suc fuel) t va new_sz =
      let pa = walkaddr t va in
      let rest = print_loop fuel t (add64 va page_size) new_sz in
      if ltb va new_sz
      then (rest >>= λ lines. ok (if ltb 0 pa then (va, pa) ∷ lines else lines))
      else ok []

  -- The result, the lines that are printed, the process, and the allocator.
  pub sys_sbrk : (n : ℕ) → Proc Tables → Kernel → Run (ℕ × List (ℕ × ℕ) × Proc Tables × Kernel)
  unfolding growproc print_loop
  sys_sbrk n p k = growproc n p k >>= λ r.
      let new_sz = r.1.sz in
      let lines =
        if is_pos32 n
        then print_loop (new_sz / page_size + 2) r.1.pagetable p.sz new_sz
        else ok [] in
      if r.0
      then (lines >>= λ printed. ok (p.sz, printed, r.1, r.2))
      else ok (2 ^ 64 - 1, [], r.1, r.2)
