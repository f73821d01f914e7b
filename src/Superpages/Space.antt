-- ===== src/Superpages/Space.antt =====
-- lab3, vm.c: the pages of a process's address space, small and large: `uvmunmap`, `uvmalloc`,
-- `sbrksuperuvmalloc` and `uvmcopy`. `mappages` and `uvmdealloc` are not among the lab's files.
pub mod Counts
pub mod Unmap
use mit.Base.{
  ℕ, zero, suc, ◌+◌, ◌-◌, ◌*◌, ◌/◌, ◌%◌, ◌^◌, Bool, true, false, Option, none, some, ◌==◌, ltb, leb,
  not, ◌||◌, ◌&&◌, if◌then◌else◌, add64, sub64, inc32, Run, ok, panic, out_of_fuel, ◌>>=◌,
}
use mit.Cow.Kalloc.{Layout, page_size, null, round_up}
use mit.Superpages.{Kernel, superpage_size, memset, kalloc, superkalloc, kfree, superkfree}
use mit.Superpages.Table.{
  Flags, Pte, empty, no_flags, Vm, Slot, load, store, clear, set_kernel, is_leaf, walk,
  supermappages,
}

-- The kernel around the lab: the bounds of memory, MAXVA, `mappages` (whether it returned 0), and
-- `uvmdealloc` (the new size).
pub record Machine : Type 0 where
  pub layout : Layout
  pub maxva : ℕ
  pub mappages : Vm → (pagetable va size pa : ℕ) → Flags → Run (Bool × Vm)
  pub uvmdealloc : Vm → (pagetable oldsz newsz : ℕ) → Run (ℕ × Vm)

-- `struct sbrkhelp`. The fields are the patterns of ints.
pub record SbrkHelp : Type 0 where
  pub sz : ℕ
  pub state : ℕ
  pub startpages : ℕ
  pub superpages : ℕ
  pub endpages : ℕ

-- `PTE_FLAGS(pte) == PTE_V`
abbrev pub only_valid : Pte → Bool
only_valid e =
    e.flags.v && not (is_leaf e || (e.flags.u || (e.flags.s || not (e.flags.others == 0))))

-- How far the page of an entry reaches.
abbrev pub size_of : Pte → ℕ
size_of e = if e.flags.s then superpage_size else page_size

-- Whether `uvmalloc` takes a superpage at `a`.
abbrev pub takes_super : (a newsz : ℕ) → Bool
takes_super a newsz = (a % superpage_size == 0) && leb superpage_size (sub64 newsz a)

module _ (m : Machine) where
  open m use {layout, maxva, mappages, uvmdealloc}

  -- `superkfree` or `kfree`, by the entry.
  free_entry : Pte → Vm → Run Vm
  free_entry e vm =
      (if e.flags.s then superkfree layout e.pa vm.kernel else kfree layout e.pa vm.kernel) >>= λ k.
      ok (set_kernel vm k)

  pub unmap_loop : (fuel : ℕ) → Vm → (pagetable a end : ℕ) → (do_free : Bool) → Run Vm
  unfolding free_entry
  unmap_loop zero vm pagetable a end do_free = out_of_fuel
  unmap_loop (suc fuel) vm pagetable a end do_free =
      let round = walk maxva vm pagetable a false >>= λ r. elim r.0 [
        | none ↦ panic
        | some p ↦
            let e = load r.1 p in
            if not e.flags.v
            then panic
            else if only_valid e
            then panic
            else ((if do_free then free_entry e r.1 else ok r.1) >>= λ vm1.
                unmap_loop fuel (store vm1 p empty) pagetable (add64 a (size_of e)) end do_free)
      ] in
      if ltb a end then round else ok vm

  pub uvmunmap : Vm → (pagetable va npages : ℕ) → (do_free : Bool) → Run Vm
  uvmunmap vm pagetable va npages do_free =
      if not (va % page_size == 0)
      then panic
      else unmap_loop (suc npages) vm pagetable va (add64 va (npages * page_size)) do_free

  -- What `uvmalloc` does at one address: a page or a superpage, cleared and mapped. Whether it
  -- worked; where it did not, nothing is left allocated at `a`.
  pub alloc_at : Vm → (pagetable a newsz : ℕ) → (xperm : Flags) → Run (Bool × Vm)
  alloc_at vm pagetable a newsz xperm =
      let perm = record xperm { r = true; u = true } in
      if takes_super a newsz
      then (let mem = superkalloc vm.kernel in
          if mem.0 == null
          then ok (false, set_kernel vm mem.1)
          else (supermappages maxva (clear (set_kernel vm mem.1) mem.0 superpage_size) pagetable a
                superpage_size mem.0 perm
              >>= λ r.
                  if r.0
                  then ok r
                  else (superkfree layout mem.0 r.1.kernel >>= λ k. ok (false, set_kernel r.1 k))))
      else (let mem = kalloc vm.kernel in
          if mem.0 == null
          then ok (false, set_kernel vm mem.1)
          else (mappages (clear (set_kernel vm mem.1) mem.0 page_size) pagetable a page_size mem.0
                perm
              >>= λ r.
                  if r.0
                  then ok r
                  else (kfree layout mem.0 r.1.kernel >>= λ k. ok (false, set_kernel r.1 k))))

  step_size : (a newsz : ℕ) → ℕ
  step_size a newsz = if takes_super a newsz then superpage_size else page_size

  -- The loop of `uvmalloc`, which gives the new size, 0 on failure.
  pub alloc_loop : (fuel : ℕ) → Vm → (pagetable a oldsz newsz : ℕ) → Flags → Run (ℕ × Vm)
  unfolding alloc_at step_size
  alloc_loop zero vm pagetable a oldsz newsz xperm = out_of_fuel
  alloc_loop (suc fuel) vm pagetable a oldsz newsz xperm =
      let round = alloc_at vm pagetable a newsz xperm >>= λ r.
      if r.0
      then alloc_loop fuel r.1 pagetable (add64 a (step_size a newsz)) oldsz newsz xperm
      else (uvmdealloc r.1 pagetable a oldsz >>= λ d. ok (0, d.1)) in
      if ltb a newsz then round else ok (newsz, vm)

  pub uvmalloc : Vm → (pagetable oldsz newsz : ℕ) → Flags → Run (ℕ × Vm)
  uvmalloc vm pagetable oldsz newsz xperm =
      if ltb newsz oldsz
      then ok (oldsz, vm)
      else alloc_loop (suc (newsz / page_size + 1)) vm pagetable (round_up oldsz) (round_up oldsz)
          newsz xperm

  -- The counters of `sbrksuperuvmalloc` at one address.
  pub count_at : (a newsz : ℕ) → SbrkHelp → SbrkHelp
  count_at a newsz h =
      if takes_super a newsz
      then record h { superpages = inc32 h.superpages }
      else if h.superpages == 0
      then record h { startpages = inc32 h.startpages }
      else record h { endpages = inc32 h.endpages }

  pub sbrk_loop :
      (fuel : ℕ) → Vm → (pagetable a oldsz newsz : ℕ) → Flags → SbrkHelp → Run (SbrkHelp × Vm)
  unfolding alloc_at step_size count_at
  sbrk_loop zero vm pagetable a oldsz newsz xperm h = out_of_fuel
  sbrk_loop (suc fuel) vm pagetable a oldsz newsz xperm h =
      let h1 = count_at a newsz h in
      let round = alloc_at vm pagetable a newsz xperm >>= λ r.
      if r.0
      then sbrk_loop fuel r.1 pagetable (add64 a (step_size a newsz)) oldsz newsz xperm h1
      else (uvmdealloc r.1 pagetable a oldsz >>= λ d. ok (record h1 { state = 0 }, d.1)) in
      if ltb a newsz then round else ok (record h { sz = newsz % 2 ^ 32; state = 1 }, vm)

  abbrev pub no_help : SbrkHelp
  no_help = record { sz = 0; state = 0; startpages = 0; superpages = 0; endpages = 0 }

  pub sbrksuperuvmalloc : Vm → (pagetable oldsz newsz : ℕ) → Flags → Run (SbrkHelp × Vm)
  sbrksuperuvmalloc vm pagetable oldsz newsz xperm =
      if ltb newsz oldsz
      then ok (record no_help { sz = oldsz % 2 ^ 32 }, vm)
      else sbrk_loop (suc (newsz / page_size + 1)) vm pagetable (round_up oldsz) (round_up oldsz)
          newsz xperm no_help
