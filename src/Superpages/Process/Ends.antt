-- ===== src/Superpages/Process/Ends.antt =====
-- lab3, superpages: the ends of the functions of proc.c that map and free.
use mit.Base.{
  ℕ, ◌^◌, ◌<◌, Bool, true, false, ◌==◌, not, if◌then◌else◌, Run, ok, panic, out_of_fuel, ◌>>=◌,
  arith, Ensures-bind, Ensures-if, Ends,
}
use mit.Cow.Kalloc.{page_size}
use mit.Superpages.{kfree}
use mit.Superpages.Table.{Vm}
use mit.Superpages.Space.{Machine, uvmunmap}
use mit.Superpages.Space.Counts.{MachineEnds, kfree-Ends}
use mit.Superpages.Space.Unmap.{uvmunmap-Ends}
use mit.Superpages.Grow.{Proc}
use mit.Superpages.Process.{
  Around, Process, no_table, proc_pagetable, proc_freepagetable, free_page, free_table,
}

-- The functions of xv6 end, and its three pages lie below `2 ^ 62`.
pub record AroundEnds (x : Around) : Type 0 where
  pub uvmfree_ends : (vm : Vm) (t sz : ℕ) → Ends (x.uvmfree vm t sz)
  pub trampoline_low : x.trampoline_va < 2 ^ 62
  pub trapframe_low : x.trapframe_va < 2 ^ 62
  pub usyscall_low : x.usyscall_va < 2 ^ 62

module _ (m : Machine) (x : Around) (ends : MachineEnds m) (around : AroundEnds x) where
  -- One page is unmapped, and the run goes on.
  unmap_one {ℓ} :
      {A : Type ℓ} (va t : ℕ) (f : Vm → Run A) (vm : Vm)
      → va < 2 ^ 62
      → ((vm1 : Vm) → Ends (f vm1))
      → Ends (uvmunmap m vm t va 1 false >>= f)
  unmap_one va t f vm low h =
      Ensures-bind (λ vm1. Unit) (λ a. Unit) (uvmunmap m vm t va 1 false) f
        (uvmunmap-Ends m vm t va 1 false (omega arith)) (λ vm1 _. h vm1)

  no_table-Ends : (vm : Vm) (t : ℕ) → Ends (no_table m x vm t)
  unfolding no_table
  no_table-Ends vm t =
      Ensures-bind (λ r. Unit) (λ r. Unit) (x.uvmfree vm t 0) _ (around.uvmfree_ends vm t 0)
        (λ r h. tt)

  pub free_page-Ends : (page : ℕ) (vm : Vm) → Ends (free_page m x page vm)
  unfolding free_page
  free_page-Ends page vm =
      Ensures-if (λ r. Unit) (page == 0) _ _ (λ z. tt)
        (λ z.
          Ensures-bind (λ k. Unit) (λ r. Unit) (kfree m.layout page vm.kernel) _
            (kfree-Ends m.layout page vm.kernel) (λ k _. tt))

  pub free_table-Ends : (p : Proc) (vm : Vm) → Ends (free_table m x p vm)
  unfolding free_table proc_freepagetable
  free_table-Ends p vm =
      let t = p.pagetable in
      let freed = unmap_one x.trampoline_va t _ vm around.trampoline_low (λ vm1.
        unmap_one x.trapframe_va t _ vm1 around.trapframe_low (λ vm2.
          unmap_one x.usyscall_va t _ vm2 around.usyscall_low
            (λ vm3. around.uvmfree_ends vm3 t p.sz))) in
      Ensures-if (λ r. Unit) (t == 0) _ _ (λ z. tt) (λ z. freed)

  -- The rest of `proc_pagetable` after a mapping, whether it worked or not.
  if_mapped-Ends :
      (r : Run (Bool × Vm)) (f g : Vm → Run (ℕ × Vm))
      → Ends r
      → ((vm : Vm) → Ends (f vm))
      → ((vm : Vm) → Ends (g vm))
      → Ends (r >>= λ b. if not b.0 then f b.1 else g b.1)
  if_mapped-Ends (ok (true, vm)) f g h undo next = next vm
  if_mapped-Ends (ok (false, vm)) f g h undo next = undo vm
  if_mapped-Ends panic f g h undo next = tt
  if_mapped-Ends out_of_fuel f g h undo next = absurd h

  pub proc_pagetable-Ends : (p : Process) (vm : Vm) → Ends (proc_pagetable m x p vm)
  unfolding proc_pagetable
  proc_pagetable-Ends p vm =
      let t = (x.uvmcreate vm).0 in
      let no_table = λ (vm1 : Vm). no_table m x vm1 t in
      let give_back = λ (vm1 : Vm).
        unmap_one x.trampoline_va t no_table vm1 around.trampoline_low
          (λ vm2. no_table-Ends vm2 t) in
      let mapped =
        if_mapped-Ends _ no_table _ (ends.mappages_ends _ _ _ _ _ _) (λ vm1. no_table-Ends vm1 t)
          (λ vm1.
            if_mapped-Ends _ (λ v. uvmunmap m v t x.trampoline_va 1 false >>= no_table) _
              (ends.mappages_ends vm1 t x.trapframe_va page_size p.trapframe _) give_back
              (λ vm2.
                if_mapped-Ends _
                  (λ v. uvmunmap m v t x.usyscall_va 1 false >>= λ w.
                    uvmunmap m w t x.trampoline_va 1 false >>= no_table)
                  (λ v. ok (t, v)) (ends.mappages_ends vm2 t x.usyscall_va page_size p.usyscall _)
                  (λ v. unmap_one x.usyscall_va t _ v around.usyscall_low give_back) (λ v. tt))) in
      Ensures-if (λ r. Unit) (t == 0) _ _ (λ z. tt) (λ z. mapped)
