-- ===== src/Superpages/Process.antt =====
-- lab3, superpages: proc.c, the functions that make a process and take it down, over the allocator
-- and the page tables of the lab. `allocpid`, `uvmcreate` and `uvmfree` of xv6 are parameters.
pub mod Ends
pub mod Slots
pub mod Fresh
mod Tests
use Prim.Native.String.{String}
use mit.Base.{
  ℕ, suc, ◌+◌, ◌-◌, ◌*◌, ◌/◌, ◌%◌, ◌^◌, Bool, true, false, Option, none, some, List, [], ◌∷◌, ◌==◌,
  ltb, leb, not, if◌then◌else◌, add64, Run, ok, ◌>>=◌,
}
use mit.Cow.Kalloc.{page_size}
use mit.Superpages.{kalloc, kfree}
use mit.Superpages.Table.{Flags, no_flags, Vm, set_kernel}
use mit.Superpages.Space.{Machine, uvmunmap}
use mit.Superpages.Grow.{Proc}
use mit.Usyscall.{ProcState, unused, used, other_state, Context}

-- What is not in the lab: the addresses of memlayout.h, the code that these functions point to, the
-- next pid with its lock, and the making and the freeing of a page table.
pub record Around : Type 1 where
  pub Pids : Type 0
  pub allocpid : Pids → ℕ × Pids
  pub trampoline_va : ℕ
  pub trapframe_va : ℕ
  pub usyscall_va : ℕ
  pub trampoline : ℕ
  pub forkret : ℕ
  pub uvmcreate : Vm → ℕ × Vm
  pub uvmfree : Vm → (pagetable sz : ℕ) → Run Vm

-- `struct proc`: the fields that `growproc` knows, and the others that this code reads or writes. A
-- null pointer is 0.
pub record Process : Type 0 where
  pub proc : Proc
  pub state : ProcState
  pub chan : ℕ
  pub killed : ℕ
  pub xstate : ℕ
  pub pid : ℕ
  pub parent : ℕ
  pub kstack : ℕ
  pub trapframe : ℕ
  pub context : Context
  pub name : String
  pub usyscall : ℕ

-- `*(int *)a = v`
abbrev pub store_int : Vm → (a v : ℕ) → Vm
store_int vm a v = set_kernel vm (record vm.kernel {
  bytes = λ i.
      if leb a i
      then (if ltb i (a + 4) then v / 256 ^ (i - a) % 256 else vm.kernel.bytes i)
      else vm.kernel.bytes i;
})

module _ (m : Machine) (x : Around) where
  open m use {layout, mappages}
  open x use {
    Pids, allocpid, trampoline_va, trapframe_va, usyscall_va, trampoline, forkret, uvmcreate,
    uvmfree,
  }

  -- `uvmfree(pagetable, 0); return 0;`
  pub no_table : Vm → (pagetable : ℕ) → Run (ℕ × Vm)
  no_table vm t = uvmfree vm t 0 >>= λ vm1. ok (0, vm1)

  pub proc_pagetable : Process → Vm → Run (ℕ × Vm)
  unfolding no_table
  proc_pagetable p vm =
      let made = uvmcreate vm in
      let t = made.0 in
      if t == 0
      then ok (0, made.1)
      else (mappages made.1 t trampoline_va page_size trampoline
            (record no_flags { r = true; x = true })
          >>= λ m1.
              if not m1.0
              then no_table m1.1 t
              else (mappages m1.1 t trapframe_va page_size p.trapframe
                    (record no_flags { r = true; w = true })
                  >>= λ m2.
                      if not m2.0
                      then (uvmunmap m m2.1 t trampoline_va 1 false >>= λ vm1. no_table vm1 t)
                      else (mappages m2.1 t usyscall_va page_size p.usyscall
                            (record no_flags { r = true; u = true })
                          >>= λ m3.
                              if not m3.0
                              then (uvmunmap m m3.1 t usyscall_va 1 false >>= λ vm1.
                                  uvmunmap m vm1 t trampoline_va 1 false >>= λ vm2. no_table vm2 t)
                              else ok (t, m3.1))))

  pub proc_freepagetable : Vm → (pagetable sz : ℕ) → Run Vm
  proc_freepagetable vm t sz = uvmunmap m vm t trampoline_va 1 false >>= λ vm1.
      uvmunmap m vm1 t trapframe_va 1 false >>= λ vm2.
      uvmunmap m vm2 t usyscall_va 1 false >>= λ vm3. uvmfree vm3 t sz

  -- `if(page) kfree((void*)page);`
  pub free_page : (page : ℕ) → Vm → Run Vm
  free_page page vm =
      if page == 0 then ok vm else (kfree layout page vm.kernel >>= λ k. ok (set_kernel vm k))

  -- `if(p->pagetable) proc_freepagetable(p->pagetable, p->sz);`
  pub free_table : Proc → Vm → Run Vm
  unfolding proc_freepagetable
  free_table p vm = if p.pagetable == 0 then ok vm else proc_freepagetable vm p.pagetable p.sz

  pub freeproc : Process → Vm → Run (Process × Vm)
  unfolding free_page free_table
  freeproc p vm = free_page p.trapframe vm >>= λ vm1. free_page p.usyscall vm1 >>= λ vm2.
      free_table p.proc vm2 >>= λ vm3. ok (
        record p {
          proc = record p.proc { pagetable = 0; sz = 0; next = 0 };
          trapframe = 0;
          usyscall = 0;
          pid = 0;
          parent = 0;
          name = "";
          chan = 0;
          killed = 0;
          xstate = 0;
          state = unused;
        },
        vm3,
      )

  -- `freeproc(p); return 0;`
  pub give_up : Process → Vm → Pids → Run (Bool × Process × Vm × Pids)
  unfolding freeproc
  give_up p vm pids = freeproc p vm >>= λ r. ok (false, r.0, r.1, pids)

  -- From `found:` on, for the process in the slot: whether it returns the process.
  pub found : Process → Vm → Pids → Run (Bool × Process × Vm × Pids)
  unfolding give_up proc_pagetable
  found p0 vm pids =
      let pid = allocpid pids in
      let tf = kalloc vm.kernel in
      let vm1 = set_kernel vm tf.1 in
      let p1 = record p0 { pid = pid.0; state = used; trapframe = tf.0 } in
      let page = kalloc tf.1 in
      let vm2 = set_kernel vm page.1 in
      let p2 = record p1 { usyscall = page.0 } in
      if tf.0 == 0
      then give_up p1 vm1 pid.1
      else if page.0 == 0
      then give_up p2 vm2 pid.1
      else (proc_pagetable p2 (store_int vm2 page.0 p2.pid) >>= λ made.
          let p3 = record p2 { proc = record p2.proc { pagetable = made.0 } } in
          if made.0 == 0
          then give_up p3 made.1 pid.1
          else ok (
            true,
            record p3 {
              context = record { ra = forkret; sp = add64 p3.kstack page_size; others = λ i. 0 };
            },
            made.1,
            pid.1,
          ))

  abbrev pub next_index : Option ℕ → Option ℕ
  next_index none = none
  next_index (some i) = some (suc i)

  -- The loop over the process table: the index of the process that it returns.
  pub allocproc : List Process → Vm → Pids → Run (Option ℕ × List Process × Vm × Pids)
  unfolding found
  allocproc [] vm pids = ok (none, [], vm, pids)
  allocproc (p ∷ ps) vm pids =
      let rest = allocproc ps vm pids >>= λ r. ok (next_index r.0, p ∷ r.1, r.2, r.3) in
      elim p.state [
        | unused ↦ found p vm pids >>= λ r. ok (if r.0 then some 0 else none, r.1 ∷ ps, r.2, r.3)
        | used ↦ rest
        | other_state n ↦ rest
      ]
