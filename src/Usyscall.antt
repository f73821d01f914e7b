-- ===== src/Usyscall.antt =====
-- lab3, faster system calls: xv6-labs-2024/lab3: pgtbl/2. speed up system calls/kernel (proc.h and
-- the functions of proc.c that give a process the page it shares with the kernel).
pub mod Pagetable
pub mod Slots
mod Tests
use Prim.Native.String.{String}
use mit.Base.{
  ℕ, suc, ◌+◌, ◌^◌, ◌%◌, Bool, true, false, Option, none, some, List, [], ◌∷◌, ◌==◌, not,
  if◌then◌else◌, add64, Run, ok, ◌>>=◌,
}

-- PTE_R, PTE_W, PTE_X and PTE_U of an entry.
pub record Access : Type 0 where
  pub r : Bool
  pub w : Bool
  pub x : Bool
  pub u : Bool

-- What the kernel around these functions provides: the allocator, the page table code of vm.c, the
-- addresses of memlayout.h, and a store of an `int` to memory.
pub record Machine : Type 1 where
  pub Kernel : Type 0
  pub Table : Type 0
  pub trampoline_va : ℕ
  pub trapframe_va : ℕ
  pub usyscall_va : ℕ
  pub trampoline : ℕ
  pub forkret : ℕ
  pub allocpid : Kernel → ℕ × Kernel
  pub kalloc : Kernel → ℕ × Kernel
  pub kfree : ℕ → Kernel → Run Kernel
  pub store_int : ℕ → ℕ → Kernel → Kernel
  pub uvmcreate : Kernel → Option Table × Kernel
  pub mappages : Table → (va pa : ℕ) → Access → Kernel → Run (Bool × Table × Kernel)
  pub uvmunmap : Table → (va : ℕ) → Kernel → Run (Table × Kernel)
  pub uvmfree : Table → (sz : ℕ) → Kernel → Run Kernel

pub data ProcState : Type 0 where
  unused : ProcState
  used : ProcState
  other_state : ℕ → ProcState

-- The saved registers `ra` and `sp`, and the others.
pub record Context : Type 0 where
  pub ra : ℕ
  pub sp : ℕ
  pub others : ℕ → ℕ

module _ (m : Machine) where
  open m use {
    Kernel, Table, trampoline_va, trapframe_va, usyscall_va, trampoline, forkret, allocpid, kalloc,
    kfree, store_int, uvmcreate, mappages, uvmunmap, uvmfree,
  }

  -- The fields of `struct proc` that this code reads or writes.
  pub record Proc : Type 0 where
    pub state : ProcState
    pub chan : ℕ
    pub killed : ℕ
    pub xstate : ℕ
    pub pid : ℕ
    pub parent : ℕ
    pub kstack : ℕ
    pub sz : ℕ
    pub pagetable : Option Table
    pub trapframe : ℕ
    pub context : Context
    pub name : String
    pub usyscall : ℕ

  pub proc_pagetable : Proc → Kernel → Run (Option Table × Kernel)
  proc_pagetable p k =
      let created = uvmcreate k in
      elim created.0 [
        | none ↦ ok (none, created.1)
        | some t ↦
            mappages t trampoline_va trampoline
              (record { r = true; w = false; x = true; u = false }) created.1
            >>= λ m1.
                if not m1.0
                then (uvmfree m1.1 0 m1.2 >>= λ k1. ok (none, k1))
                else (mappages m1.1 trapframe_va p.trapframe
                      (record { r = true; w = true; x = false; u = false }) m1.2
                    >>= λ m2.
                        if not m2.0
                        then (uvmunmap m2.1 trampoline_va m2.2 >>= λ u1.
                            uvmfree u1.0 0 u1.1 >>= λ k1. ok (none, k1))
                        else (mappages m2.1 usyscall_va p.usyscall
                              (record { r = true; w = false; x = false; u = true }) m2.2
                            >>= λ m3.
                                if not m3.0
                                then (uvmunmap m3.1 usyscall_va m3.2 >>= λ u1.
                                    uvmunmap u1.0 trampoline_va u1.1 >>= λ u2.
                                    uvmfree u2.0 0 u2.1 >>= λ k1. ok (none, k1))
                                else ok (some m3.1, m3.2)))
      ]

  pub proc_freepagetable : Table → ℕ → Kernel → Run Kernel
  proc_freepagetable t sz k = uvmunmap t trampoline_va k >>= λ u1.
      uvmunmap u1.0 trapframe_va u1.1 >>= λ u2.
      uvmunmap u2.0 usyscall_va u2.1 >>= λ u3. uvmfree u3.0 sz u3.1

  -- `if(page) kfree(page);`
  free_page : ℕ → Kernel → Run Kernel
  free_page page k = if page == 0 then ok k else kfree page k

  free_table : Option Table → ℕ → Kernel → Run Kernel
  free_table none sz k = ok k
  free_table (some t) sz k = proc_freepagetable t sz k

  pub freeproc : Proc → Kernel → Run (Proc × Kernel)
  unfolding free_page free_table
  freeproc p k = free_page p.trapframe k >>= λ k1. free_page p.usyscall k1 >>= λ k2.
      free_table p.pagetable p.sz k2 >>= λ k3. ok (
        record p {
          trapframe = 0;
          usyscall = 0;
          pagetable = none;
          sz = 0;
          pid = 0;
          parent = 0;
          name = "";
          chan = 0;
          killed = 0;
          xstate = 0;
          state = unused;
        },
        k3,
      )

  -- `freeproc(p); return 0;`
  give_up : Proc → Kernel → Run (Bool × Proc × Kernel)
  give_up p k = freeproc p k >>= λ r. ok (false, r.0, r.1)

  -- From `found:` on, for the process in the slot: whether it returns the process.
  pub found : Proc → Kernel → Run (Bool × Proc × Kernel)
  unfolding give_up
  found p0 k0 =
      let pid = allocpid k0 in
      let tf = kalloc pid.1 in
      let p = record p0 { pid = pid.0; state = used; trapframe = tf.0 } in
      if tf.0 == 0
      then give_up p tf.1
      else (let page = kalloc tf.1 in
          let p1 = record p { usyscall = page.0 } in
          if page.0 == 0
          then give_up p1 page.1
          else (proc_pagetable p1 (store_int page.0 p1.pid page.1) >>= λ made.
              let p2 = record p1 { pagetable = made.0 } in
              elim made.0 [
                | none ↦ give_up p2 made.1
                | some t ↦ ok (
                  true,
                  record p2 {
                    context = record { ra = forkret; sp = add64 p2.kstack 4096; others = λ i. 0 };
                  },
                  made.1,
                )
              ]))

  abbrev pub next_index : Option ℕ → Option ℕ
  next_index none = none
  next_index (some i) = some (suc i)

  -- The loop over the process table: the index of the process that it returns.
  pub allocproc : List Proc → Kernel → Run (Option ℕ × List Proc × Kernel)
  allocproc [] k = ok (none, [], k)
  allocproc (p ∷ ps) k = elim p.state [
    | unused ↦ found p k >>= λ r. ok (if r.0 then some 0 else none, r.1 ∷ ps, r.2)
    | used ↦ allocproc ps k >>= λ r. ok (next_index r.0, p ∷ r.1, r.2)
    | other_state n ↦ allocproc ps k >>= λ r. ok (next_index r.0, p ∷ r.1, r.2)
  ]
