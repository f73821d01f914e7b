-- ===== src/Trace/Process.antt =====
-- lab2, system call tracing: `freeproc` of xv6-labs-2024/lab2: syscall/1. system call tracing/kernal
-- (proc.c), which takes the mask of a process away with the process.
pub mod Silent
use Prim.Native.String.{String}
use mit.Base.{ℕ, Option, none, some, ◌==◌, if◌then◌else◌, Run, ok, ◌>>=◌}
use mit.Trace.{Proc}

pub data ProcState : Type 0 where
  unused : ProcState
  other_state : ℕ → ProcState

-- The allocator and the page tables of xv6.
pub record Machine : Type 1 where
  pub Kernel : Type 0
  pub Table : Type 0
  pub kfree : ℕ → Kernel → Run Kernel
  pub proc_freepagetable : Table → (sz : ℕ) → Kernel → Run Kernel

module _ (m : Machine) where
  open m use {Kernel, Table, kfree, proc_freepagetable}

  -- The fields of `struct proc` that `freeproc` writes; `traced` are those that `syscall` knows too.
  pub record Process : Type 0 where
    pub traced : Proc
    pub state : ProcState
    pub chan : ℕ
    pub killed : ℕ
    pub xstate : ℕ
    pub parent : ℕ
    pub sz : ℕ
    pub pagetable : Option Table
    pub trapframe : ℕ

  -- `if(p->trapframe) kfree((void*)p->trapframe);`
  pub free_frame : (trapframe : ℕ) → Kernel → Run Kernel
  free_frame trapframe k = if trapframe == 0 then ok k else kfree trapframe k

  -- `if(p->pagetable) proc_freepagetable(p->pagetable, p->sz);`
  pub free_table : Option Table → (sz : ℕ) → Kernel → Run Kernel
  free_table none sz k = ok k
  free_table (some t) sz k = proc_freepagetable t sz k

  pub freeproc : Process → Kernel → Run (Process × Kernel)
  unfolding free_frame free_table
  freeproc p k = free_frame p.trapframe k >>= λ k1. free_table p.pagetable p.sz k1 >>= λ k2. ok (
    record p {
      trapframe = 0;
      pagetable = none;
      sz = 0;
      traced = record p.traced { pid = 0; name = ""; traceid = 0 };
      parent = 0;
      chan = 0;
      killed = 0;
      xstate = 0;
      state = unused;
    },
    k2,
  )
