-- ===== src/Attack/Fork.antt =====
-- lab2, attack: `fork` of xv6-labs-2024/lab2: syscall/2. attack xv6/kernal/proc.c, over the table of
-- processes, the copy of the memory, and the references to open files, which are xv6's.
pub mod Files
pub mod Child
mod Tests
use Prim.Native.String.{String}
use mit.Base.{
  ℕ, zero, suc, ◌-◌, ◌^◌, Bool, true, false, Option, none, some, ◌==◌, not, if◌then◌else◌, update,
  Run, ok, ◌>>=◌,
}

-- The saved registers of a process.
pub record Frame : Type 0 where
  pub a0 : ℕ
  pub others : ℕ → ℕ

pub data ProcState : Type 0 where
  used : ProcState
  runnable : ProcState
  other_state : ℕ → ProcState

-- `NOFILE` of param.h.
abbrev pub nofile : ℕ
nofile = 16

-- The result -1, of an int.
abbrev pub minus_one : ℕ
minus_one = 2 ^ 32 - 1

module _ (Table : Type 0) where
  -- The fields of `struct proc` that `fork` reads or writes. A file or a directory is a pointer, 0
  -- for none; `trapframe` is what the process's pointer leads to.
  pub record Process : Type 0 where
    pub state : ProcState
    pub pid : ℕ
    pub parent : ℕ
    pub sz : ℕ
    pub pagetable : Table
    pub trapframe : Frame
    pub ofile : ℕ → ℕ
    pub cwd : ℕ
    pub name : String
    pub traceid : ℕ

-- What `fork` calls: `allocproc`, `freeproc`, `uvmcopy` (whether it returned 0), `filedup` and
-- `idup`, and `safestrcpy` (what it leaves in an array of `n` bytes).
pub record Machine : Type 1 where
  pub Table : Type 0
  pub Kernel : Type 0
  pub Files : Type 0
  pub allocproc : Kernel → Run (Option (Process Table) × Kernel)
  pub freeproc : Process Table → Kernel → Run Kernel
  pub uvmcopy : (old new : Table) → (sz : ℕ) → Kernel → Run (Bool × Table × Kernel)
  pub filedup : ℕ → Files → ℕ × Files
  pub idup : ℕ → Files → ℕ × Files
  pub safestrcpy : (t : String) → (n : ℕ) → String

-- What `fork` returns, the child, and what it leaves.
pub record Outcome (m : Machine) : Type 0 where
  pub result : ℕ
  pub child : Option (Process m.Table)
  pub kernel : m.Kernel
  pub files : m.Files

module _ (m : Machine) where
  open m use {Table, Kernel, Files, allocproc, freeproc, uvmcopy, filedup, idup, safestrcpy}

  -- The loop over the open files, for the last `count` of them.
  pub dup_loop : (count : ℕ) → (ofile child : ℕ → ℕ) → Files → (ℕ → ℕ) × Files
  dup_loop zero ofile child files = (child, files)
  dup_loop (suc count) ofile child files =
      let i = nofile - suc count in
      let d = filedup (ofile i) files in
      if not (ofile i == 0)
      then dup_loop count ofile (update child i d.0) d.1
      else dup_loop count ofile child files

  -- From `np->sz = p->sz;` on. The process `p` lies at the address `self`.
  pub give_child : (self : ℕ) → (p np : Process Table) → Kernel → Files → Outcome m
  unfolding dup_loop
  give_child self p np k files =
      let dup = dup_loop nofile p.ofile np.ofile files in
      let cwd = idup p.cwd dup.1 in
      record {
        result = np.pid;
        child = some (record np {
          sz = p.sz;
          trapframe = record p.trapframe { a0 = 0 };
          ofile = dup.0;
          cwd = cwd.0;
          name = safestrcpy p.name 16;
          traceid = p.traceid;
          parent = self;
          state = runnable;
        });
        kernel = k;
        files = cwd.1;
      }

  pub fork : (self : ℕ) → Process Table → Kernel → Files → Run (Outcome m)
  unfolding give_child
  fork self p k files = allocproc k >>= λ a. elim a.0 [
    | none ↦ ok (record { result = minus_one; child = none; kernel = a.1; files = files })
    | some np ↦ uvmcopy p.pagetable np.pagetable p.sz a.1 >>= λ c.
        let np1 = record np { pagetable = c.1 } in
        if not c.0
        then (freeproc np1 c.2 >>= λ k1.
            ok (record { result = minus_one; child = none; kernel = k1; files = files }))
        else ok (give_child self p np1 c.2 files)
  ]
