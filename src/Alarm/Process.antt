-- ===== src/Alarm/Process.antt =====
-- lab4, alarm, proc.c: how a process gets its trapframes and its alarm's fields: `allocproc` and
-- `freeproc`. The allocator and the page table code are the record `Machine`.
pub mod Quiet
mod Tests
use Prim.Native.String.{String}
use mit.Base.{
  ℕ, suc, Bool, true, false, Option, none, some, List, [], ◌∷◌, ◌==◌, if◌then◌else◌, add64, Run, ok,
  ◌>>=◌,
}
use mit.Alarm.{Proc}

pub data ProcState : Type 0 where
  unused : ProcState
  used : ProcState
  other_state : ℕ → ProcState

-- The saved registers `ra` and `sp`, and the others.
pub record Context : Type 0 where
  pub ra : ℕ
  pub sp : ℕ
  pub others : ℕ → ℕ

-- The fields of `struct proc`, of which `alarm` has those that the traps use.
pub record Process (Table : Type 0) : Type 0 where
  pub alarm : Proc
  pub state : ProcState
  pub chan : ℕ
  pub xstate : ℕ
  pub pid : ℕ
  pub parent : ℕ
  pub kstack : ℕ
  pub sz : ℕ
  pub pagetable : Option Table
  pub context : Context
  pub name : String

pub record Machine : Type 1 where
  pub Kernel : Type 0
  pub Table : Type 0
  pub forkret : ℕ
  pub allocpid : Kernel → ℕ × Kernel
  pub kalloc : Kernel → ℕ × Kernel
  pub kfree : ℕ → Kernel → Run Kernel
  pub proc_pagetable : Process Table → Kernel → Run (Option Table × Kernel)
  pub proc_freepagetable : Table → (sz : ℕ) → Kernel → Run Kernel

module _ (m : Machine) where
  open m use {Kernel, Table, forkret, allocpid, kalloc, kfree, proc_pagetable, proc_freepagetable}

  -- `if(page) kfree(page);`
  free_frame : ℕ → Kernel → Run Kernel
  free_frame page k = if page == 0 then ok k else kfree page k

  free_space : Option Table → ℕ → Kernel → Run Kernel
  free_space none sz k = ok k
  free_space (some t) sz k = proc_freepagetable t sz k

  -- The fields that `freeproc` clears. It leaves those of the alarm but for its page.
  abbrev pub clear_proc : Process Table → Process Table
  clear_proc p = record p {
    alarm = record p.alarm { trapframe = 0; originaltrapframe = 0; killed = false };
    pagetable = none;
    sz = 0;
    pid = 0;
    parent = 0;
    name = "";
    chan = 0;
    xstate = 0;
    state = unused;
  }

  pub freeproc : Process Table → Kernel → Run (Process Table × Kernel)
  unfolding free_frame free_space
  freeproc p k = free_frame p.alarm.trapframe k >>= λ k1.
      free_frame p.alarm.originaltrapframe k1 >>= λ k2.
      free_space p.pagetable p.sz k2 >>= λ k3. ok (clear_proc p, k3)

  -- `freeproc(p); return 0;`
  give_up : Process Table → Kernel → Run (Bool × Process Table × Kernel)
  give_up p k = freeproc p k >>= λ r. ok (false, r.0, r.1)

  -- The end of `allocproc`: the context, and an alarm that is not set.
  abbrev pub set_up : Process Table → Process Table
  set_up p = record p {
    context = record { ra = forkret; sp = add64 p.kstack 4096; others = λ i. 0 };
    alarm = record p.alarm { ticks = 0; tickcount = 0; run = 0 };
  }

  -- From `found:` on: whether it returns the process.
  pub found : Process Table → Kernel → Run (Bool × Process Table × Kernel)
  found p0 k0 =
      let pid = allocpid k0 in
      let tf = kalloc pid.1 in
      let p = record p0 {
        pid = pid.0;
        state = used;
        alarm = record p0.alarm { trapframe = tf.0 };
      } in
      if tf.0 == 0
      then give_up p tf.1
      else (let saved = kalloc tf.1 in
          let p1 = record p { alarm = record p.alarm { originaltrapframe = saved.0 } } in
          if saved.0 == 0
          then give_up p1 saved.1
          else (proc_pagetable p1 saved.1 >>= λ made.
              let p2 = record p1 { pagetable = made.0 } in
              elim made.0 [ none ↦ give_up p2 made.1 | some t ↦ ok (true, set_up p2, made.1) ]))

  abbrev pub next_index : Option ℕ → Option ℕ
  next_index none = none
  next_index (some i) = some (suc i)

  -- The loop over the process table: the index of the process that it returns.
  pub allocproc : List (Process Table) → Kernel → Run (Option ℕ × List (Process Table) × Kernel)
  allocproc [] k = ok (none, [], k)
  allocproc (p ∷ ps) k = elim p.state [
    | unused ↦ found p k >>= λ r. ok (if r.0 then some 0 else none, r.1 ∷ ps, r.2)
    | used ↦ allocproc ps k >>= λ r. ok (next_index r.0, p ∷ r.1, r.2)
    | other_state n ↦ allocproc ps k >>= λ r. ok (next_index r.0, p ∷ r.1, r.2)
  ]
