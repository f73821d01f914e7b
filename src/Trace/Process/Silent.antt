-- ===== src/Trace/Process/Silent.antt =====
-- lab2, system call tracing: the calls of a process in a slot that `freeproc` has cleared.
use Prim.Native.String.{String}
use mit.Base.{
  ℕ, ◌^◌, ◌≡◌, refl, false, Option, none, some, List, [], ◌∷◌, map, ◌==◌, Ensures, Ensures-bind,
  Ensures-if, Ends, ◌∙◌,
}
use native.Mathlib.Nat.{zero-div}
use mathlib.Core.List.{append-nil}
use mit.Trace.{Proc, State, bit}
use mit.Trace.Calls.{head_of, selected, Known, Keeps, calls, calls-selected}
use mit.Trace.Process.{unused, Machine, Process, free_frame, free_table, freeproc}

-- The functions of xv6 end.
pub record MachineEnds (m : Machine) : Type 0 where
  pub kfree_ends : (p : ℕ) (k : m.Kernel) → Ends (m.kfree p k)
  pub freepagetable_ends :
      (t : m.Table) (sz : ℕ) (k : m.Kernel) → Ends (m.proc_freepagetable t sz k)

bit-zero : (num : ℕ) → bit 0 num ≡ false
bit-zero num = rw (zero-div (2 ^ num)) refl

selected-zero : (pid : ℕ) (nums : List ℕ) → selected pid 0 nums ≡ []
unfolding selected
selected-zero pid [] = refl
selected-zero pid (num ∷ nums) = rw (bit-zero num) (selected-zero pid nums)

-- The process `p` with another number and name.
abbrev pub renamed : (pid : ℕ) → (name : String) → Proc → Proc
renamed pid name p = record p { pid = pid; name = name }

module _ (argint : Proc → ℕ) (other : ℕ → State → ℕ × State) (keeps : Keeps other) (m : Machine)
    (ends : MachineEnds m) where
  calls-silent :
      (nums : List ℕ) (s : State)
      → Known nums
      → s.proc.traceid ≡ 0
      → map head_of (calls argint other nums s).log ≡ map head_of s.log
  calls-silent nums s known off =
      calls-selected argint other keeps nums s known
      ∙ rw (off, selected-zero s.proc.pid nums) (append-nil (map head_of s.log))

  free_frame-Ends : (trapframe : ℕ) (k : m.Kernel) → Ends (free_frame m trapframe k)
  unfolding free_frame
  free_frame-Ends trapframe k =
      Ensures-if (λ r. Unit) (trapframe == 0) _ _ (λ z. tt) (λ z. ends.kfree_ends trapframe k)

  free_table-Ends : (t : Option m.Table) (sz : ℕ) (k : m.Kernel) → Ends (free_table m t sz k)
  unfolding free_table
  free_table-Ends none sz k = tt
  free_table-Ends (some t) sz k = ends.freepagetable_ends t sz k

  -- Where `kfree` and `proc_freepagetable` end, `freeproc` ends, by a panic or with a value, and the
  -- slot is not in use. Whatever mask its process had, a process that is later in the slot, with any
  -- number and name, and with the mask that `freeproc` left there, makes its system calls (of those
  -- in the table, `trace` itself left out) without a line of `syscall` for them.
  pub freeproc-silent :
      (p : Process m) (k : m.Kernel) (pid : ℕ) (name : String) (nums : List ℕ) (s : State)
      → Known nums
      → Ensures (freeproc m p k) (λ r.
        let s1 : State = record s { proc = renamed pid name r.0.traced } in
        (r.0.state ≡ unused) × (map head_of (calls argint other nums s1).log ≡ map head_of s.log))
  unfolding freeproc
  freeproc-silent p k pid name nums s known =
      Ensures-bind (λ k1. Unit) _ (free_frame m p.trapframe k) _ (free_frame-Ends p.trapframe k)
        (λ k1 _.
          Ensures-bind (λ k2. Unit) _ (free_table m p.pagetable p.sz k1) _
            (free_table-Ends p.pagetable p.sz k1) (λ k2 _. (refl, calls-silent nums _ known refl)))
