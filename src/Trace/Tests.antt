-- ===== src/Trace/Tests.antt =====
-- Runs of the tracing, and its theorems at them.
use mit.Base.{
  ℕ, ◌-◌, ◌≡◌, refl, some, [], ◌∷◌, ◌++◌, map, ◌+◌, none, ok, Ensures, arith, get_elem?, is_neg32,
  if◌then◌else◌,
}
use mit.Trace.{Proc, State, unknown, names, sys_trace, syscall}
use mit.Trace.Table.{sys_numbers, call_of, names-call_of}
use mit.Trace.Process.{Machine, Process, unused, other_state, freeproc}
use mit.Trace.Process.Silent.{MachineEnds, renamed, freeproc-silent}
use mit.Trace.Calls.{head_of, reported, Keeps, calls, sys_trace-calls}

abbrev shell : Proc
shell = record { pid = 3; name = "grep"; traceid = 0; a0 = 0; a7 = 0 }

abbrev start : State
start = record { proc = shell; log = [] }

abbrev no_arg : Proc → ℕ
no_arg p = p.a0

abbrev result_is_number : ℕ → State → ℕ × State
result_is_number num s = (num, s)

result_is_number-Keeps : Keeps result_is_number
result_is_number-Keeps num s = (refl, refl, refl)

-- `trace 32 grep hello README` of the lab's text reports the reads alone.
trace_32_reads :
    map head_of
      (calls no_arg result_is_number (7 ∷ 15 ∷ 5 ∷ 5 ∷ 21 ∷ []) (sys_trace 32 start).1).log
    ≡ (3, some "read") ∷ (3, some "read") ∷ []
unfolding syscall sys_trace
trace_32_reads = refl

fifth_name : get_elem? names (5 - 1) ≡ call_of 5 sys_numbers
fifth_name = names-call_of 5 (omega arith) (omega arith)

sys_trace-calls_example :
    map head_of (calls no_arg result_is_number (15 ∷ 5 ∷ []) (sys_trace 32 start).1).log
    ≡ map head_of start.log ++ reported 3 (if is_neg32 32 then 0 else 32) (15 ∷ 5 ∷ [])
sys_trace-calls_example =
    sys_trace-calls no_arg result_is_number result_is_number-Keeps 32 (15 ∷ 5 ∷ []) start
      (omega arith)

abbrev bad_call : State
bad_call = record start { proc = record shell { a7 = 99 } }

-- An unknown number.
bad_call_log : (syscall no_arg result_is_number bad_call).log ≡ unknown 3 "grep" 99 ∷ []
unfolding syscall
bad_call_log = refl

-- A process whose mask is that of `read`, with a trapframe and no page table.
abbrev counting : Machine
counting = record {
  Kernel = ℕ;
  Table = ℕ;
  kfree = λ p k. ok (k + 1);
  proc_freepagetable = λ t sz k. ok k;
}

counting-MachineEnds : MachineEnds counting
counting-MachineEnds = record { kfree_ends = λ p k. tt; freepagetable_ends = λ t sz k. tt }

abbrev masked : Process counting
masked = record {
  traced = record shell { traceid = 32 };
  state = other_state 5;
  chan = 0;
  killed = 0;
  xstate = 0;
  parent = 0x9000;
  sz = 0x1000;
  pagetable = none;
  trapframe = 0x8000;
}

freeproc-silent_example : Ensures (freeproc counting masked 3) (λ r.
    let s1 : State = record start { proc = renamed 4 "ls" r.0.traced } in
    (r.0.state ≡ unused)
    × (map head_of (calls no_arg result_is_number (5 ∷ 5 ∷ []) s1).log ≡ map head_of start.log))
freeproc-silent_example =
    freeproc-silent no_arg result_is_number result_is_number-Keeps counting counting-MachineEnds
      masked 3 4 "ls" (5 ∷ 5 ∷ []) start (omega arith)
