-- ===== src/Trace.antt =====
-- lab2, system call tracing: xv6-labs-2024/lab2: syscall/1. system call tracing/kernal (syscall.c,
-- syscall.h, sysproc.c, proc.h).
pub mod Table
pub mod Calls
pub mod Process
mod Tests
use Prim.Native.String.{String}
use mit.Base.{
  ℕ, suc, ◌+◌, ◌-◌, ◌/◌, ◌%◌, ◌^◌, Bool, Option, none, some, List, [], ◌∷◌, ◌++◌, ◌==◌, ltb, ◌&&◌,
  if◌then◌else◌, is_neg32, is_pos32, get_elem?,
}

-- The fields of `struct proc`, and of its trapframe, that this code reads or writes. `traceid` is
-- the bit pattern of an `int`.
pub record Proc : Type 0 where
  pub pid : ℕ
  pub name : String
  pub traceid : ℕ
  pub a0 : ℕ
  pub a7 : ℕ

-- The lines that `syscall` prints: a traced call with its name and result, or an unknown number.
pub data Line : Type 0 where
  traced : (pid : ℕ) → (name : Option String) → (result : ℕ) → Line
  unknown : (pid : ℕ) → (name : String) → (num : ℕ) → Line

-- The current process, and what `syscall` has printed.
pub record State : Type 0 where
  pub proc : Proc
  pub log : List Line

-- The array `names`.
abbrev pub names : List String
names =
    "fork" ∷ "exit" ∷ "wait" ∷ "pipe" ∷ "read" ∷ "kill" ∷ "exec" ∷ "fstat" ∷ "chdir" ∷ "dup"
    ∷ "getpid" ∷ "sbrk" ∷ "sleep" ∷ "uptime" ∷ "open" ∷ "write" ∷ "mknod" ∷ "unlink" ∷ "link"
    ∷ "mkdir" ∷ "close" ∷ "trace" ∷ []

-- `NELEM(syscalls)`: the entries 0 to 22 of the table, the first of which is empty.
abbrev pub entries : ℕ
entries = 23

-- `traceid & (1 << num)`
abbrev pub bit : ℕ → ℕ → Bool
bit traceid num = traceid / 2 ^ num % 2 == 1

abbrev pub set_proc : State → Proc → State
set_proc s p = record s { proc = p }

abbrev pub print : State → Line → State
print s l = record s { log = s.log ++ (l ∷ []) }

-- `n` is what `argint` fetches, the pattern of an `int`.
pub sys_trace : ℕ → State → ℕ × State
sys_trace n s = (0, set_proc s (record s.proc { traceid = if is_neg32 n then 0 else n }))

-- `argint` fetches the call's argument, and `other` stands for the other functions of the table.
module _ (argint : Proc → ℕ) (other : ℕ → State → ℕ × State) where
  pub syscalls : ℕ → State → ℕ × State
  unfolding sys_trace
  syscalls num s = if num == 22 then sys_trace (argint s.proc) s else other num s

  -- The number is the low half of `a7`, as an `int`.
  pub syscall : State → State
  unfolding syscalls
  syscall s =
      let num = s.proc.a7 % 2 ^ 32 in
      if is_pos32 num && ltb num entries
      then (let (r, s1) = syscalls num s in
          let s2 = set_proc s1 (record s1.proc { a0 = r }) in
          if bit s2.proc.traceid num
          then print s2 (traced s2.proc.pid (get_elem? names (num - 1)) s2.proc.a0)
          else s2)
      else (let s1 = print s (unknown s.proc.pid s.proc.name num) in
          set_proc s1 (record s1.proc { a0 = 2 ^ 64 - 1 }))
