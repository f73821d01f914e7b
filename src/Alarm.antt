-- ===== src/Alarm.antt =====
-- lab4, alarm: xv6-labs-2024/lab4: traps/3. alarm/kernel (trap.c, sysproc.c, syscall.c, proc.h).
-- The periodic alarm of one process: `sigalarm` sets it, the timer interrupt in `usertrap` counts
-- and redirects the process to its handler, `sigreturn` resumes what was interrupted.
pub mod Timer
pub mod Resume
pub mod Process
mod Tests
use mit.Base.{
  ℕ, ◌-◌, ◌^◌, Bool, true, Option, none, some, ◌==◌, ltb, if◌then◌else◌, update, add64, inc32,
  is_neg32, is_pos32, ◌||◌, ◌&&◌, not,
}

-- `struct trapframe`: the saved user registers, of which the kernel names three.
pub record Trapframe : Type 0 where
  pub epc : ℕ
  pub a0 : ℕ
  pub a7 : ℕ
  pub others : ℕ → ℕ

-- The fields of `struct proc` that this code reads or writes. `trapframe` and
-- `originaltrapframe` are the addresses of two pages.
pub record Proc : Type 0 where
  pub killed : Bool
  pub trapframe : ℕ
  pub ticks : ℕ
  pub tickcount : ℕ
  pub handler : ℕ
  pub originaltrapframe : ℕ
  pub run : ℕ

-- The process with the memory that its trapframe pointers lead into.
pub record State : Type 0 where
  pub proc : Proc
  pub frames : ℕ → Trapframe

abbrev pub frame : State → Trapframe
frame s = s.frames s.proc.trapframe

abbrev pub saved : State → Trapframe
saved s = s.frames s.proc.originaltrapframe

abbrev pub set_frame : State → Trapframe → State
set_frame s f = record s { frames = update s.frames s.proc.trapframe f }

abbrev pub set_proc : State → Proc → State
set_proc s p = record s { proc = p }

-- What the hardware reports of a trap: the privilege it came from, the program counter, the cause,
-- and what `devintr` makes of it (2 for the timer, 1 for another device, 0 for neither).
pub record Trap : Type 0 where
  pub from_supervisor : Bool
  pub sepc : ℕ
  pub scause : ℕ
  pub dev : ℕ

-- How `usertrap` ends: it returns to user space, the process exits, or the kernel panics.
pub data Outcome : Type 0 where
  to_user : State → Outcome
  exited : State → Outcome
  panic : Outcome

pub setkilled : State → State
setkilled s = set_proc s (record s.proc { killed = true })

-- `memmove(p->originaltrapframe, p->trapframe, …); p->trapframe->epc = p->handler`
pub call_handler : State → State
call_handler s =
    let s1 = record s { frames = update s.frames s.proc.originaltrapframe (frame s) } in
    set_frame s1 (record (frame s1) { epc = s.proc.handler })

-- The timer branch of `usertrap`, before `yield`.
pub on_timer : State → State
unfolding call_handler
on_timer s =
    if is_pos32 s.proc.ticks && (s.proc.run == 0)
    then (let count = inc32 s.proc.tickcount in
        if count == s.proc.ticks
        then call_handler (set_proc s (record s.proc { tickcount = 0; run = 1 }))
        else set_proc s (record s.proc { tickcount = count }))
    else s

-- A system call gives the value for `a0` and the new state. `fnaddr < 0` compares an unsigned
-- number and never holds.
pub sys_sigalarm : (ticks fnaddr : ℕ) → State → ℕ × State
sys_sigalarm ticks fnaddr s =
    if is_neg32 ticks || ltb fnaddr 0
    then (2 ^ 64 - 1, s)
    else (0, set_proc s (record s.proc { ticks = ticks; handler = fnaddr }))

pub sys_sigreturn : State → ℕ × State
sys_sigreturn s =
    let s1 = set_frame s (saved s) in
    let s2 = set_proc s1 (record s1.proc { run = 0 }) in ((frame s2).a0, s2)

-- `argint` and `argaddr` fetch an argument from the trapframe. `other` is the rest of the table of
-- system calls; `none` is a number without an entry.
module _ (argint argaddr : ℕ → Trapframe → ℕ) (other : ℕ → State → Option (ℕ × State)) where
  -- The table `syscalls`.
  pub syscalls : ℕ → State → Option (ℕ × State)
  unfolding sys_sigalarm sys_sigreturn
  syscalls num s =
      if num == 22
      then some (sys_sigalarm (argint 0 (frame s)) (argaddr 1 (frame s)) s)
      else if num == 23
      then some (sys_sigreturn s)
      else other num s

-- `syscall` is xv6's, over the table.
module _ (argint argaddr : ℕ → Trapframe → ℕ) (other : ℕ → State → Option (ℕ × State))
    (syscall : (ℕ → State → Option (ℕ × State)) → State → State) where
  -- From `if(killed(p)) exit(-1);` to `usertrapret()`.
  finish : ℕ → State → Outcome
  unfolding on_timer
  finish which_dev s =
      if s.proc.killed then exited s else to_user (if which_dev == 2 then on_timer s else s)

  pub usertrap : Trap → State → Outcome
  unfolding finish syscalls setkilled
  usertrap t s =
      let s1 = set_frame s (record (frame s) { epc = t.sepc }) in
      if t.from_supervisor
      then panic
      else if t.scause == 8
      then (if s1.proc.killed
          then exited s1
          else finish 0 (
              syscall (syscalls argint argaddr other)
                (set_frame s1 (record (frame s1) { epc = add64 t.sepc 4 }))))
      else if not (t.dev == 0)
      then finish t.dev s1
      else finish 0 (setkilled s1)
