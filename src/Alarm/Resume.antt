-- ===== src/Alarm/Resume.antt =====
-- lab4, trap.c and sysproc.c: the traps from a handler's start to `sigreturn`.
use mathlib.Core.Path.{subst}
use mit.Base.{
  ◌-◌, ◌%◌, ◌^◌, ◌⊎◌, sym, refl, true, Bool-cases, is_pos32, none, ℕ, ◌+◌, ◌≡◌, ◌≢◌, Option-cases,
  inl, inr, false, Option, some, arith, add64,
}
use mit.Alarm.{
  Trapframe, State, Trap, to_user, frame, saved, set_frame, on_timer, setkilled, sys_sigalarm,
  sys_sigreturn, finish, syscalls, usertrap, call_handler,
}
use mit.Alarm.Timer.{IsArmed}

-- A handler runs, and the frame that `sigreturn` will restore is `o`.
pub record InHandler (o : Trapframe) (s : State) : Type 0 where
  pub apart : s.proc.trapframe ≢ s.proc.originaltrapframe
  pub running : s.proc.run ≢ 0
  pub kept : saved s ≡ o

-- The number of a system call.
abbrev pub number : State → ℕ
number s = (frame s).a7 % 2 ^ 32

set_frame-InHandler : (o f : Trapframe) (s : State) → InHandler o s → InHandler o (set_frame s f)
set_frame-InHandler o f s h = ground arith

-- The alarm does not fire again while its handler runs.
on_timer-running : (s : State) → s.proc.run ≢ 0 → on_timer s ≡ s
unfolding on_timer
on_timer-running s h = ground arith

fired-InHandler :
    (f : Trapframe) (s : State)
    → IsArmed s
    → s.proc.tickcount + 1 ≡ s.proc.ticks
    → InHandler f (on_timer (set_frame s f))
unfolding on_timer call_handler
fired-InHandler f s a h = ground arith

-- What xv6's `syscall` does, over the table of system calls: it takes the number, an `int`, from the
-- low half of `a7`, calls the entry and leaves its result in `a0`; without an entry it leaves -1.
pub record Dispatches (syscall : (ℕ → State → Option (ℕ × State)) → State → State) : Type 0 where
  pub known :
      (table : ℕ → State → Option (ℕ × State)) (r : ℕ) (s s' : State)
      → is_pos32 (number s) ≡ true
      → table (number s) s ≡ some (r, s')
      → syscall table s ≡ set_frame s' (record (frame s') { a0 = r })
  pub unknown :
      (table : ℕ → State → Option (ℕ × State)) (s : State)
      → (is_pos32 (number s) ≡ false) ⊎ (table (number s) s ≡ none)
      → syscall table s ≡ set_frame s (record (frame s) { a0 = 2 ^ 64 - 1 })

-- The other system calls keep the alarm's fields and the saved frame.
abbrev pub Keeps : (ℕ → State → Option (ℕ × State)) → Type 0
Keeps other =
    (o : Trapframe) (num r : ℕ) (s s' : State)
    → InHandler o s
    → other num s ≡ some (r, s')
    → InHandler o s'

module _ (argint argaddr : ℕ → Trapframe → ℕ) (other : ℕ → State → Option (ℕ × State))
    (keeps : Keeps other) (syscall : (ℕ → State → Option (ℕ × State)) → State → State)
    (dispatches : Dispatches syscall) where
  -- The table of system calls.
  abbrev table : ℕ → State → Option (ℕ × State)
  table = syscalls argint argaddr other

  table-InHandler :
      (o : Trapframe) (num r : ℕ) (s s' : State)
      → num ≢ 23
      → InHandler o s
      → table num s ≡ some (r, s')
      → InHandler o s'
  unfolding syscalls sys_sigalarm
  table-InHandler o num r s s' n h e = ground (arith, keeps o num r s s' h)

  syscall-InHandler :
      (o : Trapframe) (s : State) → number s ≢ 23 → InHandler o s → InHandler o (syscall table s)
  syscall-InHandler o s n h =
      let none_InHandler = λ (u : (is_pos32 (number s) ≡ false) ⊎ (table (number s) s ≡ none)).
        subst (InHandler o) (sym (dispatches.unknown table s u))
          (set_frame-InHandler o (record (frame s) { a0 = 2 ^ 64 - 1 }) s h) in
      elim (Bool-cases (is_pos32 (number s))) [
        | inr neg ↦ none_InHandler (inl neg)
        | inl pos ↦ elim (Option-cases (table (number s) s)) [
          | inl e ↦ none_InHandler (inr e)
          | inr ((r, s'), e) ↦ subst (InHandler o) (sym (dispatches.known table r s s' pos e)) (
              set_frame-InHandler o (record (frame s') { a0 = r }) s'
                (table-InHandler o (number s) r s s' n h e))
        ]
      ]

  finish-InHandler :
      (o : Trapframe) (dev : ℕ) (s s' : State)
      → InHandler o s
      → finish argint argaddr other syscall dev s ≡ to_user s'
      → InHandler o s'
  unfolding finish
  finish-InHandler o dev s s' h e = ground (arith, on_timer-running s h.running)

  -- A trap that user code takes with the registers `f`, other than the call of `sigreturn`.
  pub data Step (s : State) : State → Type 0 where
    trap :
        (t : Trap) (f : Trapframe) {s' : State}
        → (t.scause ≡ 8 → f.a7 % 2 ^ 32 ≢ 23)
        → usertrap argint argaddr other syscall t (set_frame s f) ≡ to_user s'
        → Step s s'

  pub data Reach (s : State) : State → Type 0 where
    here : Reach s s
    next : {t u : State} → Reach s t → Step t u → Reach s u

  Step-InHandler : (o : Trapframe) {s s' : State} → Step s s' → InHandler o s → InHandler o s'
  unfolding usertrap setkilled
  Step-InHandler o {s} {s'} (trap t f n e) h =
      let s1 = set_frame s (record f { epc = t.sepc }) in
      let s2 = set_frame s (record f { epc = add64 t.sepc 4 }) in
      let s3 = syscall table s2 in
      ground (
        arith,
        finish-InHandler o 0 s3 s',
        finish-InHandler o t.dev s1 s',
        finish-InHandler o 0 (setkilled s1) s',
        syscall-InHandler o s2,
        set_frame-InHandler o (record f { epc = t.sepc }) s h,
        set_frame-InHandler o (record f { epc = add64 t.sepc 4 }) s h,
      )

  Reach-InHandler : (o : Trapframe) {s s' : State} → InHandler o s → Reach s s' → InHandler o s'
  Reach-InHandler o h here = h
  Reach-InHandler o h (next r st) = Step-InHandler o st (Reach-InHandler o h r)

  usertrap-sigreturn :
      (o f : Trapframe) (t : Trap) (s : State)
      → InHandler o s
      → s.proc.killed ≡ false
      → t.from_supervisor ≡ false
      → t.scause ≡ 8
      → f.a7 % 2 ^ 32 ≡ 23
      → (s' : State) × (usertrap argint argaddr other syscall t (set_frame s f) ≡ to_user s')
        × (frame s' ≡ o)
        × (s'.proc.run ≡ 0)
  unfolding usertrap finish sys_sigreturn syscalls
  usertrap-sigreturn o f t s h live user ecall num =
      let s1 = set_frame s (record f { epc = add64 t.sepc 4 }) in
      let (r, s2) = sys_sigreturn s1 in
      let at : number s1 ≡ 23 = ground (arith, num) in
      let called : syscall table s1 ≡ set_frame s2 (record (frame s2) { a0 = r }) =
        dispatches.known table r s1 s2 (rw at refl) (rw at refl) in
      (
        set_frame s2 (record (frame s2) { a0 = r }),
        ground (arith, called),
        ground arith,
        ground arith,
      )

  -- From the interrupt that completes the interval, through any traps that the handler takes (timer
  -- interrupts among them) while the process is not ended, to its call of `sigreturn`: the process
  -- then returns to user space with exactly the registers it was interrupted with, and the alarm
  -- may fire again. `syscall` of xv6 is assumed to call the entry of the table that the low half of
  -- `a7` numbers, and the other entries to keep the saved frame.
  pub resume :
      (f g : Trapframe) (s s' : State) (t : Trap)
      → IsArmed s
      → s.proc.tickcount + 1 ≡ s.proc.ticks
      → Reach (on_timer (set_frame s f)) s'
      → s'.proc.killed ≡ false
      → t.from_supervisor ≡ false
      → t.scause ≡ 8
      → g.a7 % 2 ^ 32 ≡ 23
      → (s'' : State) × (usertrap argint argaddr other syscall t (set_frame s' g) ≡ to_user s'')
        × (frame s'' ≡ f)
        × (s''.proc.run ≡ 0)
  resume f g s s' t a due r live user ecall num =
      usertrap-sigreturn f g t s' (Reach-InHandler f (fired-InHandler f s a due) r) live user ecall
        num

  -- While a handler runs, no trap other than its `sigreturn`, a system call with 23 in the low half of
  -- `a7`, enters the handler again: the saved frame and the mark stay. `syscall` and the other
  -- entries are as for `resume`.
  pub no_reentry :
      (o : Trapframe) {s s' : State}
      → InHandler o s
      → Reach s s'
      → (s'.proc.run ≢ 0) × (saved s' ≡ o) × (on_timer s' ≡ s')
  no_reentry o {s' = s'} h r =
      let i = Reach-InHandler o h r in (i.running, i.kept, on_timer-running s' i.running)
