-- ===== src/Alarm/Timer.antt =====
-- The interval of the alarm: which timer interrupts start the handler.
use mit.Base.{
  ℕ, ◌+◌, ◌^◌, ◌≤◌, ◌<◌, ◌≡◌, ◌≢◌, ◌⊎◌, inl, inr, false, Option, refl, List, [], ◌∷◌, length, arith,
}
use mit.Alarm.{
  Trapframe, State, Trap, to_user, frame, saved, set_frame, set_proc, call_handler, on_timer,
  sys_sigalarm, usertrap,
}

-- The process runs in user space and is interrupted by the timer, once for each item: the item
-- holds its registers at the interrupt.
abbrev pub timers : List Trapframe → State → State
timers [] s = s
timers (f ∷ fs) s = timers fs (on_timer (set_frame s f))

-- The two frames are two pages, the alarm is set, and no handler runs.
pub record IsArmed (s : State) : Type 0 where
  pub apart : s.proc.trapframe ≢ s.proc.originaltrapframe
  pub idle : s.proc.run ≡ 0
  pub positive : 0 < s.proc.ticks
  pub int : s.proc.ticks < 2 ^ 31

-- A timer interrupt of a live process, through all of `usertrap`.
pub usertrap-timer :
    (argint argaddr : ℕ → Trapframe → ℕ) (other : ℕ → State → Option (ℕ × State))
    (syscall : (ℕ → State → Option (ℕ × State)) → State → State) (t : Trap) (s : State)
    → t.from_supervisor ≡ false
    → t.scause ≢ 8
    → t.dev ≡ 2
    → s.proc.killed ≡ false
    → usertrap argint argaddr other syscall t s
      ≡ to_user (on_timer (set_frame s (record (frame s) { epc = t.sepc })))
unfolding usertrap
usertrap-timer argint argaddr other syscall t s user cause dev live = ground arith

-- One interrupt that does not complete the interval only counts.
on_timer-count :
    (s : State) (f : Trapframe)
    → IsArmed s
    → s.proc.tickcount + 1 < 2 ^ 32
    → s.proc.tickcount + 1 ≢ s.proc.ticks
    → on_timer (set_frame s f)
      ≡ set_proc (set_frame s f) (record s.proc { tickcount = s.proc.tickcount + 1 })
unfolding on_timer
on_timer-count s f a b h = ground arith

sys_sigalarm-set :
    (n fn : ℕ) (s : State)
    → n < 2 ^ 31
    → (sys_sigalarm n fn s).1 ≡ set_proc s (record s.proc { ticks = n; handler = fn })
unfolding sys_sigalarm
sys_sigalarm-set n fn s int = ground arith

-- No interrupt of the row completes the interval: it is not yet due, or the count is past it.
abbrev Quiet : ℕ → State → Type 0
Quiet n s = (s.proc.tickcount + n < s.proc.ticks) ⊎ (s.proc.ticks ≤ s.proc.tickcount)

-- A row of interrupts that does not complete the interval only counts.
timers-count :
    (fs : List Trapframe) (s : State)
    → IsArmed s
    → s.proc.tickcount + length fs < 2 ^ 32
    → Quiet (length fs) s
    → ((timers fs s).proc ≡ record s.proc { tickcount = s.proc.tickcount + length fs })
      × (saved (timers fs s) ≡ saved s)
timers-count [] s a b q = (ground arith, refl)
timers-count (f ∷ fs) s a b q =
    let s' = set_proc (set_frame s f) (record s.proc { tickcount = s.proc.tickcount + 1 }) in
    let e : on_timer (set_frame s f) ≡ s' = on_timer-count s f a (omega arith) (ground arith) in
    let ih =
      timers-count fs s'
        (record { apart = a.apart; idle = a.idle; positive = a.positive; int = a.int })
        (omega arith) (omega arith) in
    rw e (ground (arith, ih), ground (arith, ih))

-- While an alarm is set and its handler does not run, interrupts before the interval is over start
-- no handler: they count, and the frame that `sigreturn` would restore is not touched.
pub timers-wait :
    (fs : List Trapframe) (s : State)
    → IsArmed s
    → s.proc.tickcount + length fs < s.proc.ticks
    → ((timers fs s).proc ≡ record s.proc { tickcount = s.proc.tickcount + length fs })
      × (saved (timers fs s) ≡ saved s)
timers-wait fs s a h = timers-count fs s a (omega arith) (inl h)

-- The interrupt that completes the interval enters the handler with the user's other registers,
-- saves the interrupted frame, starts the count again and marks the handler as running.
pub timers-fire :
    (fs : List Trapframe) (f : Trapframe) (s : State)
    → IsArmed s
    → s.proc.tickcount + length fs + 1 ≡ s.proc.ticks
    → (let s' = on_timer (set_frame (timers fs s) f) in
        (s'.proc ≡ record s.proc { tickcount = 0; run = 1 })
        × (frame s' ≡ record f { epc = s.proc.handler })
        × (saved s' ≡ f))
unfolding on_timer call_handler
timers-fire fs f s a h =
    let w = timers-wait fs s a (omega arith) in
    (ground (arith, w), ground (arith, w), ground (arith, w))

-- Where `sigalarm` sets an interval of at most the ticks already counted, no interrupt starts the
-- handler before the counter wraps: the count is kept, and the test is for equality.
pub sigalarm-timers_miss :
    (n fn : ℕ) (fs : List Trapframe) (s : State)
    → s.proc.trapframe ≢ s.proc.originaltrapframe
    → s.proc.run ≡ 0
    → 0 < n
    → n < 2 ^ 31
    → n ≤ s.proc.tickcount
    → s.proc.tickcount + length fs < 2 ^ 32
    → (let s' = timers fs (sys_sigalarm n fn s).1 in
        (s'.proc
          ≡ record s.proc { ticks = n; handler = fn; tickcount = s.proc.tickcount + length fs })
        × (saved s' ≡ saved s))
sigalarm-timers_miss n fn fs s apart idle pos int past b =
    let s0 = set_proc s (record s.proc { ticks = n; handler = fn }) in
    rw (sys_sigalarm-set n fn s int) (
      timers-count fs s0 (record { apart = apart; idle = idle; positive = pos; int = int }) b
        (inr past))
