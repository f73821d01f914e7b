-- ===== src/Alarm/Tests.antt =====
-- Runs of the alarm at fixed inputs, and its theorems at them.
use mit.Base.{
  some, Bool, Bool-cases, ap, ◌∙◌, if◌then◌else◌, is_pos32, ◌-◌, ◌^◌, inl, inr, ℕ, ◌≡◌, ◌≢◌, refl,
  false, Option, none, [], ◌∷◌, arith,
}
use mit.Alarm.{
  Trapframe, State, Trap, to_user, frame, saved, set_frame, on_timer, sys_sigalarm, usertrap,
}
use mit.Alarm.Timer.{timers, timers-wait, timers-fire, sigalarm-timers_miss, IsArmed}
use mit.Alarm.Resume.{InHandler, number, Dispatches, Keeps, Step, Reach, resume, no_reentry}

abbrev regs : ℕ → Trapframe
regs pc = record { epc = pc; a0 = 1; a7 = 2; others = λ _. 0 }

-- Every second tick calls the handler at 0x500.
abbrev every_two : State
every_two = record {
  proc = record {
    killed = false;
    trapframe = 0x1000;
    ticks = 2;
    tickcount = 0;
    handler = 0x500;
    originaltrapframe = 0x2000;
    run = 0;
  };
  frames = λ _. regs 0x10;
}

abbrev one_counted : State
one_counted = record every_two { proc = record every_two.proc { tickcount = 1 } }

abbrev five_counted : State
five_counted = record every_two { proc = record every_two.proc { ticks = 9; tickcount = 5 } }

every_two-IsArmed : IsArmed every_two
every_two-IsArmed = omega arith

one_counted-IsArmed : IsArmed one_counted
one_counted-IsArmed = omega arith

second_tick_fires : (frame (timers (regs 0x10 ∷ regs 0x14 ∷ []) every_two)).epc ≡ 0x500
unfolding on_timer
second_tick_fires = refl

first_tick_waits :
    ((timers (regs 0x10 ∷ []) every_two).proc ≡ record every_two.proc { tickcount = 1 })
    × (saved (timers (regs 0x10 ∷ []) every_two) ≡ regs 0x10)
first_tick_waits = timers-wait (regs 0x10 ∷ []) every_two every_two-IsArmed (omega arith)

timers-fire_example :
    (let s' = on_timer (set_frame (timers (regs 0x10 ∷ []) every_two) (regs 0x14)) in
      (s'.proc ≡ record every_two.proc { tickcount = 0; run = 1 })
      × (frame s' ≡ record (regs 0x14) { epc = 0x500 })
      × (saved s' ≡ regs 0x14))
timers-fire_example =
    timers-fire (regs 0x10 ∷ []) (regs 0x14) every_two every_two-IsArmed (omega arith)

sigalarm-timers_miss_example :
    (let s' = timers (regs 0x10 ∷ regs 0x14 ∷ []) (sys_sigalarm 5 0x600 five_counted).1 in
      (s'.proc ≡ record five_counted.proc { ticks = 5; handler = 0x600; tickcount = 7 })
      × (saved s' ≡ regs 0x10))
sigalarm-timers_miss_example =
    sigalarm-timers_miss 5 0x600 (regs 0x10 ∷ regs 0x14 ∷ []) five_counted (omega arith) refl
      (omega arith) (omega arith) (omega arith) (omega arith)

abbrev no_arg : ℕ → Trapframe → ℕ
no_arg n f = f.a0

abbrev no_other : ℕ → State → Option (ℕ × State)
no_other num s = none

no_other-Keeps : Keeps no_other
no_other-Keeps o num r s s' h e = cc

-- A `syscall` as xv6 documents it.
abbrev leave : State → Option (ℕ × State) → State
leave s none = set_frame s (record (frame s) { a0 = 2 ^ 64 - 1 })
leave s (some r) = set_frame r.1 (record (frame r.1) { a0 = r.0 })

abbrev dispatch : (ℕ → State → Option (ℕ × State)) → State → State
dispatch table s = leave s (if is_pos32 (number s) then table (number s) s else none)

dispatch-Dispatches : Dispatches dispatch
dispatch-Dispatches = record {
  known = λ table r s s' pos e.
      ap (λ (b : Bool). leave s (if b then table (number s) s else none)) pos ∙ ap (leave s) e;
  unknown = λ table s u. elim u [
    | inl neg ↦ ap (λ (b : Bool). leave s (if b then table (number s) s else none)) neg
    | inr e ↦ elim (Bool-cases (is_pos32 (number s))) [
      | inl pos ↦
          ap (λ (b : Bool). leave s (if b then table (number s) s else none)) pos ∙ ap (leave s) e
      | inr neg ↦ ap (λ (b : Bool). leave s (if b then table (number s) s else none)) neg
    ]
  ];
}

abbrev timer_trap : Trap
timer_trap = record { from_supervisor = false; sepc = 0x504; scause = 5; dev = 2 }

abbrev ecall : Trap
ecall = record { from_supervisor = false; sepc = 0x520; scause = 8; dev = 0 }

-- The handler has been entered from 0x14.
abbrev handling : State
handling = on_timer (set_frame one_counted (regs 0x14))

-- It has run to 0x504 and taken a timer interrupt there.
abbrev interrupted : State
interrupted = set_frame handling (record (regs 0x504) { a0 = 7 })

one_tick :
    Reach no_arg no_arg no_other no_other-Keeps dispatch dispatch-Dispatches handling interrupted
unfolding usertrap
one_tick =
    Reach.next Reach.here
      (Step.trap timer_trap (record (regs 0x504) { a0 = 7 }) (λ e. cc) (ground arith))

interrupted-live : interrupted.proc.killed ≡ false
unfolding on_timer
interrupted-live = refl

handling-InHandler : InHandler (regs 0x14) handling
unfolding on_timer
handling-InHandler = ground arith

abbrev calling : Trapframe
calling = record (regs 0x520) { a7 = 23 }

resume_example :
    (s'' : State) × (usertrap no_arg no_arg no_other dispatch ecall (set_frame interrupted calling)
      ≡ to_user s'')
    × (frame s'' ≡ regs 0x14)
    × (s''.proc.run ≡ 0)
resume_example =
    resume no_arg no_arg no_other no_other-Keeps dispatch dispatch-Dispatches (regs 0x14) calling
      one_counted interrupted ecall one_counted-IsArmed (omega arith) one_tick interrupted-live refl
      refl refl

no_reentry_example :
    (interrupted.proc.run ≢ 0)
    × (saved interrupted ≡ regs 0x14)
    × (on_timer interrupted ≡ interrupted)
no_reentry_example =
    no_reentry no_arg no_arg no_other no_other-Keeps dispatch dispatch-Dispatches (regs 0x14)
      handling-InHandler one_tick
