-- ===== src/Backtrace.antt =====
-- lab4, backtrace: xv6-labs-2024/lab4: traps/2. backtrace/kernel. `backtrace` of printf.c walks over
-- the frames of a kernel stack, and `sys_sleep` of sysproc.c calls it when the sleep is over.
pub mod Frames
pub mod Sleep
mod Tests
use mit.Base.{
  ℕ, zero, suc, ◌+◌, ◌-◌, ◌*◌, ◌/◌, ◌%◌, ◌^◌, Bool, List, [], ◌∷◌, ◌==◌, ltb, if◌then◌else◌,
  is_neg32, sub64, Run, ok, out_of_fuel, ◌>>=◌,
}
use mit.Cow.Kalloc.{round_down}

-- The return addresses that are printed, after the line `backtrace:`. `load` reads a `uint64` of memory.
pub backtrace : (fuel : ℕ) → (load : ℕ → ℕ) → (fp : ℕ) → Run (List ℕ)
backtrace zero load fp = out_of_fuel
backtrace (suc fuel) load fp =
    let rest = backtrace fuel load (load (sub64 fp 16)) in
    if ltb (round_down fp) fp then (rest >>= λ ras. ok (load (sub64 fp 8) ∷ ras)) else ok []

-- What is seen at a look at the clock: `ticks`, and whether the process was killed.
pub record Look : Type 0 where
  pub ticks : ℕ
  pub killed : Bool

-- How the loop of `sys_sleep` ended: the wait is over, the process was killed, or it still sleeps at
-- the end of what is given.
pub data Waited : Type 0 where
  over : Waited
  killed_early : Waited
  waiting : Waited

-- The loop: a look for each round.
pub wait : (n ticks0 : ℕ) → List Look → Waited
wait n ticks0 [] = waiting
wait n ticks0 (look ∷ looks) =
    let rest = wait n ticks0 looks in
    if ltb ((look.ticks + 2 ^ 32 - ticks0) % 2 ^ 32) n
    then (if look.killed then killed_early else rest)
    else over

-- How `sys_sleep` ended: 0 after the wait, with the return addresses that `backtrace` printed; -1 for
-- a killed process; or it still sleeps.
pub data Slept : Type 0 where
  woken : (printed : List ℕ) → Slept
  was_killed : Slept
  asleep : Slept

-- What follows the loop, where `fp` is the frame pointer at the call of `backtrace`.
pub after_wait : (fuel : ℕ) → (load : ℕ → ℕ) → (fp : ℕ) → Waited → Run Slept
unfolding backtrace
after_wait fuel load fp over = backtrace fuel load fp >>= λ ras. ok (woken ras)
after_wait fuel load fp killed_early = ok was_killed
after_wait fuel load fp waiting = ok asleep

-- `n` is the pattern of an `int`, and `ticks0` the clock at the start.
pub sys_sleep : (fuel : ℕ) → (load : ℕ → ℕ) → (fp n ticks0 : ℕ) → List Look → Run Slept
unfolding wait after_wait
sys_sleep fuel load fp n ticks0 looks =
    after_wait fuel load fp (wait (if is_neg32 n then 0 else n) ticks0 looks)
