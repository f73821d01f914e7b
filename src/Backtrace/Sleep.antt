-- ===== src/Backtrace/Sleep.antt =====
-- When a sleep ends.
use mit.Base.{
  ℕ, ◌+◌, ◌-◌, ◌%◌, ◌^◌, ◌≤◌, ◌<◌, ◌≡◌, refl, true, false, List, [], ◌∷◌, ◌++◌, arith, ltb, ◌∙◌,
  ◌⊎◌, inl, inr, Bool-cases, is_neg32, if◌then◌else◌, ok, Bool, ap,
}
use mit.Backtrace.{
  Look, over, killed_early, woken, was_killed, wait, backtrace, after_wait, sys_sleep,
}
use mit.Backtrace.Frames.{Frames, backtrace-Frames}
use mit.Cow.Kalloc.{page_size}

-- The ticks since the start at a look, over the wrap of the clock.
abbrev pub elapsed : ℕ → Look → ℕ
elapsed ticks0 look = (look.ticks + 2 ^ 32 - ticks0) % 2 ^ 32

-- At each look the wait is not over, and the process lives.
abbrev pub Waiting : ℕ → ℕ → List Look → Type 0
Waiting n ticks0 [] = Unit {0}
Waiting n ticks0 (look ∷ looks) =
    (elapsed ticks0 look < n) × (look.killed ≡ false) × Waiting n ticks0 looks

wait-Waiting :
    (n ticks0 : ℕ) (before : List Look) (looks : List Look)
    → Waiting n ticks0 before
    → wait n ticks0 (before ++ looks) ≡ wait n ticks0 looks
unfolding wait
wait-Waiting n ticks0 [] looks w = refl
wait-Waiting n ticks0 (look ∷ before) looks w =
    let t : ltb (elapsed ticks0 look) n ≡ true = ground (arith, w.0) in
    rw (t, w.1) (wait-Waiting n ticks0 before looks w.2)

-- The number of ticks that the argument asks for: none for a negative one.
abbrev pub asked : ℕ → ℕ
asked n = if is_neg32 n then 0 else n

wait-ends :
    (n ticks0 : ℕ) (before after : List Look) (look : Look)
    → Waiting n ticks0 before
    → (n ≤ elapsed ticks0 look) ⊎ (look.killed ≡ true)
    → wait n ticks0 (before ++ (look ∷ after))
      ≡ (if ltb (elapsed ticks0 look) n then killed_early else over)
unfolding wait
wait-ends n ticks0 before after look w ends =
    wait-Waiting n ticks0 before (look ∷ after) w
    ∙ (elim (Bool-cases (ltb (elapsed ticks0 look) n)) [
      | inl early ↦ let dead : look.killed ≡ true = ground (arith, early) in rw (early, dead)
      | inr late ↦ rw late
    ])

after_wait-ends :
    (fuel : ℕ) (load : ℕ → ℕ) (fp : ℕ) (ras : List ℕ) (b : Bool)
    → backtrace fuel load fp ≡ ok ras
    → after_wait fuel load fp (if b then killed_early else over)
      ≡ ok (if b then was_killed else woken ras)
unfolding after_wait
after_wait-ends fuel load fp ras true e = refl
after_wait-ends fuel load fp ras false e = rw e refl

-- After looks at which the wait is not over and the process lives, the sleep ends at a look at which
-- as many ticks as asked for have passed, over the wrap of the clock, or the process was killed: with
-- -1 where the wait is not over, else with 0, also for a process that was killed, when `backtrace`
-- has printed exactly the return addresses of the frames on the kernel stack, the innermost first.
-- The stack page lies below `2 ^ 64`, holds a chain of frames from the frame pointer, and the fuel
-- has a round for each byte above that and one more.
pub sys_sleep-Waiting :
    (fuel : ℕ) (load : ℕ → ℕ) (end : ℕ) {fp : ℕ} {ras : List ℕ} (n ticks0 : ℕ)
    (before after : List Look) (look : Look)
    → end % page_size ≡ 0
    → page_size ≤ end
    → end < 2 ^ 64
    → Frames load end fp ras
    → end < fp + fuel
    → Waiting (asked n) ticks0 before
    → (asked n ≤ elapsed ticks0 look) ⊎ (look.killed ≡ true)
    → sys_sleep fuel load fp n ticks0 (before ++ (look ∷ after))
      ≡ ok (if ltb (elapsed ticks0 look) (asked n) then was_killed else woken ras)
unfolding sys_sleep
sys_sleep-Waiting fuel load end {fp} {ras} n ticks0 before after look al low high fr enough w ends =
    ap (after_wait fuel load fp) (wait-ends (asked n) ticks0 before after look w ends)
    ∙ after_wait-ends fuel load fp ras (ltb (elapsed ticks0 look) (asked n))
        (backtrace-Frames load end fuel al low high fr enough)
