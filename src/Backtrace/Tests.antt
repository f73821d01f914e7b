-- ===== src/Backtrace/Tests.antt =====
-- A stack of two frames, and a sleep.
use mit.Base.{
  ℕ, ◌-◌, ◌^◌, ◌≡◌, refl, true, false, [], ◌∷◌, ◌++◌, arith, update, ok, inl, ltb, if◌then◌else◌,
}
use mit.Backtrace.{Look, woken, was_killed, backtrace, sys_sleep}
use mit.Backtrace.Frames.{Frames, top, frame, backtrace-Frames}
use mit.Backtrace.Sleep.{elapsed, asked, sys_sleep-Waiting}

-- The frames at 0x1fc0 and 0x1fe0.
abbrev memory : ℕ → ℕ
memory =
    update (update (update (update (λ a. 0) 0x1fb8 111) 0x1fb0 0x1fe0) 0x1fd8 222) 0x1fd0 0x2000

two_frames : Frames memory 0x2000 0x1fc0 (111 ∷ 222 ∷ [])
two_frames =
    frame (omega arith) (omega arith) (omega arith)
      (frame (omega arith) (omega arith) (omega arith) (top refl))

backtrace-Frames_example : backtrace 65 memory 0x1fc0 ≡ ok (111 ∷ 222 ∷ [])
backtrace-Frames_example =
    backtrace-Frames memory 0x2000 65 refl (omega arith) (omega arith) two_frames (omega arith)

abbrev early : Look
early = record { ticks = 1; killed = false }

abbrev late : Look
late = record { ticks = 3; killed = true }

-- The clock wraps during the sleep.
sys_sleep-Waiting_example :
    sys_sleep 65 memory 0x1fc0 5 (2 ^ 32 - 2) ((early ∷ []) ++ (late ∷ []))
    ≡ ok (if ltb (elapsed (2 ^ 32 - 2) late) (asked 5) then was_killed else woken (111 ∷ 222 ∷ []))
sys_sleep-Waiting_example =
    sys_sleep-Waiting 65 memory 0x2000 5 (2 ^ 32 - 2) (early ∷ []) [] late refl (omega arith)
      (omega arith) two_frames (omega arith) (omega arith, refl, tt) (inl (omega arith))
