-- ===== src/Backtrace/Frames.antt =====
-- lab4, printf.c: `backtrace` on a kernel stack.
use mit.Base.{
  ℕ, zero, suc, ◌+◌, ◌-◌, ◌%◌, ◌^◌, ◌≤◌, ◌<◌, ◌≡◌, true, false, List, [], ◌∷◌, arith, ltb, sub64,
  ok,
}
use mit.Cow.Kalloc.{page_size, round_down}
use mit.Backtrace.{backtrace}

-- The chain of frames on a stack whose page ends at `end`, from a frame pointer up, with the return
-- address of each: a frame has it 8 bytes below its pointer, and 16 bytes below the pointer of its
-- caller's frame, which lies above it; the chain ends at the top of the page.
pub data Frames (load : ℕ → ℕ) (end : ℕ) : ℕ → List ℕ → Type 0 where
  top : {fp : ℕ} → fp ≡ end → Frames load end fp []
  frame :
      {fp : ℕ} {ras : List ℕ}
      → end + 16 ≤ fp + page_size
      → fp < end
      → fp < load (fp - 16)
      → Frames load end (load (fp - 16)) ras
      → Frames load end fp (load (fp - 8) ∷ ras)

module _ (load : ℕ → ℕ) (end : ℕ) where
  Frames-le : {fp : ℕ} {ras : List ℕ} → Frames load end fp ras → fp ≤ end
  Frames-le (top e) = omega arith
  Frames-le (frame lo hi up fs) = omega arith

  backtrace-frame :
      (fuel fp : ℕ) (ras : List ℕ)
      → end % page_size ≡ 0
      → page_size ≤ end
      → end < 2 ^ 64
      → end + 16 ≤ fp + page_size
      → fp < end
      → backtrace fuel load (load (fp - 16)) ≡ ok ras
      → backtrace (suc fuel) load fp ≡ ok (load (fp - 8) ∷ ras)
  unfolding backtrace
  backtrace-frame fuel fp ras al low high lo hi e =
      let inside : ltb (round_down fp) fp ≡ true = ground arith in
      let a : sub64 fp 16 ≡ fp - 16 = omega arith in
      let b : sub64 fp 8 ≡ fp - 8 = omega arith in rw (inside, a, b, e)

  backtrace-top :
      (fuel fp : ℕ) → end % page_size ≡ 0 → fp ≡ end → backtrace (suc fuel) load fp ≡ ok []
  unfolding backtrace
  backtrace-top fuel fp al e = let out : ltb (round_down fp) fp ≡ false = ground arith in rw out

  -- On a stack page below `2 ^ 64` with a chain of frames, and with fuel for each byte above the
  -- frame pointer and one round more, `backtrace` ends and prints exactly the return addresses of the
  -- chain, the innermost first.
  pub backtrace-Frames :
      (fuel : ℕ) {fp : ℕ} {ras : List ℕ}
      → end % page_size ≡ 0
      → page_size ≤ end
      → end < 2 ^ 64
      → Frames load end fp ras
      → end < fp + fuel
      → backtrace fuel load fp ≡ ok ras
  backtrace-Frames zero al low high fs en = absurd (omega (arith, Frames-le fs))
  backtrace-Frames (suc fuel) {fp} al low high (top e) en = backtrace-top fuel fp al e
  backtrace-Frames (suc fuel) {fp} al low high (frame {ras = ras} lo hi up fs) en =
      backtrace-frame fuel fp ras al low high lo hi
        (backtrace-Frames fuel al low high fs (omega arith))
