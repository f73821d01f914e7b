-- ===== src/Base/Words.antt =====
-- C integers as bit patterns: `uint64`, and `int` in two's complement.
use Prim.Native.Nat.{ℕ, ◌+◌, ◌-◌, ◌%◌, ◌^◌}
use mathlib.Core.Bool.{Bool, not, ◌&&◌}
use mit.Base.Tests.{ltb, if◌then◌else◌}

-- Addition and subtraction of `uint64`.
abbrev pub add64 : ℕ → ℕ → ℕ
add64 a b = (a + b) % 2 ^ 64

abbrev pub sub64 : ℕ → ℕ → ℕ
sub64 a b = (a + 2 ^ 64 - b) % 2 ^ 64

-- An `int` is its pattern, below `2 ^ 32`; from `2 ^ 31` on it stands for a negative number.
abbrev pub inc32 : ℕ → ℕ
inc32 a = (a + 1) % 2 ^ 32

abbrev pub dec32 : ℕ → ℕ
dec32 a = (a + (2 ^ 32 - 1)) % 2 ^ 32

-- `a < 0` and `a > 0` of an `int`.
abbrev pub is_neg32 : ℕ → Bool
is_neg32 a = not (ltb a (2 ^ 31))

abbrev pub is_pos32 : ℕ → Bool
is_pos32 a = ltb 0 a && ltb a (2 ^ 31)

-- An `int`, widened to a `uint64`.
abbrev pub extend : ℕ → ℕ
extend n = if is_neg32 n then n + (2 ^ 64 - 2 ^ 32) else n
