-- ===== src/Vmprint/Bits.antt =====
-- `|` of a number and the bits below it.
use Prim.Native.Nat.{max, digits, bit_or, bit_or-bitwise}
use native.Mathlib.Nat.{pow-suc, le_refl}
use mit.Base.{ℕ, zero, suc, ◌+◌, ◌*◌, ◌/◌, ◌%◌, ◌^◌, ◌≤◌, ◌<◌, ◌≡◌, refl, arith}

abbrev ors : ℕ → ℕ → ℕ → ℕ
ors n a b = digits (λ c. c) max n a b

ors-fuel : (n m a b : ℕ) → a ≤ n → a ≤ m → ors n a b ≡ ors m a b
ors-fuel zero zero a b p q = refl
ors-fuel zero (suc m) zero b p q = refl
ors-fuel zero (suc m) (suc a) b p q = absurd (omega arith)
ors-fuel (suc n) zero zero b p q = refl
ors-fuel (suc n) zero (suc a) b p q = absurd (omega arith)
ors-fuel (suc n) (suc m) zero b p q = refl
ors-fuel (suc n) (suc m) (suc a) b p q =
    rw (ors-fuel n m (suc a / 2) (b / 2) (omega arith) (omega arith))

-- The lowest bit apart.
bit_or-halves : (a b : ℕ) → bit_or a b ≡ bit_or (a / 2) (b / 2) * 2 + max (a % 2) (b % 2)
bit_or-halves zero b = simp bit_or-bitwise (omega arith)
bit_or-halves (suc a) b =
    simp bit_or-bitwise
      (omega (arith, ors-fuel a (suc a / 2) (suc a / 2) (b / 2) (omega arith) (le_refl _)))

ors-zero : (n a : ℕ) → a ≤ n → ors n a 0 ≡ a
ors-zero zero zero p = refl
ors-zero zero (suc a) p = absurd (omega arith)
ors-zero (suc n) zero p = refl
ors-zero (suc n) (suc a) p = omega (arith, ors-zero n (suc a / 2) (omega arith))

pub bit_or-zero : (a : ℕ) → bit_or a 0 ≡ a
bit_or-zero a = simp bit_or-bitwise (ors-zero a a (le_refl a))

pub zero-bit_or : (b : ℕ) → bit_or 0 b ≡ b
zero-bit_or b = bit_or-bitwise 0 b

-- Where the second number is below the lowest bit of the first, `|` adds.
pub bit_or-add : (n a b : ℕ) → b < 2 ^ n → bit_or (a * 2 ^ n) b ≡ a * 2 ^ n + b
bit_or-add zero a b lt =
    let none_left : b ≡ 0 = omega arith in rw (none_left, bit_or-zero (a * 1)) (omega arith)
bit_or-add (suc n) a b lt =
    let even : a * 2 ^ suc n ≡ a * 2 ^ n * 2 = rw (pow-suc 2 n) (grind arith) in
    let half : a * 2 ^ suc n / 2 ≡ a * 2 ^ n = omega (arith, even) in
    let low : a * 2 ^ suc n % 2 ≡ 0 = omega (arith, even) in
    let rest : bit_or (a * 2 ^ n) (b / 2) ≡ a * 2 ^ n + b / 2 =
      bit_or-add n a (b / 2) (omega (arith, pow-suc 2 n)) in
    rw (bit_or-halves (a * 2 ^ suc n) b, half, low, rest) (omega (arith, even))
