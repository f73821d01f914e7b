-- ===== src/Primes/Divisors.antt =====
-- What a prime number is, apart from the program, and what is needed of divisibility.
use mit.Base.{
  ℕ, zero, suc, ◌%◌, ◌≤◌, ◌<◌, ◌≡◌, ◌≢◌, refl, Bool, true, false, not, ◌&&◌, ◌||◌, ◌==◌, ltb, leb,
  arith, inl, inr, Bool-cases, ==→eq,
}
use native.Mathlib.Decide.{dec_le}
use native.Mathlib.Nat.{dvd_trans, mod-eq-zero_of_dvd, dvd_of_mod-eq-zero}

-- No `d` with 2 ≤ d < `below` divides `x`.
pub no_divisor : (below x : ℕ) → Bool
no_divisor zero x = true
no_divisor (suc d) x = no_divisor d x && (ltb d 2 || not (x % d == 0))

abbrev pub is_prime : ℕ → Bool
is_prime x = leb 2 x && no_divisor x x

pub no_divisor-ne : (m e x : ℕ) → no_divisor m x ≡ true → 2 ≤ e → e < m → x % e ≢ 0
unfolding no_divisor
no_divisor-ne zero e x h two lt = absurd (omega arith)
no_divisor-ne (suc m) e x h two lt = elim (dec_le e m) [
  | yes le ↦ elim (Bool-cases (e == m)) [
    | inl same ↦ let q : e ≡ m = ==→eq e m same in rw q (ground arith)
    | inr other ↦ no_divisor-ne m e x (ground arith) two (ground arith)
  ]
  | no gt ↦ absurd (omega arith)
]

-- A number that fails the test has a divisor that shows it.
pub divisor_of : (m x : ℕ) → no_divisor m x ≡ false → (e : ℕ) × (2 ≤ e) × (e < m) × (x % e ≡ 0)
unfolding no_divisor
divisor_of zero x h = cc
divisor_of (suc m) x h = elim (Bool-cases (no_divisor m x)) [
  | inl fine ↦ (m, ground arith, omega arith, ground arith)
  | inr found ↦ let (e, two, lt, z) = divisor_of m x found in (e, two, omega arith, z)
]

mod_trans : (x d e : ℕ) → x % d ≡ 0 → d % e ≡ 0 → x % e ≡ 0
mod_trans x d e h k =
    mod-eq-zero_of_dvd e (dvd_trans e (dvd_of_mod-eq-zero e k) (dvd_of_mod-eq-zero d h))

pub no_divisor_mono : (m n x : ℕ) → m ≤ n → no_divisor n x ≡ true → no_divisor m x ≡ true
unfolding no_divisor
no_divisor_mono m zero x le h = let z : m ≡ 0 = omega arith in rw z
no_divisor_mono m (suc n) x le h = elim (dec_le m n) [
  | yes below ↦ no_divisor_mono m n x below (ground arith)
  | no top ↦ let z : m ≡ suc n = omega arith in rw z h
]

-- If all numbers from `m` to `p` have a divisor below `m`, a test up to `m` is a test up to `p`.
pub no_divisor_gap :
    (m p x : ℕ)
    → ((d : ℕ) → m ≤ d → d < p → no_divisor m d ≡ false)
    → m ≤ p
    → no_divisor m x ≡ true
    → no_divisor p x ≡ true
unfolding no_divisor
no_divisor_gap m zero x gap le h = refl
no_divisor_gap m (suc p) x gap le h = elim (dec_le m p) [
  | yes below ↦
      let ih = no_divisor_gap m p x (λ d lo hi. gap d lo (omega arith)) below h in
      let (e, two, lt, z) = divisor_of m p (gap p below (omega arith)) in
      let apart : x % p ≢ 0 = λ q. no_divisor-ne m e x h two lt (mod_trans x p e q z) in
      ground (arith, ih, apart)
  | no top ↦ let z : m ≡ suc p = omega arith in rw z at h
]

pub no_divisor-suc :
    (d x : ℕ) → no_divisor (suc d) x ≡ (no_divisor d x && (ltb d 2 || not (x % d == 0)))
unfolding no_divisor
no_divisor-suc d x = refl

pub no_divisor_two : (x : ℕ) → no_divisor 2 x ≡ true
unfolding no_divisor
no_divisor_two x = refl
