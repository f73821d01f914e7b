-- ===== src/Cow/Fault/Memmove.antt =====
-- The bytes after `memmove`.
use mit.Base.{ℕ, ◌+◌, ◌-◌, ◌<◌, ◌≡◌, ◌≢◌, refl, true, ltb, leb, arith}
use native.Mathlib.Decide.{dec_lt, dec_le}
use mit.Cow.Fault.{memmove}

pub memmove-inside :
    (m : ℕ → ℕ) (dst src n j : ℕ) → j < n → memmove m dst src n (dst + j) ≡ m (src + j)
memmove-inside m dst src n j lt =
    let e : dst + j - dst ≡ j = omega arith in
    let lo : leb dst (dst + j) ≡ true = ground arith in
    let hi : ltb (dst + j) (dst + n) ≡ true = ground arith in rw (lo, hi, e) refl

pub memmove-outside :
    (m : ℕ → ℕ) (dst src n a : ℕ) → ((j : ℕ) → j < n → a ≢ dst + j) → memmove m dst src n a ≡ m a
memmove-outside m dst src n a out = elim (dec_le dst a) [
  | no before ↦ ground arith
  | yes from ↦ elim (dec_lt a (dst + n)) [
    | no after ↦ ground arith
    | yes inside ↦ absurd (out (a - dst) (omega arith) (omega arith))
  ]
]
