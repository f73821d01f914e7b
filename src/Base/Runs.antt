-- ===== src/Base/Runs.antt =====
-- A run of kernel code: it gives a value, it panics, or the fuel of a loop does not last.
use mathlib.Core.Path.{◌≡◌, refl}
use mathlib.Core.Bool.{Bool, true, false}
use mit.Base.Tests.{if◌then◌else◌}

pub data Run {ℓ} (A : Type ℓ) : Type ℓ where
  ok : A → Run A
  panic : Run A
  out_of_fuel : Run A

infixl 5 ◌>>=◌
abbrev pub ◌>>=◌ {ℓ κ} : {A : Type ℓ} {B : Type κ} → Run A → (A → Run B) → Run B
ok a >>= f = f a
panic >>= f = panic
out_of_fuel >>= f = out_of_fuel

-- What holds of a value if the run gives one; the fuel lasts.
abbrev pub Ensures {ℓ} : {A : Type ℓ} → Run A → (A → Type 0) → Type 0
Ensures (ok a) P = P a
Ensures panic P = Unit
Ensures out_of_fuel P = ⊥

abbrev pub Ends {ℓ} : {A : Type ℓ} → Run A → Type 0
Ends r = Ensures r (λ a. Unit)

pub Ensures-bind {ℓ κ} :
    {A : Type ℓ} {B : Type κ} (P : A → Type 0) (Q : B → Type 0) (r : Run A) (f : A → Run B)
    → Ensures r P
    → ((a : A) → P a → Ensures (f a) Q)
    → Ensures (r >>= f) Q
Ensures-bind P Q (ok a) f h g = g a h
Ensures-bind P Q panic f h g = tt
Ensures-bind P Q out_of_fuel f h g = absurd h

pub Ensures-weaken {ℓ} :
    {A : Type ℓ} (P : A → Type 0) (Q : A → Type 0) (r : Run A)
    → Ensures r P
    → ((a : A) → P a → Q a)
    → Ensures r Q
Ensures-weaken P Q (ok a) h g = g a h
Ensures-weaken P Q panic h g = tt
Ensures-weaken P Q out_of_fuel h g = h

-- A run that ends gives what it gives.
pub Ends-self : {A : Type 0} (r : Run A) → Ends r → Ensures r (λ a. r ≡ ok a)
Ends-self (ok a) h = refl
Ends-self panic h = tt
Ends-self out_of_fuel h = absurd h

-- A run that branches, by what each branch ensures where its condition holds.
pub Ensures-if {ℓ} :
    {A : Type ℓ} (P : A → Type 0) (b : Bool) (r s : Run A)
    → (b ≡ true → Ensures r P)
    → (b ≡ false → Ensures s P)
    → Ensures (if b then r else s) P
Ensures-if P true r s h g = h refl
Ensures-if P false r s h g = g refl

-- What a run ensures holds of the value that it gives.
pub Ensures-value {ℓ} :
    {A : Type ℓ} (P : A → Type 0) (r : Run A) (a : A) → Ensures r P → r ≡ ok a → P a
Ensures-value P r a h e = rw e at h

pub Ensures-self :
    {A : Type 0} (P : A → Type 0) (r : Run A) → Ensures r P → Ensures r (λ a. P a × (r ≡ ok a))
Ensures-self P (ok a) h = (h, refl)
Ensures-self P panic h = tt
Ensures-self P out_of_fuel h = absurd h
