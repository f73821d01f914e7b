-- ===== src/Primes.antt =====
-- lab1, primes: xv6-labs-2024/lab1: util/3. primes/primes.c. A chain of processes, each of which
-- prints the first number that it reads and passes on those that it does not divide.
pub mod Divisors
pub mod Sieve
mod Tests
use mit.Base.{ℕ, zero, suc, ◌+◌, ◌%◌, Bool, true, false, not, List, [], ◌∷◌, ◌==◌, if◌then◌else◌}

-- What the processes print, in order, and whether one of them ended by `exit(1)` since `fork`
-- failed.
pub record Output : Type 0 where
  pub printed : List ℕ
  pub failed : Bool

-- The loop of the parent in `handle`: what it writes to the next pipe, of what it reads.
pub sieve : ℕ → List ℕ → List ℕ
sieve prime [] = []
sieve prime (num ∷ nums) =
    let rest = sieve prime nums in if not (num % prime == 0) then num ∷ rest else rest

-- `handle(nums)`. The list is what can be read from the pipe before its end. Of the next calls of
-- `fork`, the first `forks` succeed; the numbers reach the child in the order of the writes.
pub handle : (forks : ℕ) → List ℕ → Output
handle forks [] = record { printed = []; failed = false }
handle zero (prime ∷ nums) = record { printed = prime ∷ []; failed = true }
handle (suc forks) (prime ∷ nums) =
    let child = handle forks (sieve prime nums) in
    record { printed = prime ∷ child.printed; failed = child.failed }

-- `for (int i = from; i <= …; i++) write(…)`, of `n` numbers.
pub numbers : (from n : ℕ) → List ℕ
numbers from zero = []
numbers from (suc n) = from ∷ numbers (from + 1) n

-- `main`, for the numbers from 2 to `last + 1`; the program has last = 279.
pub main : (forks last : ℕ) → Output
main zero last = record { printed = []; failed = true }
main (suc forks) last = handle forks (numbers 2 last)
