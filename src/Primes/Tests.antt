-- ===== src/Primes/Tests.antt =====
-- Runs of the sieve, and its theorem at one of them.
use mit.Base.{ℕ, ◌+◌, ◌≡◌, refl, true, false, ◌&&◌, [], ◌∷◌, ltb, length, arith}
use mit.Primes.{sieve, handle, numbers, main}
use mit.Primes.Divisors.{is_prime}
use mit.Primes.Sieve.{has, Ascending, main-primes}

up_to_twenty : (main 20 19).printed ≡ 2 ∷ 3 ∷ 5 ∷ 7 ∷ 11 ∷ 13 ∷ 17 ∷ 19 ∷ []
unfolding main handle sieve numbers
up_to_twenty = refl

-- The program's own range needs 60 calls of `fork`; with one less the last process fails.
sixty_forks : ((main 60 279).failed ≡ false) × (length (main 60 279).printed ≡ 59)
unfolding main handle sieve numbers
sixty_forks = (refl, refl)

fifty_nine_forks : (main 59 279).failed ≡ true
unfolding main handle sieve numbers
fifty_nine_forks = refl

main-primes_example :
    ((x : ℕ) → has x (main 280 279).printed ≡ (ltb x (2 + 279) && is_prime x))
    × Ascending 2 (main 280 279).printed
    × ((main 280 279).failed ≡ false)
main-primes_example = main-primes 280 279 (omega arith)
