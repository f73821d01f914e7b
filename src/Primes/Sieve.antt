-- ===== src/Primes/Sieve.antt =====
-- primes.c: what the chain of processes prints.
use mit.Base.{
  ℕ, zero, suc, ◌+◌, ◌%◌, ◌≤◌, ◌<◌, ◌≡◌, refl, Bool, true, false, not, ◌&&◌, ◌||◌, List, [], ◌∷◌,
  ◌==◌, ltb, leb, arith, inl, inr, Bool-cases, ==→eq, length, sym, ◌∙◌,
}
use native.Mathlib.Decide.{dec_le}
use mit.Primes.{Output, sieve, handle, numbers, main}
use mit.Primes.Divisors.{
  no_divisor, is_prime, no_divisor_mono, no_divisor_gap, no_divisor-suc, no_divisor_two,
}

abbrev pub has : ℕ → List ℕ → Bool
has x [] = false
has x (y ∷ ys) = (x == y) || has x ys

-- Strictly increasing, from `low` on.
abbrev pub Ascending : (low : ℕ) → List ℕ → Type 0
Ascending low [] = Unit
Ascending low (x ∷ xs) = (low ≤ x) × Ascending (suc x) xs

Ascending-weaken : (a b : ℕ) (xs : List ℕ) → a ≤ b → Ascending b xs → Ascending a xs
Ascending-weaken a b [] le h = tt
Ascending-weaken a b (x ∷ xs) le h = (omega arith, h.1)

-- No number below the bound stands on an ascending list.
has-below : (low x : ℕ) (xs : List ℕ) → Ascending low xs → x < low → has x xs ≡ false
has-below low x [] h lt = refl
has-below low x (y ∷ ys) h lt = ground (arith, has-below (suc y) x ys)

sieve-Ascending : (p low : ℕ) (xs : List ℕ) → Ascending low xs → Ascending low (sieve p xs)
unfolding sieve
sieve-Ascending p low [] h = tt
sieve-Ascending p low (x ∷ xs) h =
    let ih = sieve-Ascending p (suc x) xs h.1 in
    let skip = Ascending-weaken low (suc x) (sieve p xs) (omega arith) ih in
    elim (Bool-cases (x % p == 0)) [
      | inl divides ↦ rw divides skip
      | inr keeps ↦ rw keeps (h.0, ih)
    ]

has-sieve : (p x : ℕ) (xs : List ℕ) → has x (sieve p xs) ≡ (has x xs && not (x % p == 0))
unfolding sieve
has-sieve p x [] = refl
has-sieve p x (y ∷ ys) = elim (Bool-cases (x == y)) [
  | inl same ↦ let q : x ≡ y = ==→eq x y same in rw q (ground (arith, has-sieve p y ys))
  | inr other ↦ ground (arith, has-sieve p x ys)
]

length-sieve : (p : ℕ) (xs : List ℕ) → length (sieve p xs) ≤ length xs
unfolding sieve
length-sieve p [] = omega arith
length-sieve p (x ∷ xs) = ground (arith, length-sieve p xs)

-- The numbers from `m` to `n` that have no divisor below `m`, in order.
record Sieved (m n : ℕ) (xs : List ℕ) : Type 0 where
  ascending : Ascending m xs
  member : (x : ℕ) → has x xs ≡ (leb m x && ltb x n && no_divisor m x)

module _ (m n p : ℕ) (xs : List ℕ) (s : Sieved m n (p ∷ xs)) where
  head_lem : (m ≤ p) × (p < n) × (no_divisor m p ≡ true)
  head_lem = (s.ascending.0, ground (arith, s.member p), ground (arith, s.member p))

  skipped : (d : ℕ) → m ≤ d → d < p → no_divisor m d ≡ false
  skipped d lo hi =
      let (a, b, c) = head_lem in
      ground (arith, s.member d, has-below (suc p) d xs s.ascending.1 (omega arith))

  up_to_head : (x : ℕ) → no_divisor m x ≡ no_divisor p x
  up_to_head x = elim (Bool-cases (no_divisor m x)) [
    | inl yes_m ↦ yes_m ∙ sym (no_divisor_gap m p x skipped head_lem.0 yes_m)
    | inr no_m ↦ elim (Bool-cases (no_divisor p x)) [
      | inl yes_p ↦ absurd (cc (no_m, no_divisor_mono m p x head_lem.0 yes_p))
      | inr no_p ↦ no_m ∙ sym no_p
    ]
  ]

  -- The head `p` is the next prime, and what the child reads are the numbers left after `p`.
  sieve-Sieved : 2 ≤ m → Sieved (suc p) n (sieve p xs)
  sieve-Sieved two = record {
    ascending = sieve-Ascending p (suc p) xs s.ascending.1;
    member = λ x. elim (dec_le x p) [
      | yes low ↦
          ground (arith, has-sieve p x xs, has-below (suc p) x xs s.ascending.1 (omega arith))
      | no high ↦
          let (a, b, c) = head_lem in
          ground (arith, has-sieve p x xs, s.member x, up_to_head x, no_divisor-suc p x)
    ];
  }

-- The numbers from `m` to `n` that are prime, in order, and no failure.
record Primes (m n : ℕ) (o : Output) : Type 0 where
  ascending : Ascending m o.printed
  member : (x : ℕ) → has x o.printed ≡ (leb m x && ltb x n && no_divisor x x)
  no_failure : o.failed ≡ false

no_primes : (m n : ℕ) → Sieved m n [] → (x : ℕ) → false ≡ (leb m x && ltb x n && no_divisor x x)
no_primes m n s x = elim (dec_le m x) [
  | yes lo ↦ ground (arith, s.member x, no_divisor_mono m x x lo)
  | no hi ↦ ground arith
]

cons-Primes :
    (m n p : ℕ) (xs printed : List ℕ)
    → Sieved m n (p ∷ xs)
    → ((x : ℕ) → has x printed ≡ (leb (suc p) x && ltb x n && no_divisor x x))
    → (x : ℕ) → has x (p ∷ printed) ≡ (leb m x && ltb x n && no_divisor x x)
cons-Primes m n p xs printed s rest x =
    let (a, b, c) = head_lem m n p xs s in
    elim (Bool-cases (x == p)) [
      | inl same ↦ let q : x ≡ p = ==→eq x p same in rw q (ground (arith, up_to_head m n p xs s p))
      | inr other ↦ elim (dec_le x p) [
        | yes low ↦ elim (dec_le m x) [
          | yes lo ↦
              ground
                (arith, rest x, skipped m n p xs s x lo (ground arith), no_divisor_mono m x x lo)
          | no under ↦ ground (arith, rest x)
        ]
        | no high ↦ ground (arith, rest x)
      ]
    ]

handle-Primes :
    (forks m n : ℕ) (xs : List ℕ)
    → 2 ≤ m
    → Sieved m n xs
    → length xs ≤ forks
    → Primes m n (handle forks xs)
unfolding handle
handle-Primes zero m n [] two s en = record {
  ascending = tt;
  member = no_primes m n s;
  no_failure = refl;
}
handle-Primes (suc forks) m n [] two s en = record {
  ascending = tt;
  member = no_primes m n s;
  no_failure = refl;
}
handle-Primes zero m n (p ∷ xs) two s en = absurd (omega arith)
handle-Primes (suc forks) m n (p ∷ xs) two s en =
    let (a, b, c) = head_lem m n p xs s in
    let ih =
      handle-Primes forks (suc p) n (sieve p xs) (omega arith) (sieve-Sieved m n p xs s two)
        (omega (arith, length-sieve p xs)) in
    record {
      ascending = (a, ih.ascending);
      member = cons-Primes m n p xs (handle forks (sieve p xs)).printed s ih.member;
      no_failure = ih.no_failure;
    }

has-numbers : (from n x : ℕ) → has x (numbers from n) ≡ (leb from x && ltb x (from + n))
unfolding numbers
has-numbers from zero x = ground arith
has-numbers from (suc n) x = ground (arith, has-numbers (from + 1) n x)

numbers-Ascending : (from n : ℕ) → Ascending from (numbers from n)
unfolding numbers
numbers-Ascending from zero = tt
numbers-Ascending from (suc n) = (
  omega arith,
  Ascending-weaken (suc from) (from + 1) _ (omega arith) (numbers-Ascending (from + 1) n),
)

length-numbers : (from n : ℕ) → length (numbers from n) ≡ n
unfolding numbers
length-numbers from zero = refl
length-numbers from (suc n) = omega (arith, length-numbers (from + 1) n)

-- If enough processes can be made, the program prints the prime numbers from 2 to `last + 1`, each
-- once and in increasing order, and no process fails.
pub main-primes :
    (forks last : ℕ)
    → last < forks
    → ((x : ℕ) → has x (main forks last).printed ≡ (ltb x (2 + last) && is_prime x))
      × Ascending 2 (main forks last).printed
      × ((main forks last).failed ≡ false)
unfolding main
main-primes zero last h = absurd (omega arith)
main-primes (suc forks) last h =
    let all =
      handle-Primes forks 2 (2 + last) (numbers 2 last) (omega arith)
        (record {
          ascending = numbers-Ascending 2 last;
          member = λ x. ground (arith, has-numbers 2 last x, no_divisor_two x);
        })
        (omega (arith, length-numbers 2 last)) in
    (λ x. ground (arith, all.member x), all.ascending, all.no_failure)
