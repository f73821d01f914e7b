-- ===== src/Attack/Exec/Memory.antt =====
-- lab2, exec.c: what a process finds in its memory.
use mit.Base.{ℕ, suc, ◌+◌, ◌*◌, ◌%◌, ◌≤◌, ◌<◌, ◌≡◌, refl, List, [], ◌∷◌, ◌++◌, arith, length, ◌∙◌}
use mit.Attack.Exec.{words}

-- The bytes stand at the address.
abbrev pub Holds : (ℕ → ℕ) → (a : ℕ) → List ℕ → Type 0
Holds v a [] = Unit
Holds v a (c ∷ cs) = (v a ≡ c) × Holds v (suc a) cs

pub Holds-same :
    (v v' : ℕ → ℕ) (a : ℕ) (cs : List ℕ)
    → ((i : ℕ) → a ≤ i → i < a + length cs → v' i ≡ v i)
    → Holds v a cs
    → Holds v' a cs
Holds-same v v' a [] same h = tt
Holds-same v v' a (c ∷ cs) same h = (
  same a (omega arith) (omega arith) ∙ h.0,
  Holds-same v v' (suc a) cs (λ i lo hi. same i (omega arith) (omega arith)) h.1,
)

-- Each string, with its NUL, stands at its pointer, at or above `low`, below `top`.
abbrev pub Strings : (ℕ → ℕ) → (low top : ℕ) → (pointers : List ℕ) → List (List ℕ) → Type 0
Strings v low top [] [] = Unit
Strings v low top (p ∷ ps) (s ∷ ss) =
    (low ≤ p)
    × (p + length s < top)
    × (p % 16 ≡ 0)
    × Holds v p (s ++ (0 ∷ []))
    × Strings v low top ps ss
Strings v low top [] (s ∷ ss) = ⊥
Strings v low top (p ∷ ps) [] = ⊥

pub length-nul : (s : List ℕ) → length (s ++ (0 ∷ [])) ≡ length s + 1
length-nul [] = omega arith
length-nul (c ∷ s) = omega (arith, length-nul s)

-- What stands from `low` on is not changed by writes below it.
pub Strings-same :
    (v v' : ℕ → ℕ) (low low' top top' : ℕ) (ps : List ℕ) (ss : List (List ℕ))
    → low' ≤ low
    → top ≤ top'
    → ((i : ℕ) → low ≤ i → v' i ≡ v i)
    → Strings v low top ps ss
    → Strings v' low' top' ps ss
Strings-same v v' low low' top top' [] [] le le' same h = tt
Strings-same v v' low low' top top' [] (s ∷ ss) le le' same h = absurd h
Strings-same v v' low low' top top' (p ∷ ps) [] le le' same h = absurd h
Strings-same v v' low low' top top' (p ∷ ps) (s ∷ ss) le le' same (lo, hi, al, here, rest) = (
  omega arith,
  omega arith,
  al,
  Holds-same v v' p (s ++ (0 ∷ [])) (λ i from to. same i (omega arith)) here,
  Strings-same v v' low low' top top' ps ss le le' same rest,
)

pub length-words : (vs : List ℕ) → length (words vs) ≡ length vs * 8
unfolding words
length-words [] = refl
length-words (v ∷ vs) = omega (arith, length-words vs)

pub length-Strings :
    (v : ℕ → ℕ) (low top : ℕ) (ps : List ℕ) (ss : List (List ℕ))
    → Strings v low top ps ss
    → length ps ≡ length ss
length-Strings v low top [] [] h = refl
length-Strings v low top [] (s ∷ ss) h = absurd h
length-Strings v low top (p ∷ ps) [] h = absurd h
length-Strings v low top (p ∷ ps) (s ∷ ss) (lo, hi, al, here, rest) =
    omega (arith, length-Strings v low top ps ss rest)
