-- ===== src/Xargs/Lines.antt =====
-- xargs.c: what is run for an input of lines.
use mit.Base.{
  ℕ, suc, ◌≡◌, ◌≢◌, refl, Bool, true, false, List, [], ◌∷◌, ◌++◌, ◌==◌, map, arith, ◌∙◌, ap, sym,
  some, length, length-append, ◌+◌, ◌≤◌, ◌<◌, ltb, leb,
}
use mathlib.Core.List.{append_assoc, append-nil}
use mit.Xargs.{newline, buf_size, args_size, text, then_run, read_loop, main}

-- A line has no newline and no NUL.
abbrev pub IsLine : List ℕ → Type 0
IsLine [] = Unit {0}
IsLine (c ∷ s) = (c ≢ newline) × (c ≢ 0) × IsLine s

-- Lines that fit in the buffer with their newline.
abbrev pub AllLines : List (List ℕ) → Type 0
AllLines [] = Unit {0}
AllLines (l ∷ ls) = IsLine l × (length l < buf_size) × AllLines ls

-- The lines, each with its newline.
abbrev pub unlines : List (List ℕ) → List ℕ
unlines [] = []
unlines (l ∷ ls) = l ++ (newline ∷ unlines ls)

text-IsLine : (l : List ℕ) → IsLine l → text l ≡ l
unfolding text
text-IsLine [] h = refl
text-IsLine (c ∷ s) (nl, nz, h) =
    let t : (c == 0) ≡ false = ground arith in rw t (ap (λ (x : List ℕ). c ∷ x) (text-IsLine s h))

module _ (args : List (List ℕ)) (fork : ℕ → Bool) where
  -- The bytes of a line go to the buffer.
  read_loop-line :
      (n : ℕ) (buf l rest : List ℕ)
      → IsLine l
      → length buf + length l ≤ buf_size
      → read_loop args fork n buf (l ++ rest) ≡ read_loop args fork n (buf ++ l) rest
  unfolding read_loop
  read_loop-line n buf [] rest h fits =
      ap (λ (b : List ℕ). read_loop args fork n b rest) (sym (append-nil buf))
  read_loop-line n buf (c ∷ l) rest (nl, nz, h) fits =
      let t : (c == newline) ≡ false = ground arith in
      let room : leb buf_size (length buf) ≡ false = ground (arith, fits) in
      rw (room, t)
        (read_loop-line n (buf ++ (c ∷ [])) l rest h
            (omega (arith, fits, length-append buf (c ∷ [])))
          ∙ ap (λ (b : List ℕ). read_loop args fork n b rest) (append_assoc buf (c ∷ []) l))

  read_loop-newline :
      (n : ℕ) (l rest : List ℕ)
      → fork n ≡ true
      → IsLine l
      → length l < buf_size
      → length args + 2 ≤ args_size
      → read_loop args fork n l (newline ∷ rest)
        ≡ then_run (args ++ (l ∷ [])) (read_loop args fork (suc n) [] rest)
  unfolding read_loop
  read_loop-newline n l rest f h fits few =
      let room : leb buf_size (length l) ≡ false = ground (arith, fits) in
      let some_room : ltb args_size (length args + 2) ≡ false = ground (arith, few) in
      rw (room, f, some_room, text-IsLine l h) refl

  read_loop-nil : (n : ℕ) (buf : List ℕ) → read_loop args fork n buf [] ≡ some []
  unfolding read_loop
  read_loop-nil n buf = refl

  read_loop-unlines :
      (n : ℕ) (ls : List (List ℕ)) (tail : List ℕ)
      → length args + 2 ≤ args_size
      → ((i : ℕ) → fork i ≡ true)
      → AllLines ls
      → IsLine tail
      → length tail ≤ buf_size
      → read_loop args fork n [] (unlines ls ++ tail) ≡ some (map (λ l. args ++ (l ∷ [])) ls)
  read_loop-unlines n [] tail few f h t short =
      ap (read_loop args fork n []) (sym (append-nil tail))
      ∙ (read_loop-line n [] tail [] t (omega (arith, short)) ∙ read_loop-nil n tail)
  read_loop-unlines n (l ∷ ls) tail few f (h, fits, hs) t short =
      ap (read_loop args fork n []) (append_assoc l (newline ∷ unlines ls) tail)
      ∙ (read_loop-line n [] l (newline ∷ (unlines ls ++ tail)) h (omega (arith, fits))
          ∙ (read_loop-newline n l (unlines ls ++ tail) (f n) h fits few
              ∙ ap (then_run (args ++ (l ∷ [])))
                  (read_loop-unlines (suc n) ls tail few f hs t short)))

-- If `fork` works, at most 30 arguments are given, each line has less than 1024 bytes, and what stands
-- after the last newline at most 1024: xargs writes past no array, and runs for each line of its
-- input, in order, the given program with the given arguments and the line behind them; what stands
-- after the last newline is not run.
pub main-unlines :
    (fork : ℕ → Bool) (prog : List ℕ) (args ls : List (List ℕ)) (tail : List ℕ)
    → length args + 2 ≤ args_size
    → ((i : ℕ) → fork i ≡ true)
    → AllLines ls
    → IsLine tail
    → length tail ≤ buf_size
    → main fork prog args (unlines ls ++ tail) ≡ some (map (λ l. args ++ (l ∷ [])) ls)
unfolding main
main-unlines fork prog args ls tail few f h t short =
    let all : ltb args_size (length args) ≡ false = ground (arith, few) in
    rw all (read_loop-unlines args fork 0 ls tail few f h t short)
