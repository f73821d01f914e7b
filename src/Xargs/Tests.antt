-- ===== src/Xargs/Tests.antt =====
-- A run of xargs.
use mit.Base.{ℕ, ◌≡◌, refl, Bool, true, [], ◌∷◌, ◌++◌, map, ◌==◌, not, arith, some}
use mit.Xargs.{main}
use mit.Xargs.Lines.{unlines, main-unlines}

abbrev works : ℕ → Bool
works n = true

-- `(echo 1 ; echo 2) | xargs echo bye`, with a piece of a third line: the texts are given by their
-- bytes.
main-unlines_example :
    main works
      (120 ∷ [])
      ((101 ∷ []) ∷ (98 ∷ []) ∷ [])
      (unlines ((49 ∷ []) ∷ (50 ∷ []) ∷ []) ++ (51 ∷ []))
    ≡ some (map (λ l. ((101 ∷ []) ∷ (98 ∷ []) ∷ []) ++ (l ∷ [])) ((49 ∷ []) ∷ (50 ∷ []) ∷ []))
main-unlines_example =
    main-unlines works (120 ∷ []) ((101 ∷ []) ∷ (98 ∷ []) ∷ []) ((49 ∷ []) ∷ (50 ∷ []) ∷ [])
      (51 ∷ []) (omega arith) (λ i. refl) (omega arith) (omega arith) (omega arith)

-- Where the first `fork` fails, the line is run together with the next one.
joined_lines :
    main (λ n. not (n == 0)) (120 ∷ []) [] (49 ∷ 10 ∷ 50 ∷ 10 ∷ [])
    ≡ some (((49 ∷ 50 ∷ []) ∷ []) ∷ [])
unfolding main
joined_lines = refl
