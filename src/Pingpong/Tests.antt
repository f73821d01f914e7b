-- ===== src/Pingpong/Tests.antt =====
-- pingpong with pipes that hold one text.
use mit.Base.{
  ℕ, ◌<◌, ◌≤◌, ◌≡◌, ◌⊎◌, ◌++◌, refl, Bool, true, false, List, [], ◌∷◌, none, some, arith, length,
}
use mit.Pingpong.{Pipes, received_ping, received_pong, run, start}
use mit.Pingpong.Turns.{Laws}
use mit.Pingpong.Order.{InOrder, Ended, CanStep, rounds, run-Ended}

-- The text in the pipe. An empty pipe that nobody can write gives the end of file.
abbrev slots : Pipes
slots = record {
  Buffer = List ℕ;
  fresh = [];
  put = λ text buffer. elim buffer [ [] ↦ some text | x ∷ xs ↦ none ];
  get = λ writer n buffer. elim buffer [
    | [] ↦ elim writer [ true ↦ none | false ↦ some ([], []) ]
    | x ∷ xs ↦ some (x ∷ xs, [])
  ];
}

read_back :
    (text : List ℕ) (w : Bool)
    → 0 < length text
    → length text ≤ 512
    → slots.get w (length text) text ≡ some (text, [])
read_back [] w pos le = absurd (omega arith)
read_back (x ∷ xs) w pos le = refl

abbrev slots_laws : Laws slots
slots_laws = record {
  waits = λ n. refl;
  full = λ text. text;
  stored = λ text le. refl;
  read_back = read_back;
}

-- The parent first waits for the child, and the child for the parent.
abbrev eager : List Bool
eager = false ∷ false ∷ true ∷ true ∷ true ∷ true ∷ false ∷ false ∷ true ∷ []

nothing_yet : (run slots eager (start slots 4 3)).printed ≡ []
unfolding run start
nothing_yet = refl

run-Ended_example :
    InOrder slots slots_laws 4 3 (run slots eager (start slots 4 3)).printed
    × (Ended slots slots_laws 4 3 (run slots eager (start slots 4 3))
        ⊎ CanStep slots slots_laws 4 3 (run slots eager (start slots 4 3)))
    × Ended slots slots_laws 4 3
        (run slots (eager ++ rounds slots slots_laws 4 3 16) (start slots 4 3))
    × ((run slots (eager ++ rounds slots slots_laws 4 3 16) (start slots 4 3)).printed
        ≡ (4, received_ping) ∷ (3, received_pong) ∷ [])
run-Ended_example = run-Ended slots slots_laws 4 3 eager
