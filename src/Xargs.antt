-- ===== src/Xargs.antt =====
-- lab1, xargs: xv6-labs-2024/lab1: util/5. xargs/xargs.c.
pub mod Lines
mod Tests
use mit.Base.{
  ℕ, suc, ◌+◌, Bool, Option, none, some, List, [], ◌∷◌, ◌++◌, ◌==◌, ltb, leb, not, length,
  if◌then◌else◌,
}

abbrev pub newline : ℕ
newline = 10

-- The text at the start of the buffer: its bytes up to the first NUL.
pub text : List ℕ → List ℕ
text [] = []
text (c ∷ s) = let rest = text s in if c == 0 then [] else c ∷ rest

-- The sizes of `buf` and of `args`.
abbrev pub buf_size : ℕ
buf_size = 1024

abbrev pub args_size : ℕ
args_size = 32

-- A program that is run, before the ones that follow.
abbrev pub then_run : List (List ℕ) → Option (List (List (List ℕ))) → Option (List (List (List ℕ)))
then_run run none = none
then_run run (some runs) = some (run ∷ runs)

-- The loop of `main`: the argument lists of the programs that are run, in order. `buf` is the bytes
-- below `p`; `fork n` says whether the call of `fork` number `n` makes a process, in which `exec`
-- does not return. `none` stands for a write past the end of `buf` or of `args`, of which C says
-- nothing.
pub read_loop :
    (args : List (List ℕ))
    → (fork : ℕ → Bool) → (n : ℕ) → (buf input : List ℕ) → Option (List (List (List ℕ)))
unfolding text
read_loop args fork n buf [] = some []
read_loop args fork n buf (c ∷ input) =
    let line = read_loop args fork (suc n) [] input in
    let no_child = read_loop args fork (suc n) buf input in
    let more = read_loop args fork n (buf ++ (c ∷ [])) input in
    if leb buf_size (length buf)
    then none
    else if not (c == newline)
    then more
    else if not (fork n)
    then no_child
    else if ltb args_size (length args + 2)
    then none
    else then_run (args ++ (text buf ∷ [])) line

-- `main`, for the name of xargs, `argv[0]`, and the other arguments, which start each program's.
pub main :
    (fork : ℕ → Bool)
    → (prog : List ℕ) → (args : List (List ℕ)) → (input : List ℕ) → Option (List (List (List ℕ)))
unfolding read_loop
main fork prog args input =
    if ltb args_size (length args) then none else read_loop args fork 0 [] input
