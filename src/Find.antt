-- ===== src/Find.antt =====
-- lab1, find: xv6-labs-2024/lab1: util/4. find/find.c. A text is the list of its bytes up to the NUL.
pub mod Paths
pub mod Found
pub mod Bounds
mod Tests
use mit.Base.{
  ℕ, zero, suc, ◌+◌, Bool, true, false, List, [], ◌∷◌, ◌++◌, ◌==◌, ltb, ◌||◌, ◌&&◌, if◌then◌else◌,
  Option, none, some, Run, ok, out_of_fuel, ◌>>=◌, length, get_elem?,
}

abbrev pub slash : ℕ
slash = 47

abbrev pub dot : ℕ
dot = 46

-- `DIRSIZ`, and the size of `buf`.
abbrev pub name_size : ℕ
name_size = 14

abbrev pub buf_size : ℕ
buf_size = 512

-- `strcmp(s, t) == 0`
abbrev pub same : List ℕ → List ℕ → Bool
same [] [] = true
same [] (d ∷ t) = false
same (c ∷ s) [] = false
same (c ∷ s) (d ∷ t) = (c == d) && same s t

abbrev pub drop : ℕ → List ℕ → List ℕ
drop zero s = s
drop (suc n) [] = []
drop (suc n) (c ∷ s) = drop n s

-- `*(s + i)`, which is NUL at the end.
abbrev pub char_at : List ℕ → ℕ → ℕ
char_at s i = elim (get_elem? s i) [ none ↦ 0 | some c ↦ c ]

-- The loop of `get_file_name`, with `n` places left to look at, and its `p++`.
pub after_slash : (n : ℕ) → List ℕ → List ℕ
after_slash zero path = path
after_slash (suc n) path =
    let rest = after_slash n path in if char_at path n == slash then drop (suc n) path else rest

pub get_file_name : List ℕ → List ℕ
unfolding after_slash
get_file_name path = after_slash (suc (length path)) path

-- `struct dirent`.
pub record Dirent : Type 0 where
  pub inum : ℕ
  pub name : List ℕ

-- What `open`, `fstat` and the reads of a directory give for a path.
pub data Node : Type 0 where
  closed : Node
  no_stat : Node
  file : Node
  directory : List Dirent → Node
  device : Node

-- What `find` prints.
pub data Line : Type 0 where
  found : (path : List ℕ) → Line
  cannot_open : (path : List ℕ) → Line
  cannot_stat : (path : List ℕ) → Line
  too_long : Line

-- An entry that the loop passes over: a free one, `.` and `..`.
pub skipped : Dirent → Bool
skipped de = (de.inum == 0) || (same de.name (dot ∷ []) || same de.name (dot ∷ dot ∷ []))

-- What `buf` holds after the name was copied behind the path.
abbrev pub join : List ℕ → List ℕ → List ℕ
join path name = path ++ (slash ∷ name)

-- The loop over a directory, where `visit` is the recursive call.
pub entries_loop :
    (visit : List ℕ → Run (List Line)) → (path : List ℕ) → List Dirent → Run (List Line)
unfolding skipped
entries_loop visit path [] = ok []
entries_loop visit path (de ∷ des) =
    let rest = entries_loop visit path des in
    if skipped de
    then rest
    else (visit (join path de.name) >>= λ lines. rest >>= λ more. ok (lines ++ more))

-- The path does not fit in `buf` with a name behind it.
abbrev pub long : List ℕ → Bool
long path = ltb buf_size (length path + 1 + name_size + 1)

module _ (fs : List ℕ → Node) (file_name : List ℕ) where
  pub find : (fuel : ℕ) → (path : List ℕ) → Run (List Line)
  unfolding get_file_name
  find zero path = out_of_fuel
  find (suc fuel) path = elim (fs path) [
    | closed ↦ ok (cannot_open path ∷ [])
    | no_stat ↦ ok (cannot_stat path ∷ [])
    | file ↦ ok (if same (get_file_name path) file_name then found path ∷ [] else [])
    | directory des ↦
        let inside = entries_loop (find fuel) path des in
        if long path then ok (too_long ∷ []) else inside
    | device ↦ ok []
  ]

-- `main`, by the arguments from `argv[0]` on. A path grows by a byte at least at each level, up to
-- the size of `buf`.
pub main : (List ℕ → Node) → (argv : List (List ℕ)) → Run (List Line)
unfolding find
main fs (prog ∷ path ∷ file_name ∷ []) = find fs file_name 512 path
main fs _ = ok []
