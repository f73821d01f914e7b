-- ===== src/Find/Tests.antt =====
-- `find` in a small tree: `a` holds itself, the file `b`, and the directory `c` with a file `b`.
use mit.Base.{
  ℕ, ◌≡◌, refl, false, List, [], ◌∷◌, if◌then◌else◌, ok, Ensures, arith, inl, inr, ◌∙◌, sym,
  Bool-cases,
}
use mathlib.Core.Path.{subst}
use mit.Find.{
  Dirent, Node, closed, file, directory, found, same, join, get_file_name, entries_loop, find, main,
}
use mit.Find.Paths.{get_file_name-join}
use mit.Find.Found.{no_file, directory-injective, Complete, find-Complete}
use mit.Find.Bounds.{NamesFit, FitsBuf, find-FitsBuf}

abbrev a : List ℕ
a = 97 ∷ []

abbrev b : List ℕ
b = 98 ∷ []

abbrev c : List ℕ
c = 99 ∷ []

abbrev a_entries : List Dirent
a_entries =
    record { inum = 1; name = 46 ∷ [] }
    ∷ record { inum = 2; name = b }
    ∷ record { inum = 0; name = b }
    ∷ record { inum = 3; name = c }
    ∷ []

abbrev c_entries : List Dirent
c_entries = record { inum = 4; name = b } ∷ []

abbrev fs : List ℕ → Node
fs path =
    if same path a
    then directory a_entries
    else if same path (join a c)
    then directory c_entries
    else if same path (join a b)
    then file
    else if same path (join (join a c) b)
    then file
    else closed

both_files :
    main fs ((102 ∷ []) ∷ a ∷ b ∷ []) ≡ ok (found (join a b) ∷ found (join (join a c) b) ∷ [])
unfolding main entries_loop
both_files = refl

find-Complete_example : Ensures (find fs b 512 a) (Complete fs b a)
find-Complete_example = find-Complete fs b 512 a (omega arith) (omega arith)

name_behind_path : get_file_name (join (join a c) b) ≡ b
name_behind_path = get_file_name-join (join a c) b (omega arith)

-- A directory with one name, and files everywhere else.
abbrev one : List ℕ → Node
one path = if same path a then directory c_entries else file

one_file : (p : List ℕ) → same p a ≡ false → one p ≡ file
one_file p n = rw n

one-NamesFit : (p : List ℕ) (des : List Dirent) → one p ≡ directory des → NamesFit des
one-NamesFit p des e = elim (Bool-cases (same p a)) [
  | inl y ↦
      let here : directory c_entries ≡ one p = rw y in
      subst NamesFit (directory-injective (here ∙ e)) (omega arith)
  | inr n ↦ absurd (no_file (sym (one_file p n) ∙ e))
]

find-FitsBuf_example : Ensures (find one b 512 a) (FitsBuf a)
find-FitsBuf_example = find-FitsBuf one b a 512 one-NamesFit (omega arith) (omega arith)
