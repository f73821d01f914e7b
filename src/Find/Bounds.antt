-- ===== src/Find/Bounds.antt =====
-- find.c: the paths that are made in `buf`.
use mit.Base.{
  ℕ, ◌+◌, ◌≤◌, ◌≡◌, ◌⊎◌, inl, inr, refl, List, [], ◌∷◌, length, length-append, arith, In, Ensures,
  Ensures-weaken, ◌<◌,
}
use mathlib.Core.Path.{subst}
use mit.Find.{Dirent, Node, directory, name_size, buf_size, join, Line, found, find}
use mit.Find.Found.{Entry, Below, here, under, Complete, find-Complete}

-- The names of a directory have at most DIRSIZ bytes.
abbrev pub NamesFit : List Dirent → Type 0
NamesFit [] = Unit {0}
NamesFit (de ∷ des) = (length de.name ≤ name_size) × NamesFit des

Entry-NamesFit :
    (de : Dirent) (des : List Dirent) → Entry de des → NamesFit des → length de.name ≤ name_size
Entry-NamesFit de [] m h = absurd m
Entry-NamesFit de (e ∷ es) (inl same_de) h =
    subst (λ (d : Dirent). length d.name ≤ name_size) same_de h.0
Entry-NamesFit de (e ∷ es) (inr m) h = Entry-NamesFit de es m h.1

Below-fits_buf :
    (fs : List ℕ → Node) (file_name path q : List ℕ)
    → ((p : List ℕ) (des : List Dirent) → fs p ≡ directory des → NamesFit des)
    → Below fs file_name path q
    → (path ≡ q) ⊎ (length q + 1 ≤ buf_size)
Below-fits_buf fs file_name path q names (here f s) = inl refl
Below-fits_buf fs file_name path q names (under {des = des} de d fits m k b) =
    elim (Below-fits_buf fs file_name (join path de.name) q names b) [
      | inl last ↦
          let short : length de.name ≤ name_size = Entry-NamesFit de des m (names path des d) in
          let len : length (join path de.name) + 1 ≤ buf_size =
            omega (arith, length-append path, short, fits) in
          inr (subst (λ (x : List ℕ). length x + 1 ≤ buf_size) last len)
      | inr fine ↦ inr fine
    ]

-- Each path that the lines name as found is the first one, or it fits in `buf` with its NUL.
abbrev pub FitsBuf : (path : List ℕ) → List Line → Type 0
FitsBuf path lines = (q : List ℕ) → In (found q) lines → (path ≡ q) ⊎ (length q + 1 ≤ buf_size)

-- Where every name of a directory has at most DIRSIZ bytes, and with fuel for the bytes that the path
-- may grow by, `find` ends, and each path that it prints as found, but for the one that it is
-- called with, fits in `buf` with its NUL.
pub find-FitsBuf :
    (fs : List ℕ → Node) (file_name path : List ℕ) (fuel : ℕ)
    → ((p : List ℕ) (des : List Dirent) → fs p ≡ directory des → NamesFit des)
    → 0 < fuel
    → 497 < length path + fuel
    → Ensures (find fs file_name fuel path) (FitsBuf path)
find-FitsBuf fs file_name path fuel names pos enough =
    Ensures-weaken (Complete fs file_name path) (FitsBuf path) (find fs file_name fuel path)
      (find-Complete fs file_name fuel path pos enough)
      (λ lines c q i. Below-fits_buf fs file_name path q names ((c q).0 i))
