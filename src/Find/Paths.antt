-- ===== src/Find/Paths.antt =====
-- find.c: the name at the end of a path, and the entries that are passed over.
use mathlib.Core.Path.{subst}
use native.Mathlib.Decide.{ℕ_discrete}
use mit.Base.{
  ◌⊎◌, inl, inr, Bool-cases, ℕ, zero, suc, ◌+◌, ◌≡◌, ◌≢◌, refl, true, false, List, [], ◌∷◌, ◌++◌,
  ◌==◌, length, length-append, arith, ◌∙◌, ap, sym,
}
use mit.Find.{Dirent, same, skipped, slash, drop, char_at, after_slash, get_file_name, join}

pub clash : true ≢ false
clash = λ e. absurd (ground (arith, e))

-- No byte of the name is a slash.
abbrev pub NoSlash : List ℕ → Type 0
NoSlash [] = Unit {0}
NoSlash (c ∷ s) = (c ≢ slash) × NoSlash s

char_at-append : (p s : List ℕ) (i : ℕ) → char_at (p ++ s) (length p + i) ≡ char_at s i
char_at-append [] s i = let e : 0 + i ≡ i = omega arith in rw e
char_at-append (c ∷ p) s i =
    let e : suc (length p) + i ≡ suc (length p + i) = omega arith in rw e (char_at-append p s i)

-- No place of the name, nor its end, holds a slash.
char_at-NoSlash : (s : List ℕ) (i : ℕ) → NoSlash s → char_at s i ≢ slash
char_at-NoSlash [] i h = omega arith
char_at-NoSlash (c ∷ s) zero h = h.0
char_at-NoSlash (c ∷ s) (suc i) h = char_at-NoSlash s i h.1

after_slash-found :
    (path : List ℕ) (n : ℕ) → char_at path n ≡ slash → after_slash (suc n) path ≡ drop (suc n) path
unfolding after_slash
after_slash-found path n e = let t : (char_at path n == slash) ≡ true = ground arith in rw t

after_slash-next :
    (path : List ℕ) (n : ℕ) → char_at path n ≢ slash → after_slash (suc n) path ≡ after_slash n path
unfolding after_slash
after_slash-next path n e = let t : (char_at path n == slash) ≡ false = ground arith in rw t

drop-join : (path name : List ℕ) → drop (suc (length path)) (join path name) ≡ name
drop-join [] name = refl
drop-join (c ∷ path) name = drop-join path name

after_slash-join :
    (path name : List ℕ) (i : ℕ)
    → NoSlash name
    → after_slash (suc (length path + i)) (join path name) ≡ name
after_slash-join path name zero h =
    let e : length path + 0 ≡ length path = omega arith in
    let at : char_at (join path name) (length path) ≡ slash =
      ap (char_at (join path name)) (sym e) ∙ char_at-append path (slash ∷ name) 0 in
    rw e (after_slash-found (join path name) (length path) at ∙ drop-join path name)
after_slash-join path name (suc i) h =
    let e : length path + suc i ≡ suc (length path + i) = omega arith in
    let at : char_at (join path name) (length path + suc i) ≡ char_at name i =
      char_at-append path (slash ∷ name) (suc i) in
    after_slash-next (join path name) (length path + suc i)
      (λ is_slash. char_at-NoSlash name i h (sym at ∙ is_slash))
    ∙ (rw e (after_slash-join path name i h))

-- The name that a directory's entry adds to a path is what `get_file_name` finds there, if it has no
-- slash.
pub get_file_name-join : (path name : List ℕ) → NoSlash name → get_file_name (join path name) ≡ name
unfolding get_file_name
get_file_name-join path name h =
    let e : length (join path name) ≡ length path + suc (length name) =
      length-append path (slash ∷ name) in
    rw e (after_slash-join path name (suc (length name)) h)

after_slash-NoSlash : (n : ℕ) (path : List ℕ) → NoSlash path → after_slash n path ≡ path
unfolding after_slash
after_slash-NoSlash zero path h = refl
after_slash-NoSlash (suc n) path h =
    after_slash-next path n (char_at-NoSlash path n h) ∙ after_slash-NoSlash n path h

get_file_name-NoSlash : (path : List ℕ) → NoSlash path → get_file_name path ≡ path
unfolding get_file_name
get_file_name-NoSlash path h = after_slash-NoSlash (suc (length path)) path h

-- The path ends in the name: it is the name, or the name stands behind its last slash.
abbrev pub EndsIn : (path name : List ℕ) → Type 0
EndsIn path name =
    NoSlash name × ((path ≡ name) ⊎ ((dir : List ℕ) × (path ≡ dir ++ (slash ∷ name))))

EndsIn-cons :
    (c : ℕ) (path name : List ℕ)
    → (c ≡ slash) ⊎ (c ≢ slash)
    → EndsIn path name
    → (last : List ℕ) × EndsIn (c ∷ path) last
EndsIn-cons c path name (inl e) (h, inl whole) = (name, (h, inr ([], rw (e, whole) refl)))
EndsIn-cons c path name (inr n) (h, inl whole) = (c ∷ path, (rw whole (n, h), inl refl))
EndsIn-cons c path name d (h, inr (dir, e)) = (name, (h, inr (c ∷ dir, rw e refl)))

-- Every path ends in some name.
last_of : (path : List ℕ) → (name : List ℕ) × EndsIn path name
last_of [] = ([], (tt, inl refl))
last_of (c ∷ path) =
    let (name, h) = last_of path in
    EndsIn-cons c path name (elim (ℕ_discrete c slash) [ yes e ↦ inl e | no n ↦ inr n ]) h

get_file_name-EndsIn : (path name : List ℕ) → EndsIn path name → get_file_name path ≡ name
get_file_name-EndsIn path name (h, inl e) = ap get_file_name e ∙ get_file_name-NoSlash name h
get_file_name-EndsIn path name (h, inr (dir, e)) =
    ap get_file_name e ∙ get_file_name-join dir name h

-- `strcmp` finds the equal texts.
same-eq : (s t : List ℕ) → same s t ≡ true → s ≡ t
same-eq [] [] h = refl
same-eq [] (d ∷ t) h = absurd (clash (sym h))
same-eq (c ∷ s) [] h = absurd (clash (sym h))
same-eq (c ∷ s) (d ∷ t) h =
    let rest = same-eq s t (ground (arith, h)) in
    let head : c ≡ d = ground (arith, h) in rw (head, rest) refl

pub same_refl : (s : List ℕ) → same s s ≡ true
same_refl [] = refl
same_refl (c ∷ s) = let e : (c == c) ≡ true = ground arith in rw e (same_refl s)

-- `find` takes a file for one of the name exactly if its path ends in the name.
pub same-EndsIn :
    (path name : List ℕ)
    → (same (get_file_name path) name ≡ true → EndsIn path name)
      × (EndsIn path name → same (get_file_name path) name ≡ true)
same-EndsIn path name = (
  (λ h.
      let (last, e) = last_of path in
      let eq : last ≡ name =
        sym (get_file_name-EndsIn path last e) ∙ same-eq (get_file_name path) name h in
      subst (EndsIn path) eq e),
  (λ e. rw (get_file_name-EndsIn path name e) (same_refl name)),
)

-- An entry that is in use and is neither `.` nor `..`.
abbrev pub Listed : Dirent → Type 0
Listed de = (de.inum ≢ 0) × (de.name ≢ 46 ∷ []) × (de.name ≢ 46 ∷ 46 ∷ [])

differs : (s t : List ℕ) → same s t ≡ false → s ≢ t
differs s t h e = clash (sym (same_refl t) ∙ (ap (λ u. same u t) (sym e) ∙ h))

pub skipped-Listed :
    (de : Dirent) → (skipped de ≡ false → Listed de) × (skipped de ≡ true → ¬ Listed de)
unfolding skipped
skipped-Listed de = (
  (λ h. (
    ground (arith, h),
    differs de.name (46 ∷ []) (ground (arith, h)),
    differs de.name (46 ∷ 46 ∷ []) (ground (arith, h)),
  )),
  (λ h l. elim (Bool-cases (de.inum == 0)) [
    | inl z ↦ l.0 (ground (arith, z))
    | inr z ↦ elim (Bool-cases (same de.name (46 ∷ []))) [
      | inl one ↦ l.1 (same-eq de.name (46 ∷ []) one)
      | inr one ↦ l.2 (same-eq de.name (46 ∷ 46 ∷ []) (ground (arith, h, z, one)))
    ]
  ]),
)
