-- ===== src/Find/Found.antt =====
-- find.c: which paths are printed.
use mit.Base.{
  ℕ, zero, suc, ◌+◌, ◌≤◌, ◌<◌, ◌≡◌, ◌≢◌, ◌⊎◌, inl, inr, refl, false, List, [], ◌∷◌, ◌++◌,
  if◌then◌else◌, Run, ok, Ensures, Ensures-bind, Ensures-weaken, length, length-append, arith, In,
  In-append, In-append_left, In-append_right, Bool-cases, ap, sym, ◌∙◌,
}
use mathlib.Core.Path.{subst}
use mit.Find.Paths.{clash, EndsIn, Listed, same-EndsIn, skipped-Listed}
use mit.Find.{
  Dirent, Node, closed, no_stat, file, directory, device, Line, found, cannot_open, cannot_stat,
  too_long, same, skipped, join, long, get_file_name, entries_loop, find,
}

-- The entry is one of the directory's.
abbrev pub Entry : Dirent → List Dirent → Type 0
Entry de [] = ⊥
Entry de (e ∷ es) = (e ≡ de) ⊎ Entry de es

found-injective : {p q : List ℕ} → found p ≡ found q → p ≡ q
found-injective e = cc

pub no_file : {des : List Dirent} → file ≢ directory des
no_file = λ e. absurd (ground (arith, e))

pub directory-injective : {des des' : List Dirent} → directory des ≡ directory des' → des ≡ des'
directory-injective e = cc

module _ (fs : List ℕ → Node) (file_name : List ℕ) where
  -- `q` is a file whose path ends in the name and that lies at `path` or below it: the path of each
  -- directory on the way has at most 496 bytes, and each step goes by an entry that is in use and
  -- neither `.` nor `..`.
  pub data Below : List ℕ → List ℕ → Type 0 where
    here : {path : List ℕ} → fs path ≡ file → EndsIn path file_name → Below path path
    under :
        {path q : List ℕ} {des : List Dirent} (de : Dirent)
        → fs path ≡ directory des
        → length path + 16 ≤ 512
        → Entry de des
        → Listed de
        → Below (join path de.name) q
        → Below path q

  -- The lines name exactly the files below the path.
  abbrev pub Complete : List ℕ → List Line → Type 0
  Complete path lines =
      (q : List ℕ) → (In (found q) lines → Below path q) × (Below path q → In (found q) lines)

  -- A file below an entry of a directory.
  abbrev Through : List ℕ → List Dirent → List ℕ → Type 0
  Through path des q = (de : Dirent) × Entry de des × Listed de × Below (join path de.name) q

  abbrev CompleteIn : List ℕ → List Dirent → List Line → Type 0
  CompleteIn path des lines =
      (q : List ℕ)
      → (In (found q) lines → Through path des q) × (Through path des q → In (found q) lines)

  skip-CompleteIn :
      (path : List ℕ) (de : Dirent) (des : List Dirent) (lines : List Line)
      → ¬ Listed de
      → CompleteIn path des lines
      → CompleteIn path (de ∷ des) lines
  skip-CompleteIn path de des lines skip c = λ q. (
    (λ i. let (e, m, n, b) = (c q).0 i in (e, inr m, n, b)),
    (λ t. elim (t.1) [
      | inl same_de ↦ absurd (skip (subst Listed (sym same_de) (t.2)))
      | inr m ↦ (c q).1 (t.0, m, t.2, t.3)
    ]),
  )

  visit-CompleteIn :
      (path : List ℕ) (de : Dirent) (des : List Dirent) (a b : List Line)
      → Listed de
      → Complete (join path de.name) a
      → CompleteIn path des b
      → CompleteIn path (de ∷ des) (a ++ b)
  visit-CompleteIn path de des a b keep h c = λ q. (
    (λ i. elim (In-append (found q) a b i) [
      | inl first ↦ (de, inl refl, keep, (h q).0 first)
      | inr later ↦ let (e, m, n, below) = (c q).0 later in (e, inr m, n, below)
    ]),
    (λ t. elim (t.1) [
      | inl same_de ↦
          let below = subst (λ (e : Dirent). Below (join path e.name) q) (sym same_de) (t.3) in
          In-append_left (found q) a b ((h q).1 below)
      | inr m ↦ In-append_right (found q) a b ((c q).1 (t.0, m, t.2, t.3))
    ]),
  )

  entries_loop-CompleteIn :
      (visit : List ℕ → Run (List Line)) (path : List ℕ) (des : List Dirent)
      → ((name : List ℕ) → Ensures (visit (join path name)) (Complete (join path name)))
      → Ensures (entries_loop visit path des) (CompleteIn path des)
  unfolding entries_loop
  entries_loop-CompleteIn visit path [] h = λ q. ((λ i. absurd i), (λ t. absurd (t.1)))
  entries_loop-CompleteIn visit path (de ∷ des) h = elim (Bool-cases (skipped de)) [
    | inl skip ↦ rw skip (
        Ensures-weaken (CompleteIn path des) (CompleteIn path (de ∷ des)) _
          (entries_loop-CompleteIn visit path des h)
          (λ lines c. skip-CompleteIn path de des lines ((skipped-Listed de).1 skip) c))
    | inr keep ↦ rw keep (
        Ensures-bind (Complete (join path de.name)) (CompleteIn path (de ∷ des)) _ _ (h de.name)
          (λ a ca.
            Ensures-bind (CompleteIn path des) (CompleteIn path (de ∷ des)) _ _
              (entries_loop-CompleteIn visit path des h)
              (λ b cb. visit-CompleteIn path de des a b ((skipped-Listed de).0 keep) ca cb)))
  ]

  -- What can be read off a path's node about the files below it.
  Below-file :
      {path q : List ℕ} → Below path q → fs path ≡ file → (path ≡ q) × EndsIn path file_name
  Below-file (here f s) e = (refl, s)
  Below-file (under de d n m k b) e = absurd (no_file (sym e ∙ d))

  Below-directory :
      {path q : List ℕ} {des : List Dirent}
      → Below path q
      → fs path ≡ directory des
      → Through path des q
  Below-directory (here f s) e = absurd (no_file (sym f ∙ e))
  Below-directory {path} {q} (under de d n m k b) e =
      (de, subst (λ ds. Entry de ds) (directory-injective (sym d ∙ e)) m, k, b)

  Below-other :
      {path q : List ℕ}
      → Below path q
      → fs path ≢ file
      → ((des : List Dirent) → fs path ≢ directory des)
      → ⊥
  Below-other (here f s) nf nd = nf f
  Below-other (under de d n m k b) nf nd = nd _ d

  Below-fits :
      {path q : List ℕ} {des : List Dirent}
      → Below path q
      → fs path ≡ directory des
      → length path + 16 ≤ 512
  Below-fits (here f s) e = absurd (no_file (sym f ∙ e))
  Below-fits (under de d n m k b) e = n

  -- `find` at a node.
  abbrev at_node : (fuel : ℕ) → List ℕ → Node → Run (List Line)
  at_node fuel path node = elim node [
    | closed ↦ ok (cannot_open path ∷ [])
    | no_stat ↦ ok (cannot_stat path ∷ [])
    | file ↦ ok (if same (get_file_name path) file_name then found path ∷ [] else [])
    | directory des ↦
        let inside = entries_loop (find fs file_name fuel) path des in
        if long path then ok (too_long ∷ []) else inside
    | device ↦ ok []
  ]

  -- One line that names no file, of a node with nothing below it.
  nothing :
      (path : List ℕ) (l : Line)
      → ((q : List ℕ) → l ≢ found q)
      → ((q : List ℕ) → ¬ Below path q)
      → Complete path (l ∷ [])
  nothing path l other none_below = λ q. (
    (λ i. elim i [ inl e ↦ absurd (other q e) | inr a ↦ absurd a ]),
    (λ b. absurd (none_below q b)),
  )

  file-Complete :
      (path : List ℕ)
      → fs path ≡ file
      → Complete path (if same (get_file_name path) file_name then found path ∷ [] else [])
  file-Complete path e = elim (Bool-cases (same (get_file_name path) file_name)) [
    | inl y ↦ rw y (λ q. (
      (λ i. elim i [
        | inl p ↦
            let eq : path ≡ q = found-injective p in
            subst (Below path) eq (here e ((same-EndsIn path file_name).0 y))
        | inr a ↦ absurd a
      ]),
      (λ b. inl (ap found (Below-file b e).0)),
    ))
    | inr n ↦ rw n (λ q. (
      (λ i. absurd i),
      (λ b. absurd (clash (sym ((same-EndsIn path file_name).1 (Below-file b e).1) ∙ n))),
    ))
  ]

  at_node-Complete :
      (fuel : ℕ) (path : List ℕ) (node : Node)
      → fs path ≡ node
      → (long path ≡ false
          → (name : List ℕ)
          → Ensures (find fs file_name fuel (join path name)) (Complete (join path name)))
      → Ensures (at_node fuel path node) (Complete path)
  at_node-Complete fuel path closed e h =
      nothing path (cannot_open path) (λ q l. ground (arith, l))
        (λ q b. Below-other b (λ f. ground (arith, e, f)) (λ des d. ground (arith, e, d)))
  at_node-Complete fuel path no_stat e h =
      nothing path (cannot_stat path) (λ q l. ground (arith, l))
        (λ q b. Below-other b (λ f. ground (arith, e, f)) (λ des d. ground (arith, e, d)))
  at_node-Complete fuel path file e h = file-Complete path e
  at_node-Complete fuel path (directory des) e h = elim (Bool-cases (long path)) [
    | inl y ↦
        let short : length path + 16 ≤ 512 → long path ≡ false = λ le. ground arith in
        rw y (
          nothing path too_long (λ q l. ground (arith, l))
            (λ q b. clash (sym y ∙ short (Below-fits b e))))
    | inr n ↦
        let fits : length path + 16 ≤ 512 = ground arith in
        rw n (
          Ensures-weaken (CompleteIn path des) (Complete path) _
            (entries_loop-CompleteIn (find fs file_name fuel) path des (h n))
            (λ lines c q. (
              (λ i. let (de, m, k, b) = (c q).0 i in under de e fits m k b),
              (λ b. (c q).1 (Below-directory b e)),
            )))
  ]
  at_node-Complete fuel path device e h = λ q. (
    (λ i. absurd i),
    (λ b. absurd (Below-other b (λ f. ground (arith, e, f)) (λ des d. ground (arith, e, d)))),
  )

  -- With fuel for the bytes that the path may grow by, `find` ends, for every file system, also one
  -- with cycles; and what it prints as found is exactly the files at or below the path whose path ends
  -- in the name, where it goes by entries in use other than `.` and `..`, and by directories whose
  -- path has at most 496 bytes.
  pub find-Complete :
      (fuel : ℕ) (path : List ℕ)
      → 0 < fuel
      → 497 < length path + fuel
      → Ensures (find fs file_name fuel path) (Complete path)
  unfolding find
  find-Complete zero path pos en = absurd (omega arith)
  find-Complete (suc fuel) path pos en = at_node-Complete fuel path (fs path) refl (λ fits name.
      let short : length path + 16 ≤ 512 = ground arith in
      let longer : length path + 1 ≤ length (join path name) = omega (arith, length-append path) in
      find-Complete fuel (join path name) (omega arith) (omega (arith, longer)))
