-- ===== src/Attack/Fork/Files.antt =====
-- lab2, attack: the references that the loop of `fork` takes.
use Prim.Native.String.{String}
use mit.Base.{
  ℕ, zero, suc, ◌+◌, ◌-◌, ◌≤◌, ◌<◌, ◌≡◌, inl, inr, refl, some, ◌==◌, not, ◌&&◌, if◌then◌else◌,
  update, arith, Ensures, Ends, Bool-cases, ◌∙◌,
}
use mit.Attack.Fork.{nofile, Process, Machine, dup_loop}

-- What xv6 does: its functions end; a slot that `allocproc` gives has no open files; `filedup` and
-- `idup` give the file or the directory back, with one reference more; `safestrcpy` copies a text
-- that fits in a process's name.
pub record Laws (m : Machine) : Type 1 where
  pub refs : m.Files → ℕ → ℕ
  pub irefs : m.Files → ℕ → ℕ
  pub Fits : String → Type 0
  pub allocproc_lem :
      (k : m.Kernel)
      → Ensures
          (m.allocproc k)
          (λ r. (np : Process m.Table) → r.0 ≡ some np → (i : ℕ) → np.ofile i ≡ 0)
  pub uvmcopy_ends : (t t' : m.Table) (sz : ℕ) (k : m.Kernel) → Ends (m.uvmcopy t t' sz k)
  pub freeproc_ends : (p : Process m.Table) (k : m.Kernel) → Ends (m.freeproc p k)
  pub filedup_same : (f : ℕ) (s : m.Files) → (m.filedup f s).0 ≡ f
  pub filedup_refs :
      (f : ℕ) (s : m.Files) (g : ℕ)
      → refs (m.filedup f s).1 g ≡ refs s g + (if f == g then 1 else 0)
  pub filedup_irefs : (f : ℕ) (s : m.Files) (g : ℕ) → irefs (m.filedup f s).1 g ≡ irefs s g
  pub idup_same : (d : ℕ) (s : m.Files) → (m.idup d s).0 ≡ d
  pub idup_refs : (d : ℕ) (s : m.Files) (g : ℕ) → refs (m.idup d s).1 g ≡ refs s g
  pub idup_irefs :
      (d : ℕ) (s : m.Files) (g : ℕ) → irefs (m.idup d s).1 g ≡ irefs s g + (if d == g then 1 else 0)
  pub safestrcpy_fits : (t : String) → Fits t → m.safestrcpy t 16 ≡ t

-- How many of the last `count` descriptors are open on the file `f`.
pub uses : (count : ℕ) → (ofile : ℕ → ℕ) → (f : ℕ) → ℕ
uses zero ofile f = 0
uses (suc count) ofile f =
    (if not (ofile (nofile - suc count) == 0) && (ofile (nofile - suc count) == f) then 1 else 0)
    + uses count ofile f

module _ (m : Machine) (laws : Laws m) where
  open laws use {refs, irefs}

  -- What the loop leaves in the child's array and in the counts.
  pub record Dup (count : ℕ) (ofile child : ℕ → ℕ) (s : m.Files) (r : (ℕ → ℕ) × m.Files)
      : Type 0 where
    pub copied : (i : ℕ) → nofile - count ≤ i → i < nofile → child i ≡ 0 → r.0 i ≡ ofile i
    pub before : (i : ℕ) → i < nofile - count → r.0 i ≡ child i
    pub counted : (f : ℕ) → refs r.1 f ≡ refs s f + uses count ofile f
    pub directories : (d : ℕ) → irefs r.1 d ≡ irefs s d

  pub dup_loop-Dup :
      (count : ℕ) (ofile child : ℕ → ℕ) (s : m.Files)
      → count ≤ nofile
      → Dup count ofile child s (dup_loop m count ofile child s)
  unfolding dup_loop uses
  dup_loop-Dup zero ofile child s le = record {
    copied = λ i lo hi e. absurd (omega arith);
    before = λ i lt. refl;
    counted = λ f. omega arith;
    directories = λ d. refl;
  }
  dup_loop-Dup (suc count) ofile child s le =
      let i = nofile - suc count in
      let f = ofile i in
      let d = m.filedup f s in
      let next : nofile - count ≡ suc i = omega arith in
      elim (Bool-cases (f == 0)) [
        | inl z ↦
            let rest = dup_loop-Dup count ofile child s (omega arith) in
            rw z (record {
              copied = λ j lo hi e. elim (Bool-cases (j == i)) [
                | inl same ↦ ground (arith, rest.before j (ground arith), e)
                | inr other ↦ rest.copied j (ground arith) hi e
              ];
              before = λ j lt. rest.before j (omega arith);
              counted = λ g. rw z (omega (arith, rest.counted g));
              directories = rest.directories;
            })
        | inr z ↦
            let rest = dup_loop-Dup count ofile (update child i d.0) d.1 (omega arith) in
            rw z (record {
              copied = λ j lo hi e. elim (Bool-cases (j == i)) [
                | inl same ↦ ground (arith, rest.before j (ground arith), laws.filedup_same f s)
                | inr other ↦ rest.copied j (ground arith) hi (ground (arith, e))
              ];
              before = λ j lt. ground (arith, rest.before j (omega arith));
              counted = λ g. rw z (ground (arith, rest.counted g, laws.filedup_refs f s g));
              directories = λ g. rest.directories g ∙ laws.filedup_irefs f s g;
            })
      ]
