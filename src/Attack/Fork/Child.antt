-- ===== src/Attack/Fork/Child.antt =====
-- lab2, attack: the child that `fork` makes, and the references that it takes.
use mit.Base.{
  ℕ, ◌+◌, ◌<◌, ◌≡◌, ◌⊎◌, inl, inr, refl, Bool, true, Option, none, some, ◌==◌, not, if◌then◌else◌,
  Run, ok, ◌>>=◌, arith, Ensures, Ensures-bind, Ensures-self, Bool-cases, ◌∙◌, ap,
}
use mit.Attack.Fork.{
  runnable, nofile, minus_one, Process, Machine, Outcome, dup_loop, give_child, fork,
}
use mit.Attack.Fork.Files.{Laws, uses, dup_loop-Dup}

module _ (m : Machine) (laws : Laws m) where
  open laws use {refs, irefs}

  -- The child `c` of the process `p` at `self`.
  pub record IsChildOf (self : ℕ) (p c : Process m.Table) : Type 0 where
    pub ready : c.state ≡ runnable
    pub parent : c.parent ≡ self
    pub sz : c.sz ≡ p.sz
    pub a0 : c.trapframe.a0 ≡ 0
    pub registers : c.trapframe.others ≡ p.trapframe.others
    pub cwd : c.cwd ≡ p.cwd
    pub name : c.name ≡ p.name
    pub traceid : c.traceid ≡ p.traceid

  -- The slot, with the copy of the memory, as `give_child` takes it.
  pub record Forked (self : ℕ) (p : Process m.Table) (s : m.Files) (i f d : ℕ) (c : Process m.Table)
      (r : Outcome m) : Type 0 where
    pub child : r.child ≡ some c
    pub result : r.result ≡ c.pid
    pub like : IsChildOf self p c
    pub ofile : c.ofile i ≡ p.ofile i
    pub file_refs : refs r.files f ≡ refs s f + uses nofile p.ofile f
    pub cwd_refs : irefs r.files d ≡ irefs s d + (if p.cwd == d then 1 else 0)

  -- The memory of the child is what `uvmcopy` made.
  abbrev pub Copied : (p c : Process m.Table) → m.Kernel → Outcome m → Type 0
  Copied p c k r =
      (np : Process m.Table) × (k1 : m.Kernel) × (m.allocproc k ≡ ok (some np, k1))
      × (m.uvmcopy p.pagetable np.pagetable p.sz k1 ≡ ok (true, c.pagetable, r.kernel))

  abbrev Result :
      (self : ℕ) → Process m.Table → m.Kernel → m.Files → (i f d : ℕ) → Outcome m → Type 0
  Result self p k s i f d r =
      ((r.result ≡ minus_one) × (r.child ≡ none) × (r.files ≡ s))
      ⊎ ((c : Process m.Table) × Copied p c k r × Forked self p s i f d c r)

  give_child-Forked :
      (self i f d : ℕ) (p np : Process m.Table) (k : m.Kernel) (s : m.Files)
      → i < nofile
      → laws.Fits p.name
      → np.ofile i ≡ 0
      → (let r = give_child m self p np k s in
          (c : Process m.Table) × (c.pagetable ≡ np.pagetable)
          × (r.kernel ≡ k)
          × Forked self p s i f d c r)
  unfolding give_child
  give_child-Forked self i f d p np k s lt fits empty =
      let dup = dup_loop-Dup m laws nofile p.ofile np.ofile s (omega arith) in
      let r = dup_loop m nofile p.ofile np.ofile s in
      (
        _,
        refl,
        refl,
        record {
          child = refl;
          result = refl;
          like = record {
            ready = refl;
            parent = refl;
            sz = refl;
            a0 = refl;
            registers = refl;
            cwd = laws.idup_same p.cwd r.1;
            name = laws.safestrcpy_fits p.name fits;
            traceid = refl;
          };
          ofile = dup.copied i (omega arith) lt empty;
          file_refs = laws.idup_refs p.cwd r.1 f ∙ dup.counted f;
          cwd_refs = omega (arith, laws.idup_irefs p.cwd r.1 d, dup.directories d);
        },
      )

  -- After `allocproc` gave the slot `np`.
  copy_and_give : (self : ℕ) → (p np : Process m.Table) → m.Kernel → m.Files → Run (Outcome m)
  copy_and_give self p np k1 s = m.uvmcopy p.pagetable np.pagetable p.sz k1 >>= λ c.
      let np1 = record np { pagetable = c.1 } in
      if not c.0
      then (m.freeproc np1 c.2 >>= λ k2.
          ok (record { result = minus_one; child = none; kernel = k2; files = s }))
      else ok (give_child m self p np1 c.2 s)

  copy_and_give-Result :
      (self i f d : ℕ) (p np : Process m.Table) (k k1 : m.Kernel) (s : m.Files)
      → i < nofile
      → laws.Fits p.name
      → np.ofile i ≡ 0
      → m.allocproc k ≡ ok (some np, k1)
      → Ensures (copy_and_give self p np k1 s) (Result self p k s i f d)
  unfolding copy_and_give
  copy_and_give-Result self i f d p np k k1 s lt fits empty slot =
      let copy = m.uvmcopy p.pagetable np.pagetable p.sz k1 in
      Ensures-bind _ _ copy _
        (Ensures-self (λ c. Unit) copy (laws.uvmcopy_ends p.pagetable np.pagetable p.sz k1))
        (λ c h.
          let np1 : Process m.Table = record np { pagetable = c.1 } in
          elim (Bool-cases c.0) [
            | inl done ↦
                let (child, t, kern, forked) =
                  give_child-Forked self i f d p np1 c.2 s lt fits empty in
                let copied : copy
                    ≡ ok (true, child.pagetable, (give_child m self p np1 c.2 s).kernel) =
                  h.1 ∙ (ap (λ (b : Bool). ok (b, c.1, c.2)) done ∙ rw (t, kern) refl) in
                rw done (inr (child, (np, k1, slot, copied), forked))
            | inr failed ↦ rw failed (
                Ensures-bind (λ k2. Unit) _ (m.freeproc np1 c.2) _ (laws.freeproc_ends np1 c.2)
                  (λ k2 _. inl (refl, refl, refl)))
          ])

  abbrev after_slot :
      (self : ℕ) → Process m.Table → m.Files → Option (Process m.Table) → m.Kernel → Run (Outcome m)
  after_slot self p s o k1 = elim o [
    | none ↦ ok (record { result = minus_one; child = none; kernel = k1; files = s })
    | some np ↦ copy_and_give self p np k1 s
  ]

  after_slot-Result :
      (self i f d : ℕ) (p : Process m.Table) (k k1 : m.Kernel) (s : m.Files)
      (o : Option (Process m.Table))
      → i < nofile
      → laws.Fits p.name
      → ((np : Process m.Table) → o ≡ some np → (j : ℕ) → np.ofile j ≡ 0)
      → m.allocproc k ≡ ok (o, k1)
      → Ensures (after_slot self p s o k1) (Result self p k s i f d)
  after_slot-Result self i f d p k k1 s none lt fits empty slot = inl (refl, refl, refl)
  after_slot-Result self i f d p k k1 s (some np) lt fits empty slot =
      copy_and_give-Result self i f d p np k k1 s lt fits (empty np refl i) slot

  -- Where what `fork` calls ends, a slot that `allocproc` gives has no open files, `filedup` and
  -- `idup` take one reference, and the process's name fits its array: `fork` ends, by a panic or with
  -- a value. It returns -1 with no child and no reference taken; or it returns the pid of a child,
  -- whose memory is the copy that `uvmcopy` made in the slot, and which can run, has the process at
  -- `self` as its parent, and its size, name, directory, mask and registers, but 0 in a0. Each
  -- descriptor below 16 is what it is for the parent; each open file has one reference more for
  -- each descriptor on it, and the directory has one more.
  pub fork-IsChild :
      (self i f d : ℕ) (p : Process m.Table) (k : m.Kernel) (s : m.Files)
      → i < nofile
      → laws.Fits p.name
      → Ensures (fork m self p k s) (λ r.
        ((r.result ≡ minus_one) × (r.child ≡ none) × (r.files ≡ s))
        ⊎ ((c : Process m.Table) × Copied p c k r × Forked self p s i f d c r))
  unfolding fork copy_and_give
  fork-IsChild self i f d p k s lt fits =
      Ensures-bind _ (Result self p k s i f d) (m.allocproc k) _
        (Ensures-self _ (m.allocproc k) (laws.allocproc_lem k))
        (λ a h. after_slot-Result self i f d p k a.1 s a.0 lt fits h.0 h.1)
