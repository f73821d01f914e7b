-- ===== src/Superpages/Process/Fresh.antt =====
-- lab3, superpages: proc.c over the runs of the system: the table of processes, and the process that
-- `allocproc` gives to `growproc`.
use mit.Base.{
  ℕ, zero, suc, ◌+◌, ◌*◌, ◌≤◌, ◌<◌, ◌≡◌, ◌≢◌, ◌⊎◌, inl, inr, refl, Bool, true, false, Option, none,
  some, List, [], ◌∷◌, ◌++◌, map, ok, arith, Ensures, Ensures-weaken, Ensures-value,
}
use mit.Cow.Kalloc.{page_size}
use mit.Superpages.Table.{Vm}
use mit.Superpages.Space.{Machine}
use mit.Superpages.Space.Counts.{MachineEnds}
use mit.Superpages.Grow.{Proc, growproc}
use mit.Superpages.Grow.Bounds.{IsRecorded, covered, growproc-IsRecorded}
use mit.Superpages.Process.{Around, Process, freeproc, allocproc}
use mit.Superpages.Process.Ends.{AroundEnds}
use mit.Superpages.Process.Slots.{
  Slot, Slots, At, IsFresh, Given, freeproc-IsClean, allocproc-Given,
}
use mit.Usyscall.{unused}

-- A slot of the table as the kernel starts.
abbrev pub idle : (kstack : ℕ) → Process
idle kstack = record {
  proc = record { pagetable = 0; sz = 0; kinds = λ i. 0; next = 0 };
  state = unused;
  chan = 0;
  killed = 0;
  xstate = 0;
  pid = 0;
  parent = 0;
  kstack = kstack;
  trapframe = 0;
  context = record { ra = 0; sp = 0; others = λ i. 0 };
  name = "";
  usyscall = 0;
}

-- What the rest of the table says of a slot.
Slots-at : (before after : List Process) (p : Process) → Slots (before ++ (p ∷ after)) → Slot p
Slots-at [] after p h = h.0
Slots-at (q ∷ qs) after p h = Slots-at qs after p h.1

Slots-replace :
    (before after : List Process) (p p' : Process)
    → Slots (before ++ (p ∷ after))
    → Slot p'
    → Slots (before ++ (p' ∷ after))
Slots-replace [] after p p' h slot = (slot, h.1)
Slots-replace (q ∷ qs) after p p' h slot = (h.0, Slots-replace qs after p p' h.1 slot)

idle-Slots : (kstacks : List ℕ) → Slots (map idle kstacks)
idle-Slots [] = tt
idle-Slots (k ∷ ks) = (
  λ h. record {
    no_trapframe = refl;
    no_usyscall = refl;
    no_pagetable = refl;
    no_size = refl;
    no_record = refl;
  },
  idle-Slots ks,
)

-- A process that has grown to `n` bytes, or stayed as it was.
abbrev pub Growth : (n : ℕ) → Proc → Bool × Proc × Vm → Type 0
Growth n p r = ((r.0 ≡ false) × (r.1 ≡ p)) ⊎ ((r.0 ≡ true) × (r.1.sz ≡ n) × IsRecorded 0 r.1)

-- A process without memory and without a record of pages has the record that it should.
IsRecorded-empty : (p : Proc) → p.sz ≡ 0 → p.next ≡ 0 → IsRecorded 0 p
unfolding covered
IsRecorded-empty p sz next = record { bound = omega (arith, next); sum = rw (sz, next) refl }

module _ (m : Machine) (x : Around) where
  -- The tables that the system reaches: from the first one, by `allocproc`, by `freeproc`, and by
  -- whatever else the kernel does to a process in use.
  pub data Reachable : List Process → Type 0 where
    booted : (kstacks : List ℕ) → Reachable (map idle kstacks)
    allocated :
        {ps ps' : List Process} (i : Option ℕ) (vm vm' : Vm) (pids pids' : x.Pids)
        → Reachable ps
        → allocproc m x ps vm pids ≡ ok (i, ps', vm', pids')
        → Reachable ps'
    freed :
        (before after : List Process) (p p' : Process) (vm vm' : Vm)
        → Reachable (before ++ (p ∷ after))
        → freeproc m x p vm ≡ ok (p', vm')
        → Reachable (before ++ (p' ∷ after))
    ran :
        (before after : List Process) (p p' : Process)
        → Reachable (before ++ (p ∷ after))
        → p.state ≢ unused
        → p'.state ≢ unused
        → Reachable (before ++ (p' ∷ after))

  module _ (ends : MachineEnds m) (around : AroundEnds x) where
    -- The slots not in use are clean in every table that the system reaches.
    pub Reachable-Slots : (ps : List Process) → Reachable ps → Slots ps
    Reachable-Slots ps (booted kstacks) = idle-Slots kstacks
    Reachable-Slots ps (allocated i vm vm' pids pids' before e) =
        (Ensures-value (Given m x ends around) _ _
          (allocproc-Given m x ends around _ vm pids (Reachable-Slots _ before)) e).0
    Reachable-Slots ps (freed before after p p' vm vm' h e) =
        let clean = Ensures-value _ _ _ (freeproc-IsClean m x ends around p vm) e in
        Slots-replace before after p p' (Reachable-Slots _ h) (λ u. clean.1)
    Reachable-Slots ps (ran before after p p' h busy busy') =
        Slots-replace before after p p' (Reachable-Slots _ h) (λ u. absurd (busy' u))

    -- A process that was just made, and what `growproc` makes of it.
    abbrev pub Grows : (n : ℕ) → Vm → Process → Type 0
    Grows n vm p = IsFresh p × Ensures (growproc m n p.proc vm) (Growth n p.proc)

    IsFresh-Grows :
        (p : Process) (vm : Vm) (n : ℕ) → 0 < n → n ≤ 10000 * page_size → IsFresh p → Grows n vm p
    IsFresh-Grows p vm n pos few fresh = (
      fresh,
      Ensures-weaken
          (λ r.
            ((r.0 ≡ false) × (r.1 ≡ p.proc))
            ⊎ ((r.0 ≡ true) × (r.1.sz ≡ p.proc.sz + n) × IsRecorded 0 r.1))
          (Growth n p.proc) (growproc m n p.proc vm)
          (growproc-IsRecorded m 0 n p.proc vm ends pos (omega (arith, fresh.empty))
            (IsRecorded-empty p.proc fresh.empty fresh.no_record)
            (rw (fresh.empty, fresh.no_record) (omega arith)))
          (λ r h. elim h [
            | inl kept ↦ inl kept
            | inr grown ↦ inr (grown.0, omega (arith, grown.1, fresh.empty), grown.2)
          ]),
    )

    At-weaken :
        (P Q : Process → Type 0) (ps : List Process) (i : ℕ)
        → ((p : Process) → P p → Q p)
        → At P ps i
        → At Q ps i
    At-weaken P Q [] i f h = absurd h
    At-weaken P Q (p ∷ ps) zero f h = f p h
    At-weaken P Q (p ∷ ps) (suc i) f h = At-weaken P Q ps i f h

    -- In every table that the system reaches from a boot, by `allocproc`, `freeproc` and whatever the
    -- kernel does to processes in use, and where the functions of xv6 end: `allocproc` ends, by a
    -- panic or with a value. A process that it returns is in use, with two pages and a page table,
    -- of size 0, and when it then grows by `n` bytes, at most 10000 pages, `growproc` ends so too:
    -- it returns -1 with the process as before, or the size is `n`, and the record of pages, which
    -- stays within its array, accounts for exactly these.
    pub allocproc-IsFresh :
        (ps : List Process) (vm vm1 : Vm) (pids : x.Pids) (n : ℕ)
        → Reachable ps
        → 0 < n
        → n ≤ 10000 * page_size
        → Ensures
            (allocproc m x ps vm pids)
            (λ r. (r.0 ≡ none) ⊎ ((i : ℕ) × (r.0 ≡ some i) × At (Grows n vm1) r.1 i))
    allocproc-IsFresh ps vm vm1 pids n reach pos few =
        Ensures-weaken (Given m x ends around) _ (allocproc m x ps vm pids)
          (allocproc-Given m x ends around ps vm pids (Reachable-Slots ps reach))
          (λ r h. elim (h.1) [
            | inl e ↦ inl e
            | inr (i, e, a) ↦ inr (
              i,
              e,
              At-weaken IsFresh (Grows n vm1) r.1 i (λ p f. IsFresh-Grows p vm1 n pos few f) a,
            )
          ])
