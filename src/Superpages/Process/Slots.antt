-- ===== src/Superpages/Process/Slots.antt =====
-- lab3, superpages: the slots of the process table in `allocproc` and `freeproc` of proc.c.
use mit.Base.{
  ℕ, zero, suc, ◌≡◌, ◌≢◌, ◌⊎◌, inl, inr, refl, Bool, true, false, Option, none, some, List, [], ◌∷◌,
  ◌==◌, if◌then◌else◌, Run, ok, ◌>>=◌, arith, Ensures, Ensures-bind, Ensures-if,
}
use mit.Superpages.{kalloc}
use mit.Superpages.Table.{Vm, set_kernel}
use mit.Superpages.Space.{Machine}
use mit.Superpages.Space.Counts.{MachineEnds}
use mit.Superpages.Process.{
  Around, Process, store_int, proc_pagetable, free_page, free_table, freeproc, give_up, found,
  next_index, allocproc,
}
use mit.Usyscall.{ProcState, unused, used, other_state}
use mit.Superpages.Process.Ends.{AroundEnds, free_page-Ends, free_table-Ends, proc_pagetable-Ends}

-- A slot that holds nothing of an earlier process: no pages, no size and no record.
pub record IsClean (p : Process) : Type 0 where
  pub no_trapframe : p.trapframe ≡ 0
  pub no_usyscall : p.usyscall ≡ 0
  pub no_pagetable : p.proc.pagetable ≡ 0
  pub no_size : p.proc.sz ≡ 0
  pub no_record : p.proc.next ≡ 0

-- The slots not in use are clean.
abbrev pub Slot : Process → Type 0
Slot p = p.state ≡ unused → IsClean p

abbrev pub Slots : List Process → Type 0
Slots [] = Unit {0}
Slots (p ∷ ps) = Slot p × Slots ps

abbrev pub At : (Process → Type 0) → List Process → ℕ → Type 0
At P [] i = ⊥
At P (p ∷ ps) zero = P p
At P (p ∷ ps) (suc i) = At P ps i

-- A process that `allocproc` returns.
pub record IsFresh (p : Process) : Type 0 where
  pub in_use : p.state ≡ used
  pub has_trapframe : p.trapframe ≢ 0
  pub has_usyscall : p.usyscall ≢ 0
  pub has_pagetable : p.proc.pagetable ≢ 0
  pub empty : p.proc.sz ≡ 0
  pub no_record : p.proc.next ≡ 0

module _ (m : Machine) (x : Around) (ends : MachineEnds m) (around : AroundEnds x) where
  pub freeproc-IsClean :
      (p : Process) (vm : Vm)
      → Ensures (freeproc m x p vm) (λ r. (r.0.state ≡ unused) × IsClean r.0)
  unfolding freeproc
  freeproc-IsClean p vm =
      Ensures-bind (λ vm1. Unit) _ (free_page m x p.trapframe vm) _
        (free_page-Ends m x ends around p.trapframe vm)
        (λ vm1 _.
          Ensures-bind (λ vm2. Unit) _ (free_page m x p.usyscall vm1) _
            (free_page-Ends m x ends around p.usyscall vm1)
            (λ vm2 _.
              Ensures-bind (λ vm3. Unit) _ (free_table m x p.proc vm2) _
                (free_table-Ends m x ends around p.proc vm2)
                (λ vm3 _. (
                  refl,
                  record {
                    no_trapframe = refl;
                    no_usyscall = refl;
                    no_pagetable = refl;
                    no_size = refl;
                    no_record = refl;
                  },
                ))))

  -- What is known of the slot after `found`.
  abbrev Made : Bool × Process × Vm × x.Pids → Type 0
  Made r = ((r.0 ≡ false) × (r.1.state ≡ unused) × IsClean r.1) ⊎ ((r.0 ≡ true) × IsFresh r.1)

  give_up-Made : (p : Process) (vm : Vm) (pids : x.Pids) → Ensures (give_up m x p vm pids) Made
  unfolding give_up
  give_up-Made p vm pids =
      Ensures-bind (λ r. (r.0.state ≡ unused) × IsClean r.0) Made (freeproc m x p vm) _
        (freeproc-IsClean p vm) (λ r h. inl (refl, h.0, h.1))

  found-Made :
      (p : Process) (vm : Vm) (pids : x.Pids) → IsClean p → Ensures (found m x p vm pids) Made
  unfolding found
  found-Made p vm pids clean =
      let pid = x.allocpid pids in
      let tf = kalloc vm.kernel in
      let page = kalloc tf.1 in
      let p1 : Process = record p { pid = pid.0; state = used; trapframe = tf.0 } in
      let p2 : Process = record p1 { usyscall = page.0 } in
      let vm2 = set_kernel vm page.1 in
      Ensures-if Made (tf.0 == 0) _ _ (λ z. give_up-Made p1 (set_kernel vm tf.1) pid.1)
        (λ a.
          Ensures-if Made (page.0 == 0) _ _ (λ z. give_up-Made p2 vm2 pid.1)
            (λ b.
              Ensures-bind (λ r. Unit) Made (proc_pagetable m x p2 (store_int vm2 page.0 pid.0)) _
                (proc_pagetable-Ends m x ends around p2 (store_int vm2 page.0 pid.0))
                (λ made _.
                  let p3 : Process = record p2 { proc = record p2.proc { pagetable = made.0 } } in
                  Ensures-if Made (made.0 == 0) _ _ (λ z. give_up-Made p3 made.1 pid.1)
                    (λ c. inr (
                      refl,
                      record {
                        in_use = refl;
                        has_trapframe = ground arith;
                        has_usyscall = ground arith;
                        has_pagetable = ground arith;
                        empty = clean.no_size;
                        no_record = clean.no_record;
                      },
                    )))))

  -- The table and the place that `allocproc` gives.
  abbrev pub Given : Option ℕ × List Process × Vm × x.Pids → Type 0
  Given r = Slots r.1 × ((r.0 ≡ none) ⊎ ((i : ℕ) × (r.0 ≡ some i) × At IsFresh r.1 i))

  Slot-Made : (r : Bool × Process × Vm × x.Pids) → Made r → Slot r.1
  Slot-Made r (inl (e, u, clean)) h = clean
  Slot-Made r (inr (e, fresh)) h = grind (arith, h, fresh.in_use)

  take-Given :
      (ps : List Process) (r : Bool × Process × Vm × x.Pids)
      → Slots ps
      → Made r
      → Given (if r.0 then some 0 else none, r.1 ∷ ps, r.2, r.3)
  take-Given ps r slots made = (
    (Slot-Made r made, slots),
    elim made [ inl h ↦ rw (h.0) (inl refl) | inr h ↦ rw (h.0) (inr (0, refl, h.1)) ],
  )

  skip-Given :
      (p : Process) (r : Option ℕ × List Process × Vm × x.Pids)
      → Slot p
      → Given r
      → Given (next_index m x r.0, p ∷ r.1, r.2, r.3)
  skip-Given p r slot (slots, inl e) = ((slot, slots), inl (rw e refl))
  skip-Given p r slot (slots, inr (i, e, a)) = ((slot, slots), inr (suc i, rw e refl, a))

  abbrev rest : Process → List Process → Vm → x.Pids → Run (Option ℕ × List Process × Vm × x.Pids)
  rest p ps vm pids = allocproc m x ps vm pids >>= λ r. ok (next_index m x r.0, p ∷ r.1, r.2, r.3)

  at_state :
      ProcState → Process → List Process → Vm → x.Pids → Run (Option ℕ × List Process × Vm × x.Pids)
  at_state s p ps vm pids = elim s [
    | unused ↦ found m x p vm pids >>= λ r. ok (if r.0 then some 0 else none, r.1 ∷ ps, r.2, r.3)
    | used ↦ rest p ps vm pids
    | other_state n ↦ rest p ps vm pids
  ]

  at_state-Given :
      (s : ProcState) (p : Process) (ps : List Process) (vm : Vm) (pids : x.Pids)
      → p.state ≡ s
      → Slot p
      → Slots ps
      → Ensures (allocproc m x ps vm pids) Given
      → Ensures (at_state s p ps vm pids) Given
  unfolding at_state
  at_state-Given unused p ps vm pids e slot slots h =
      Ensures-bind Made Given (found m x p vm pids) _ (found-Made p vm pids (slot e))
        (λ r. take-Given ps r slots)
  at_state-Given used p ps vm pids e slot slots h =
      Ensures-bind Given Given (allocproc m x ps vm pids) _ h (λ r. skip-Given p r slot)
  at_state-Given (other_state n) p ps vm pids e slot slots h =
      Ensures-bind Given Given (allocproc m x ps vm pids) _ h (λ r. skip-Given p r slot)

  pub allocproc-Given :
      (ps : List Process) (vm : Vm) (pids : x.Pids)
      → Slots ps
      → Ensures (allocproc m x ps vm pids) Given
  unfolding allocproc at_state
  allocproc-Given [] vm pids slots = (tt, inl refl)
  allocproc-Given (p ∷ ps) vm pids (slot, slots) =
      at_state-Given p.state p ps vm pids refl slot slots (allocproc-Given ps vm pids slots)
