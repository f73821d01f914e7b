-- ===== src/Alarm/Process/Quiet.antt =====
-- lab4, proc.c and trap.c: the alarm of a process that `allocproc` just made.
use mit.Base.{
  ℕ, zero, suc, ◌≡◌, ◌≢◌, ◌⊎◌, inl, inr, refl, Bool, true, false, Option, none, some, List, [], ◌∷◌,
  ◌==◌, if◌then◌else◌, Run, ok, ◌>>=◌, arith, Ensures, Ensures-bind, Ends, Bool-cases,
}
use mit.Alarm.{Proc, State, Trapframe, on_timer}
use mit.Alarm.Process.{
  ProcState, unused, used, other_state, Process, Machine, free_frame, free_space, freeproc, give_up,
  set_up, found, next_index, allocproc,
}

-- What the kernel around promises: its functions end, and a page is not given out twice in a row.
pub record Laws (m : Machine) : Type 0 where
  pub kfree_ends : (p : ℕ) (k : m.Kernel) → Ends (m.kfree p k)
  pub pagetable_ends : (p : Process m.Table) (k : m.Kernel) → Ends (m.proc_pagetable p k)
  pub freepagetable_ends :
      (t : m.Table) (sz : ℕ) (k : m.Kernel) → Ends (m.proc_freepagetable t sz k)
  pub kalloc_apart :
      (k : m.Kernel)
      → (m.kalloc k).0 ≢ 0
      → (m.kalloc (m.kalloc k).1).0 ≢ 0
      → (m.kalloc k).0 ≢ (m.kalloc (m.kalloc k).1).0

-- A process with two pages for its registers, no handler that runs, and no interval.
pub record IsQuiet (p : Proc) : Type 0 where
  pub has_frame : p.trapframe ≢ 0
  pub has_saved : p.originaltrapframe ≢ 0
  pub apart : p.trapframe ≢ p.originaltrapframe
  pub no_interval : p.ticks ≡ 0
  pub no_count : p.tickcount ≡ 0
  pub not_running : p.run ≡ 0

-- A timer interrupt does nothing to a quiet process.
pub on_timer-IsQuiet : (s : State) → IsQuiet s.proc → on_timer s ≡ s
unfolding on_timer
on_timer-IsQuiet s q = ground (arith, q.no_interval)

-- The process at an index of the table.
abbrev pub At : {A : Type 0} → (A → Type 0) → List A → ℕ → Type 0
At P [] i = ⊥
At P (x ∷ xs) zero = P x
At P (x ∷ xs) (suc i) = At P xs i

module _ (m : Machine) (laws : Laws m) where
  -- What is known of the slot after `found`.
  abbrev Made : Bool × Process m.Table × m.Kernel → Type 0
  Made r =
      ((r.0 ≡ false) × (r.1.state ≡ unused))
      ⊎ ((r.0 ≡ true) × (r.1.state ≡ used) × IsQuiet r.1.alarm)

  free_frame-Ends : (p : ℕ) (k : m.Kernel) → Ends (free_frame m p k)
  unfolding free_frame
  free_frame-Ends p k = ground (arith, laws.kfree_ends p k)

  free_space-Ends : (t : Option m.Table) (sz : ℕ) (k : m.Kernel) → Ends (free_space m t sz k)
  unfolding free_space
  free_space-Ends none sz k = tt
  free_space-Ends (some t) sz k = laws.freepagetable_ends t sz k

  give_up-Made : (p : Process m.Table) (k : m.Kernel) → Ensures (give_up m p k) Made
  unfolding give_up freeproc
  give_up-Made p k =
      Ensures-bind (λ r. r.0.state ≡ unused) Made _ _
        (Ensures-bind (λ k1. Unit) (λ r. r.0.state ≡ unused) _ _
          (free_frame-Ends p.alarm.trapframe k)
          (λ k1 _.
            Ensures-bind (λ k2. Unit) (λ r. r.0.state ≡ unused) _ _
              (free_frame-Ends p.alarm.originaltrapframe k1)
              (λ k2 _.
                Ensures-bind (λ k3. Unit) (λ r. r.0.state ≡ unused) _ _
                  (free_space-Ends p.pagetable p.sz k2) (λ k3 _. refl))))
        (λ r e. inl (refl, e))

  -- The end of `found`, after the page table.
  abbrev after_table :
      Process m.Table → Option m.Table → m.Kernel → Run (Bool × Process m.Table × m.Kernel)
  after_table p o k = elim o [ none ↦ give_up m p k | some t ↦ ok (true, set_up m p, k) ]

  after_table-Made :
      (p : Process m.Table) (o : Option m.Table) (k : m.Kernel)
      → p.state ≡ used
      → p.alarm.trapframe ≢ 0
      → p.alarm.originaltrapframe ≢ 0
      → p.alarm.trapframe ≢ p.alarm.originaltrapframe
      → Ensures (after_table p o k) Made
  after_table-Made p none k u f o a = give_up-Made p k
  after_table-Made p (some t) k u f o a = inr (
    refl,
    u,
    record {
      has_frame = f;
      has_saved = o;
      apart = a;
      no_interval = refl;
      no_count = refl;
      not_running = refl;
    },
  )

  found-Made : (p : Process m.Table) (k : m.Kernel) → Ensures (found m p k) Made
  unfolding found
  found-Made p k =
      let k1 = (m.allocpid k).1 in
      let tf = m.kalloc k1 in
      let saved = m.kalloc tf.1 in
      let taken : Process m.Table = record p {
        pid = (m.allocpid k).0;
        state = used;
        alarm = record p.alarm { trapframe = tf.0 };
      } in
      let both : Process m.Table = record taken {
        alarm = record taken.alarm { originaltrapframe = saved.0 };
      } in
      elim (Bool-cases (tf.0 == 0)) [
        | inl z ↦ rw z (give_up-Made taken tf.1)
        | inr a ↦ elim (Bool-cases (saved.0 == 0)) [
          | inl z ↦ rw (a, z) (give_up-Made both saved.1)
          | inr b ↦
              let apart : tf.0 ≢ saved.0 = laws.kalloc_apart k1 (ground arith) (ground arith) in
              rw (a, b)
                (Ensures-bind (λ made. Unit) Made (m.proc_pagetable both saved.1)
                  (λ made. after_table (record both { pagetable = made.0 }) made.0 made.1)
                  (laws.pagetable_ends both saved.1)
                  (λ made _.
                    after_table-Made (record both { pagetable = made.0 }) made.0 made.1 refl
                      (ground arith) (ground arith) apart))
        ]
      ]

  -- A process in use whose alarm a timer interrupt leaves alone.
  abbrev pub Quiet : (ℕ → Trapframe) → Process m.Table → Type 0
  Quiet frames p =
      (p.state ≡ used)
      × IsQuiet p.alarm
      × (on_timer (record { proc = p.alarm; frames = frames })
          ≡ record { proc = p.alarm; frames = frames })

  abbrev pub Given : (ℕ → Trapframe) → Option ℕ × List (Process m.Table) × m.Kernel → Type 0
  Given frames r = (r.0 ≡ none) ⊎ ((i : ℕ) × (r.0 ≡ some i) × At (Quiet frames) r.1 i)

  abbrev take :
      List (Process m.Table)
      → Bool × Process m.Table × m.Kernel
      → Option ℕ × List (Process m.Table) × m.Kernel
  take ps r = (if r.0 then some 0 else none, r.1 ∷ ps, r.2)

  take-Given :
      (frames : ℕ → Trapframe) (ps : List (Process m.Table)) (r : Bool × Process m.Table × m.Kernel)
      → Made r
      → Given frames (take ps r)
  take-Given frames ps r (inl (e, s)) = rw e (inl refl)
  take-Given frames ps r (inr (e, s, q)) =
      rw e
        (inr (0, refl, (s, q, on_timer-IsQuiet (record { proc = r.1.alarm; frames = frames }) q)))

  abbrev skip :
      Process m.Table
      → Option ℕ × List (Process m.Table) × m.Kernel
      → Option ℕ × List (Process m.Table) × m.Kernel
  skip p r = (next_index m r.0, p ∷ r.1, r.2)

  skip-Given :
      (frames : ℕ → Trapframe) (p : Process m.Table)
      (r : Option ℕ × List (Process m.Table) × m.Kernel)
      → Given frames r
      → Given frames (skip p r)
  skip-Given frames p r (inl e) = inl (rw e)
  skip-Given frames p r (inr (i, e, a)) = inr (suc i, rw e, a)

  at_state :
      ProcState
      → Process m.Table
      → List (Process m.Table)
      → m.Kernel
      → Run (Option ℕ × List (Process m.Table) × m.Kernel)
  at_state s p ps k = elim s [
    | unused ↦ found m p k >>= λ r. ok (take ps r)
    | used ↦ allocproc m ps k >>= λ r. ok (skip p r)
    | other_state n ↦ allocproc m ps k >>= λ r. ok (skip p r)
  ]

  at_state-Given :
      (s : ProcState) (p : Process m.Table) (ps : List (Process m.Table)) (k : m.Kernel)
      (frames : ℕ → Trapframe)
      → Ensures (allocproc m ps k) (Given frames)
      → Ensures (at_state s p ps k) (Given frames)
  unfolding at_state
  at_state-Given unused p ps k frames h =
      Ensures-bind Made (Given frames) (found m p k) (λ r. ok (take ps r)) (found-Made p k)
        (λ r. take-Given frames ps r)
  at_state-Given used p ps k frames h =
      Ensures-bind (Given frames) (Given frames) (allocproc m ps k) (λ r. ok (skip p r)) h
        (λ r. skip-Given frames p r)
  at_state-Given (other_state n) p ps k frames h =
      Ensures-bind (Given frames) (Given frames) (allocproc m ps k) (λ r. ok (skip p r)) h
        (λ r. skip-Given frames p r)

  -- Where the functions that `allocproc` calls end, by a panic or with a value, and two calls of
  -- `kalloc` in a row give different pages, `allocproc` ends so too. If it returns a process, this
  -- is one in use, with two different pages for the registers, neither null, whose alarm is not set, and a timer
  -- interrupt changes nothing of it or of memory, whatever memory holds.
  pub allocproc-Given :
      (ps : List (Process m.Table)) (k : m.Kernel) (frames : ℕ → Trapframe)
      → Ensures (allocproc m ps k) (Given frames)
  unfolding allocproc at_state
  allocproc-Given [] k frames = inl refl
  allocproc-Given (p ∷ ps) k frames =
      at_state-Given p.state p ps k frames (allocproc-Given ps k frames)
