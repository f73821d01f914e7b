-- ===== src/Usyscall/Pagetable.antt =====
-- lab3, proc.c: the mappings of `proc_pagetable`.
use mit.Base.{
  ℕ, ◌≡◌, ◌≢◌, ◌⊎◌, inl, inr, Bool, true, false, Option, none, some, ◌==◌, arith, if◌then◌else◌, ok,
  panic, ◌∙◌, ap, sym, Bool-cases,
}
use mathlib.Core.Path.{subst}
use mit.Usyscall.{Access, Machine, Proc, proc_pagetable}

-- A page that an entry points to, and how.
pub record Entry : Type 0 where
  pub pa : ℕ
  pub access : Access

abbrev pub supervisor_code : Access
supervisor_code = record { r = true; w = false; x = true; u = false }

abbrev pub supervisor_data : Access
supervisor_data = record { r = true; w = true; x = false; u = false }

abbrev pub user_read : Access
user_read = record { r = true; w = false; x = false; u = true }

-- What the page table code promises: `uvmcreate` gives an empty table, `mappages` of an unmapped
-- page adds the entry or changes no mapping, and `uvmunmap` of an unmapped page panics.
pub record Laws (m : Machine) : Type 0 where
  pub entry : m.Table → ℕ → Option Entry
  pub apart :
      (m.trampoline_va ≢ m.trapframe_va)
      × (m.trampoline_va ≢ m.usyscall_va)
      × (m.trapframe_va ≢ m.usyscall_va)
  pub uvmcreate_lem :
      (k : m.Kernel) (t : m.Table) → (m.uvmcreate k).0 ≡ some t → (va : ℕ) → entry t va ≡ none
  pub mappages_lem :
      (t : m.Table) (va pa : ℕ) (f : Access) (k : m.Kernel)
      → entry t va ≡ none
      → (b : Bool) × (t' : m.Table) × (k' : m.Kernel) × (m.mappages t va pa f k ≡ ok (b, t', k'))
        × ((va' : ℕ)
            → entry t' va' ≡ (
                if b
                then (if va == va' then some (record { pa = pa; access = f }) else entry t va')
                else entry t va'))
  pub uvmunmap_unmapped :
      (t : m.Table) (va : ℕ) (k : m.Kernel) → entry t va ≡ none → m.uvmunmap t va k ≡ panic

ok-injective : {A : Type 0} {a b : A} → ok a ≡ ok b → a ≡ b
ok-injective e = cc

module _ (m : Machine) (laws : Laws m) where
  open m use {
    Kernel, Table, trampoline_va, trapframe_va, usyscall_va, uvmcreate, mappages, trampoline,
  }
  open laws use {entry}

  -- The table maps the trampoline and the trapframe for the supervisor, the shared page for the user
  -- to read, and nothing else.
  pub Exactly : Proc m → Table → Type 0
  Exactly p t =
      (va : ℕ)
      → entry t va ≡ (
          if trampoline_va == va
          then some (record { pa = trampoline; access = supervisor_code })
          else if trapframe_va == va
          then some (record { pa = p.trapframe; access = supervisor_data })
          else if usyscall_va == va
          then some (record { pa = p.usyscall; access = user_read })
          else none)

  -- The table with the trampoline and the trapframe.
  pub record Partial (p : Proc m) (k : Kernel) (t : Table) (k' : Kernel) : Type 0 where
    pub t0 : Table
    pub t1 : Table
    pub k1 : Kernel
    pub created : (uvmcreate k).0 ≡ some t0
    pub first :
        mappages t0 trampoline_va trampoline supervisor_code (uvmcreate k).1 ≡ ok (true, t1, k1)
    pub second : mappages t1 trapframe_va p.trapframe supervisor_data k1 ≡ ok (true, t, k')

  -- The mappings after a call of `mappages` at an unmapped page.
  mappages-entry :
      (t : Table) (va pa : ℕ) (f : Access) (k : Kernel) (b : Bool) (t' : Table) (k' : Kernel)
      → entry t va ≡ none
      → mappages t va pa f k ≡ ok (b, t', k')
      → (va' : ℕ)
      → entry t' va' ≡ (
          if b
          then (if va == va' then some (record { pa = pa; access = f }) else entry t va')
          else entry t va')
  mappages-entry t va pa f k b t' k' u e va' =
      let (b2, t2, k2, run, h) = laws.mappages_lem t va pa f k u in
      let same : (b2, t2, k2) ≡ (b, t', k') = ok-injective (sym run ∙ e) in
      subst
        (λ r. entry r.1 va' ≡ (
          if r.0
          then (if va == va' then some (record { pa = pa; access = f }) else entry t va')
          else entry t va'))
        same (h va')

  Partial-entry :
      (p : Proc m) (k : Kernel) (t : Table) (k' : Kernel)
      → Partial p k t k'
      → (va : ℕ)
      → entry t va ≡ (
          if trampoline_va == va
          then some (record { pa = trampoline; access = supervisor_code })
          else if trapframe_va == va
          then some (record { pa = p.trapframe; access = supervisor_data })
          else none)
  Partial-entry p k t k' h va =
      let e0 : (v : ℕ) → entry h.t0 v ≡ none = laws.uvmcreate_lem k h.t0 h.created in
      let e1 =
        mappages-entry h.t0 trampoline_va trampoline supervisor_code (uvmcreate k).1 true h.t1 h.k1
          (e0 trampoline_va) h.first in
      let free : entry h.t1 trapframe_va ≡ none =
        ground (arith, e1 trapframe_va, e0 trapframe_va, laws.apart) in
      let e2 =
        mappages-entry h.t1 trapframe_va p.trapframe supervisor_data h.k1 true t k' free h.second
          va in
      ground (arith, e2, e1 va, e0 va, laws.apart)

  -- Where the last mapping fails.
  proc_pagetable-fails :
      (p : Proc m) (k : Kernel) (t t' : Table) (k1 k2 : Kernel)
      → Partial p k t k1
      → mappages t usyscall_va p.usyscall user_read k1 ≡ ok (false, t', k2)
      → entry t' usyscall_va ≡ none
      → proc_pagetable m p k ≡ panic
  unfolding proc_pagetable
  proc_pagetable-fails p k t t' k1 k2 h f u =
      ground (arith, h.created, h.first, h.second, laws.uvmunmap_unmapped t' usyscall_va k2 u)

  proc_pagetable-maps :
      (p : Proc m) (k : Kernel) (t t' : Table) (k1 k2 : Kernel)
      → Partial p k t k1
      → mappages t usyscall_va p.usyscall user_read k1 ≡ ok (true, t', k2)
      → proc_pagetable m p k ≡ ok (some t', k2)
  unfolding proc_pagetable
  proc_pagetable-maps p k t t' k1 k2 h f = ground (arith, h.created, h.first, h.second)

  -- With the trampoline and the trapframe mapped, `proc_pagetable` gives a table with exactly the
  -- three pages, the shared one readable and not writable for the user, or, where the shared page
  -- cannot be mapped, panics: it unmaps that page, which is not mapped, in place of the trapframe.
  pub proc_pagetable_lem :
      (p : Proc m) (k : Kernel) (t : Table) (k1 : Kernel)
      → Partial p k t k1
      → ((t' : Table) × (k2 : Kernel) × (proc_pagetable m p k ≡ ok (some t', k2)) × Exactly p t')
        ⊎ ((t' : Table) × (k2 : Kernel) × (mappages t usyscall_va p.usyscall user_read k1
              ≡ ok (false, t', k2))
            × (proc_pagetable m p k ≡ panic))
  unfolding Exactly
  proc_pagetable_lem p k t k1 h =
      let free : entry t usyscall_va ≡ none =
        ground (arith, Partial-entry p k t k1 h usyscall_va, laws.apart) in
      let (b, t', k2, run, e) = laws.mappages_lem t usyscall_va p.usyscall user_read k1 free in
      elim (Bool-cases b) [
        | inl y ↦
            let run' = run ∙ ap (λ x. ok (x, t', k2)) y in
            inl (
              t',
              k2,
              proc_pagetable-maps p k t t' k1 k2 h run',
              λ va. ground (arith, e va, Partial-entry p k t k1 h va, laws.apart),
            )
        | inr n ↦
            let run' = run ∙ ap (λ x. ok (x, t', k2)) n in
            let u : entry t' usyscall_va ≡ none = ground (arith, e usyscall_va, free) in
            inr (t', k2, run', proc_pagetable-fails p k t t' k1 k2 h run' u)
      ]
