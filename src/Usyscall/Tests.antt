-- ===== src/Usyscall/Tests.antt =====
-- The theorems about the shared page at a small machine: a table is a function from addresses to
-- entries, and the kernel is the number of pages it has left.
use mit.Base.{
  ap, sym, ℕ, zero, suc, ◌+◌, ◌-◌, ◌≡◌, ◌⊎◌, refl, Bool, true, false, Option, none, some, [], ◌∷◌,
  ◌==◌, arith, if◌then◌else◌, ok, panic,
}
use mit.Usyscall.{Access, Machine, unused, used, Proc, proc_pagetable, allocproc}
use mit.Usyscall.Pagetable.{
  Entry, supervisor_code, supervisor_data, user_read, Laws, Exactly, Partial, proc_pagetable_lem,
}
use mit.Usyscall.Slots.{cleared, allocproc-no_memory}

abbrev Entries : Type 0
Entries = ℕ → Option Entry

-- A page for a table is taken at each mapping.
abbrev small : Machine
small = record {
  Kernel = ℕ;
  Table = Entries;
  trampoline_va = 0x5000;
  trapframe_va = 0x4000;
  usyscall_va = 0x3000;
  trampoline = 0x8000;
  forkret = 0x8100;
  allocpid = λ k. (7, k);
  kalloc = λ k. if k == 0 then (0, 0) else (k + 0x10000, k - 1);
  kfree = λ p k. ok (suc k);
  store_int = λ a v k. k;
  uvmcreate = λ k. (some (λ va. none), k);
  mappages = λ t va pa f k. elim k [
    | zero ↦ ok (false, t, zero)
    | suc n ↦ ok (true, (λ v. if va == v then some (record { pa = pa; access = f }) else t v), n)
  ];
  uvmunmap = λ t va k. elim (t va) [
    | none ↦ panic
    | some e ↦ ok ((λ v. if va == v then none else t v), k)
  ];
  uvmfree = λ t sz k. ok k;
}

abbrev look : Option Entries → ℕ → Option Entry
look none va = none
look (some t) va = t va

small-mappages :
    (t : Entries) (va pa : ℕ) (f : Access) (k : ℕ)
    → (b : Bool) × (t' : Entries) × (k' : ℕ) × (small.mappages t va pa f k ≡ ok (b, t', k'))
      × ((va' : ℕ)
          → t' va' ≡ (
              if b
              then (if va == va' then some (record { pa = pa; access = f }) else t va')
              else t va'))
small-mappages t va pa f zero = (false, t, zero, refl, λ va'. refl)
small-mappages t va pa f (suc k) = (
  true,
  (λ v. if va == v then some (record { pa = pa; access = f }) else t v),
  k,
  refl,
  λ va'. refl,
)

small-Laws : Laws small
small-Laws = record {
  entry = λ t va. t va;
  apart = (omega arith, omega arith, omega arith);
  uvmcreate_lem = λ k t e va. ap (λ o. look o va) (sym e);
  mappages_lem = λ t va pa f k u. small-mappages t va pa f k;
  uvmunmap_unmapped = λ t va k u. rw u;
}

abbrev fresh : Proc small
fresh = record {
  state = used;
  chan = 0;
  killed = 0;
  xstate = 0;
  pid = 7;
  parent = 0;
  kstack = 0x9000;
  sz = 0;
  pagetable = none;
  trapframe = 0x10005;
  context = record { ra = 0; sp = 0; others = λ i. 0 };
  name = "";
  usyscall = 0x10004;
}

abbrev with_trampoline : Entries
with_trampoline v =
    if 0x5000 == v then some (record { pa = 0x8000; access = supervisor_code }) else none

abbrev with_both : Entries
with_both v =
    if 0x4000 == v
    then some (record { pa = 0x10005; access = supervisor_data })
    else with_trampoline v

fresh-Partial : Partial small small-Laws fresh 2 with_both 0
fresh-Partial = record {
  t0 = λ va. none;
  t1 = with_trampoline;
  k1 = 1;
  created = refl;
  first = refl;
  second = refl;
}

-- Two pages are left: the third mapping fails.
proc_pagetable_lem_example :
    ((t' : Entries) × (k2 : ℕ) × (proc_pagetable small fresh 2 ≡ ok (some t', k2))
      × Exactly small small-Laws fresh t')
    ⊎ ((t' : Entries) × (k2 : ℕ) × (small.mappages with_both 0x3000 0x10004 user_read 0
          ≡ ok (false, t', k2))
        × (proc_pagetable small fresh 2 ≡ panic))
proc_pagetable_lem_example = proc_pagetable_lem small small-Laws fresh 2 with_both 0 fresh-Partial

abbrev idle : Proc small
idle = record fresh { state = unused; pid = 0; trapframe = 0; usyscall = 0 }

no_memory_at_first :
    allocproc small (fresh ∷ idle ∷ fresh ∷ []) 0
    ≡ ok (none, fresh ∷ cleared small idle ∷ fresh ∷ [], 0)
no_memory_at_first =
    allocproc-no_memory small (fresh ∷ []) (fresh ∷ []) idle 0 ((λ e. cc), tt) refl refl refl refl
