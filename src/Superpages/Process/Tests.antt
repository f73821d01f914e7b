-- ===== src/Superpages/Process/Tests.antt =====
-- lab3, superpages: a run of `allocproc` at a table of two slots, and its theorem there.
use mit.Base.{
  ℕ, suc, ◌*◌, ◌^◌, ◌≡◌, ◌⊎◌, refl, true, none, some, List, [], ◌∷◌, ◌==◌, if◌then◌else◌, arith, ok,
  Ensures,
}
use mit.Superpages.{superpage_size, kalloc}
use mit.Superpages.Table.{Vm, empty}
use mit.Superpages.Space.{Machine}
use mit.Superpages.Space.Counts.{MachineEnds}
use mit.Superpages.Process.{Around, Process, allocproc}
use mit.Superpages.Process.Ends.{AroundEnds}
use mit.Superpages.Process.Slots.{At}
use mit.Superpages.Process.Fresh.{idle, Reachable, booted, allocated, ran, Grows, allocproc-IsFresh}
use mit.Usyscall.{used}

abbrev mapping : Machine
mapping = record {
  layout = record { end = 0x1000; phystop = 8 * superpage_size };
  maxva = 2 ^ 38;
  mappages = λ vm t va size pa f. ok (true, vm);
  uvmdealloc = λ vm t old new. ok (new, vm);
}

mapping-MachineEnds : MachineEnds mapping
mapping-MachineEnds = record {
  mappages_ends = λ vm t va size pa f. tt;
  uvmdealloc_ends = λ vm t old new. tt;
}

-- Pids are counted, and each page table lies at 0x5000.
abbrev around : Around
around = record {
  Pids = ℕ;
  allocpid = λ k. (k, suc k);
  trampoline_va = 0x3ffffff000;
  trapframe_va = 0x3fffffe000;
  usyscall_va = 0x3fffffd000;
  trampoline = 0x8000;
  forkret = 0x8100;
  uvmcreate = λ vm. (0x5000, vm);
  uvmfree = λ vm t sz. ok vm;
}

around-AroundEnds : AroundEnds around
around-AroundEnds = record {
  uvmfree_ends = λ vm t sz. tt;
  trampoline_low = omega arith;
  trapframe_low = omega arith;
  usyscall_low = omega arith;
}

-- The small pages at a list of addresses are free.
abbrev free_list : List ℕ → ℕ
free_list [] = 0
free_list (p ∷ ps) = p

abbrev next_of : List ℕ → ℕ → ℕ
next_of [] a = 0
next_of (p ∷ ps) a = if a == p then free_list ps else next_of ps a

abbrev memory : List ℕ → Vm
memory pages = record {
  kernel = record {
    freelist = free_list pages;
    super_freelist = 0;
    next = next_of pages;
    bytes = λ a. 0;
  };
  ptes = λ t i. empty;
}

abbrev two_pages : Vm
two_pages = memory (0x20000 ∷ 0x21000 ∷ [])

-- What `allocproc` makes of the first slot.
abbrev made : Process
made = record (idle 0x9000) {
  proc = record { pagetable = 0x5000; sz = 0; kinds = λ i. 0; next = 0 };
  state = used;
  pid = 7;
  trapframe = 0x10000;
  usyscall = 0x11000;
  context = record { ra = 0x8100; sp = 0xa000; others = λ i. 0 };
}

-- It runs, and has two superpages in its record.
abbrev running : Process
running = record made {
  proc = record { pagetable = 0x5000; sz = 2 * superpage_size; kinds = λ i. 49; next = 2 };
}

abbrev table : List Process
table = running ∷ idle 0xa000 ∷ []

first_slot : Reachable mapping around (made ∷ idle 0xa000 ∷ [])
unfolding allocproc kalloc
first_slot =
    allocated (some 0) (memory (0x10000 ∷ 0x11000 ∷ [])) _ 7 8 (booted (0x9000 ∷ 0xa000 ∷ [])) refl

table-Reachable : Reachable mapping around table
table-Reachable =
    ran [] (idle 0xa000 ∷ []) made running first_slot (λ e. ground arith) (λ e. ground arith)

second_slot : Ensures (allocproc mapping around table two_pages 8) (λ r. r.0 ≡ some 1)
unfolding allocproc kalloc
second_slot = refl

allocproc-IsFresh_example : Ensures (allocproc mapping around table two_pages 8) (λ r.
    (r.0 ≡ none)
    ⊎ ((i : ℕ) × (r.0 ≡ some i)
        × At (Grows mapping around mapping-MachineEnds around-AroundEnds 0x3000 two_pages) r.1 i))
allocproc-IsFresh_example =
    allocproc-IsFresh mapping around mapping-MachineEnds around-AroundEnds table two_pages two_pages
      8 0x3000 table-Reachable (omega arith) (omega arith)
