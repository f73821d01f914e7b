-- ===== src/Superpages/SpaceTests.antt =====
-- The theorems about superpages in page tables at a small machine.
use mit.Base.{
  ℕ, ◌+◌, ◌-◌, ◌*◌, ◌^◌, ◌≤◌, ◌≡◌, ◌⊎◌, refl, true, false, some, ◌==◌, if◌then◌else◌, ◌&&◌, arith,
  ok, panic, Ensures, Ends,
}
use mit.Cow.Kalloc.{page_size, round_up, null}
use mit.Superpages.{Kernel, superpage_size, memset, superkalloc}
use mit.Superpages.Table.{
  Flags, no_flags, Pte, empty, Vm, Slot, store, walk, superwalk, supermappages,
}
use mit.Superpages.Table.Super.{super_entry, walk-supermappages, walk-superwalk_new}
use mit.Superpages.Space.{Machine, sbrksuperuvmalloc}
use mit.Superpages.Space.Counts.{MachineEnds, total, sbrksuperuvmalloc-Counted}
use mit.Superpages.Grow.{Proc, small, growproc}
use mit.Superpages.Grow.Bounds.{covered, IsRecorded, growproc-IsRecorded}
use mit.Superpages.Grow.Shrink.{growproc-loses}
use mit.Superpages.Fork.{uvmcopy}
use mit.Superpages.Fork.Ends.{uvmcopy-Ends}
use mit.Superpages.Fork.Panic.{uvmcopy-panic}
use mit.Superpages.Trap.{Trap, User, usertrap, exited}
use mit.Superpages.Trap.Faults.{usertrap-exception}

abbrev machine : Machine
machine = record {
  layout = record { end = 0x1000; phystop = 8 * superpage_size };
  maxva = 2 ^ 38;
  mappages = λ vm t va size pa f. ok (true, vm);
  uvmdealloc = λ vm t old new. ok (new, vm);
}

machine-MachineEnds : MachineEnds machine
machine-MachineEnds = record {
  mappages_ends = λ vm t va size pa f. tt;
  uvmdealloc_ends = λ vm t old new. tt;
}

-- No small page is left, and the one superpage at four megabytes.
abbrev one_super : Kernel
one_super = record {
  freelist = 0;
  super_freelist = 2 * superpage_size;
  next = λ p. 0;
  bytes = λ a. 0;
}

abbrev valid : Flags
valid = record no_flags { v = true }

-- The root at 0x1000 leads to a table at 0x2000, whose first entry is a superpage; the root at
-- 0x5000 is empty.
abbrev ptes : ℕ → ℕ → Pte
ptes t i =
    if t == 0x1000 && i == 0
    then record { pa = 0x2000; flags = valid }
    else if t == 0x2000 && i == 0
    then super_entry (4 * superpage_size) (record no_flags { r = true; u = true })
    else empty

abbrev memory : Vm
memory = record { kernel = one_super; ptes = ptes }

abbrev slot : Slot
slot = record { table = 0x2000; index = 1 }

walk-supermappages_example :
    (supermappages (2 ^ 38) memory 0x1000 superpage_size superpage_size 0x800000 valid
      ≡ ok (true, store memory slot (super_entry 0x800000 valid)))
    × (walk (2 ^ 38) (store memory slot (super_entry 0x800000 valid)) 0x1000 0x203000 false
        ≡ ok (some slot, store memory slot (super_entry 0x800000 valid)))
walk-supermappages_example =
    walk-supermappages (2 ^ 38) memory 0x1000 superpage_size 0x800000 0x203000 false valid
      (omega arith) refl (omega arith) (record { valid = refl; no_super = refl; no_leaf = refl })
      (omega arith) refl refl (omega arith)

-- What `superkalloc` leaves of it.
abbrev no_super : Kernel
no_super = record one_super {
  super_freelist = 0;
  bytes = memset (λ a. 0) (2 * superpage_size) 7 superpage_size;
}

superkalloc-one_super : superkalloc one_super ≡ (2 * superpage_size, no_super)
unfolding superkalloc
superkalloc-one_super = refl

superkalloc-no_super : superkalloc no_super ≡ (null, no_super)
unfolding superkalloc
superkalloc-no_super = refl

walk-superwalk_new_example :
    (vm' : Vm) × (superwalk (2 ^ 38) memory 0x5000 superpage_size true
      ≡ ok (some (record { table = 2 * superpage_size; index = 1 }), vm'))
    × (walk (2 ^ 38) vm' 0x5000 0x203000 false
        ≡ ok (some (record { table = 0x5000; index = 0 }), vm'))
walk-superwalk_new_example =
    walk-superwalk_new (2 ^ 38) memory 0x5000 superpage_size 0x203000 (2 * superpage_size) no_super
      false (omega arith) refl superkalloc-one_super (omega arith) (omega arith) refl

sbrksuperuvmalloc-Counted_example :
    Ensures (sbrksuperuvmalloc machine memory 0x1000 100 0x3000 valid) (λ r.
      (r.0.state ≡ 0)
      ⊎ ((r.0.state ≡ 1)
          × (r.0.sz ≡ 0x3000)
          × (100 ≤ 0x3000)
          × (total r.0 + round_up 100 ≡ round_up 0x3000)))
sbrksuperuvmalloc-Counted_example =
    sbrksuperuvmalloc-Counted machine machine-MachineEnds memory 0x1000 100 0x3000 valid
      (omega arith)

fork_of_superpage : Ends (uvmcopy machine memory 0x1000 0x5000 superpage_size)
fork_of_superpage =
    uvmcopy-Ends machine machine-MachineEnds memory 0x1000 0x5000 superpage_size (omega arith)

-- Two small pages were added to a process of one.
abbrev process : Proc
process = record { pagetable = 0x1000; sz = 0x3000; kinds = λ i. small; next = 2 }

process-IsRecorded : IsRecorded 0x1000 process
unfolding covered
process-IsRecorded = record { bound = omega arith; sum = refl }

growproc-IsRecorded_example : Ensures (growproc machine 100 process memory) (λ r.
    ((r.0 ≡ false) × (r.1 ≡ process))
    ⊎ ((r.0 ≡ true) × (r.1.sz ≡ 0x3000 + 100) × IsRecorded 0x1000 r.1))
growproc-IsRecorded_example =
    growproc-IsRecorded machine 0x1000 100 process memory machine-MachineEnds (omega arith)
      (omega arith) process-IsRecorded (omega arith)

-- `sbrk(-100)`
growproc-loses_example :
    (let p' : Proc = record process { sz = 0x3000 - page_size; next = 0 } in
      (growproc machine (2 ^ 32 - 100) process memory ≡ ok (true, p', memory))
      × ¬ IsRecorded 0x1000 p')
growproc-loses_example =
    growproc-loses machine 0x1000 0 (2 ^ 32 - 100) process memory memory refl (omega arith) refl
      (omega arith) (omega arith) (omega arith) (omega arith) refl process-IsRecorded

abbrev without_super : Vm
without_super = record { kernel = no_super; ptes = ptes }

without_super-walk :
    walk (2 ^ 38) without_super 0x1000 0 false
    ≡ ok (some (record { table = 0x2000; index = 0 }), without_super)
unfolding walk
without_super-walk = refl

uvmcopy-panic_example : uvmcopy machine without_super 0x1000 0x5000 superpage_size ≡ panic
uvmcopy-panic_example =
    uvmcopy-panic machine without_super 0x1000 0x5000 superpage_size
      (record { table = 0x2000; index = 0 }) no_super (omega arith) (omega arith) without_super-walk
      refl refl superkalloc-no_super refl

-- A load from the kernel's memory.
abbrev load_fault : Trap
load_fault = record { from_supervisor = false; sepc = 100; scause = 13; stval = 2 ^ 31; dev = 0 }

abbrev running : User ℕ
running = record { killed = false; epc = 0; rest = 5 }

illegal_instruction :
    (s' : User ℕ) × (usertrap ℕ (2 ^ 31) (2 ^ 38) (λ s. s) load_fault running ≡ ok (exited s'))
    × (s'.epc ≡ 100)
    × (s'.rest ≡ 5)
illegal_instruction =
    usertrap-exception ℕ (2 ^ 31) (2 ^ 38) (λ s. s) load_fault running refl (omega arith) refl
