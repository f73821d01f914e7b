-- ===== src/Attack/Fork/Tests.antt =====
-- lab2, attack: `fork` of a process with two descriptors on one file.
use mit.Base.{
  ℕ, ◌+◌, ◌-◌, ◌≡◌, ◌⊎◌, refl, true, none, some, ◌==◌, if◌then◌else◌, ok, arith, Ensures,
}
use mit.Attack.Fork.{used, minus_one, Process, Machine, fork}
use mit.Attack.Fork.Files.{Laws}
use mit.Attack.Fork.Child.{Copied, Forked, fork-IsChild}

-- Page tables are numbers, and the kernel is the number of free slots; the counts of files and of
-- directories.
abbrev Counts : Type 0
Counts = (ℕ → ℕ) × (ℕ → ℕ)

abbrev add_one : (ℕ → ℕ) → ℕ → ℕ → ℕ
add_one c f g = c g + (if f == g then 1 else 0)

abbrev slot : Process ℕ
slot = record {
  state = used;
  pid = 8;
  parent = 0;
  sz = 0;
  pagetable = 0x6000;
  trapframe = record { a0 = 5; others = λ i. 5 };
  ofile = λ i. 0;
  cwd = 0;
  name = "";
  traceid = 0;
}

abbrev small : Machine
small = record {
  Table = ℕ;
  Kernel = ℕ;
  Files = Counts;
  allocproc = λ k. ok (if k == 0 then none else some slot, k - 1);
  freeproc = λ p k. ok (k + 1);
  uvmcopy = λ t t' sz k. ok (true, t', k);
  filedup = λ f s. (f, (add_one s.0 f, s.1));
  idup = λ d s. (d, (s.0, add_one s.1 d));
  safestrcpy = λ t n. t;
}

some-slot : (k : ℕ) (np : Process ℕ) → (if k == 0 then none else some slot) ≡ some np → np ≡ slot
some-slot k np e = ground arith

abbrev small_laws : Laws small
small_laws = record {
  refs = λ s. s.0;
  irefs = λ s. s.1;
  Fits = λ t. Unit;
  allocproc_lem = λ k np e i. rw (some-slot k np e) refl;
  uvmcopy_ends = λ t t' sz k. tt;
  freeproc_ends = λ p k. tt;
  filedup_same = λ f s. refl;
  filedup_refs = λ f s g. refl;
  filedup_irefs = λ f s g. refl;
  idup_same = λ d s. refl;
  idup_refs = λ d s g. refl;
  idup_irefs = λ d s g. refl;
  safestrcpy_fits = λ t h. refl;
}

-- Descriptors 1 and 2 are open on the file at 0x300.
abbrev parent : Process ℕ
parent = record slot {
  pid = 7;
  pagetable = 0x5000;
  sz = 100;
  ofile = λ i. if i == 1 then 0x300 else if i == 2 then 0x300 else 0;
  cwd = 0x400;
  name = "sh";
  traceid = 32;
}

abbrev counts : Counts
counts = (λ f. 2, λ d. 1)

child_takes_two : Ensures (fork small 0x9000 parent 3 counts) (λ r. r.files.0 0x300 ≡ 4)
unfolding fork
child_takes_two = refl

fork-IsChild_example : Ensures (fork small 0x9000 parent 3 counts) (λ r.
    ((r.result ≡ minus_one) × (r.child ≡ none) × (r.files ≡ counts))
    ⊎ ((c : Process ℕ) × Copied small small_laws parent c 3 r
        × Forked small small_laws 0x9000 parent counts 2 0x300 0x400 c r))
fork-IsChild_example =
    fork-IsChild small small_laws 0x9000 2 0x300 0x400 parent 3 counts (omega arith) tt
