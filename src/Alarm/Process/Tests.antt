-- ===== src/Alarm/Process/Tests.antt =====
-- A run of `allocproc` of lab4, alarm, at a fixed table, and its theorem there.
use mit.Base.{ℕ, suc, ◌≡◌, ◌≢◌, refl, false, none, some, [], ◌∷◌, ok, arith, Ensures}
use mit.Alarm.{Proc}
use mit.Alarm.Process.{Process, Machine, unused, used, allocproc}
use mit.Alarm.Process.Quiet.{Laws, Given, allocproc-Given}

-- A kernel that gives out the pages in order; its page tables are numbers.
abbrev counting : Machine
counting = record {
  Kernel = ℕ;
  Table = ℕ;
  forkret = 0x3000;
  allocpid = λ k. (k, suc k);
  kalloc = λ k. (suc k, suc k);
  kfree = λ p k. ok k;
  proc_pagetable = λ p k. ok (some k, suc k);
  proc_freepagetable = λ t sz k. ok k;
}

apart : (k : ℕ) → suc k ≢ suc (suc k)
apart k e = omega arith

abbrev counting_laws : Laws counting
counting_laws = record {
  kfree_ends = λ p k. tt;
  pagetable_ends = λ p k. tt;
  freepagetable_ends = λ t sz k. tt;
  kalloc_apart = λ k a b. apart k;
}

-- A slot that was in use, with an alarm that its process set.
abbrev old_alarm : Proc
old_alarm = record {
  killed = false;
  trapframe = 0;
  ticks = 7;
  tickcount = 3;
  handler = 0x500;
  originaltrapframe = 0;
  run = 1;
}

abbrev old_slot : Process ℕ
old_slot = record {
  alarm = old_alarm;
  state = unused;
  chan = 0;
  xstate = 0;
  pid = 0;
  parent = 0;
  kstack = 0x8000;
  sz = 0;
  pagetable = none;
  context = record { ra = 0; sp = 0; others = λ i. 9 };
  name = "";
}

abbrev busy_slot : Process ℕ
busy_slot = record old_slot { state = used }

second_is_taken : Ensures (allocproc counting (busy_slot ∷ old_slot ∷ []) 4) (λ r. r.0 ≡ some 1)
unfolding allocproc mit.Alarm.Process.found
second_is_taken = refl

allocproc-Given_example :
    Ensures
      (allocproc counting (busy_slot ∷ old_slot ∷ []) 4)
      (Given counting counting_laws (λ _. record { epc = 0; a0 = 1; a7 = 2; others = λ _. 0 }))
allocproc-Given_example =
    allocproc-Given counting counting_laws (busy_slot ∷ old_slot ∷ []) 4
      (λ _. record { epc = 0; a0 = 1; a7 = 2; others = λ _. 0 })
