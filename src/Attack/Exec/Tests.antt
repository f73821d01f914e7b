-- ===== src/Attack/Exec/Tests.antt =====
-- `exec` of a program without segments, on a memory of bytes.
use mit.Base.{
  ℕ, suc, ◌+◌, ◌-◌, ◌≤◌, ◌<◌, ◌≡◌, ◌⊎◌, refl, true, List, [], ◌∷◌, none, some, ok, arith, length,
  update, Ensures,
}
use mit.Cow.Kalloc.{Layout}
use mit.Attack.{Kernel}
use mit.Attack.Grow.{Paging}
use mit.Attack.Exec.{Xv6, Process, elf_magic, exec}
use mit.Attack.Exec.Memory.{Holds, Holds-same}
use mit.Attack.Exec.Arguments.{Memory}
use mit.Attack.Exec.Segments.{Bounds}
use mit.Attack.Exec.Program.{Held, Accounts, Ended, exec-Ended}

-- User memory is the memory of the kernel.
abbrev identity : Paging
identity = record {
  Tables = ℕ;
  mappages = λ t k va pa perm. (true, t, k);
  uvmdealloc = λ t k oldsz newsz. ok (newsz, t, k);
  walkaddr = λ t va. va;
}

abbrev written : (ℕ → ℕ) → ℕ → List ℕ → ℕ → ℕ
written v a [] = v
written v a (c ∷ cs) = update (written v (suc a) cs) a c

written-outside :
    (v : ℕ → ℕ) (a : ℕ) (cs : List ℕ) (i : ℕ)
    → (i < a) ⊎ (a + length cs ≤ i)
    → written v a cs i ≡ v i
written-outside v a [] i o = refl
written-outside v a (c ∷ cs) i o =
    let other : (i < suc a) ⊎ (suc a + length cs ≤ i) = ground arith in
    ground (arith, written-outside v (suc a) cs i other)

written-Holds : (v : ℕ → ℕ) (a : ℕ) (cs : List ℕ) → Holds (written v a cs) a cs
written-Holds v a [] = tt
written-Holds v a (c ∷ cs) = (
  ground arith,
  Holds-same (written v (suc a) cs) (written v a (c ∷ cs)) (suc a) cs (λ i lo hi. ground arith)
      (written-Holds v (suc a) cs),
)

abbrev unix : Xv6 identity
unix = record {
  Files = Held;
  Inode = ℕ;
  user_stack = 1;
  begin_op = λ f. record f { transactions = suc f.transactions };
  end_op = λ f. record f { transactions = f.transactions - 1 };
  namei = λ path f. (some 1, record f { inodes = suc f.inodes });
  ilock = λ ip f. record f { locks = suc f.locks };
  iunlockput = λ ip f. record f { locks = f.locks - 1; inodes = f.inodes - 1 };
  read_elf = λ ip f. some (record { magic = elf_magic; entry = 0; phoff = 64; phnum = 0 });
  read_proghdr = λ ip off f. none;
  proc_pagetable = λ k. (some 7, k);
  proc_freepagetable = λ t sz k. ok k;
  flags2perm = λ flags. flags;
  loadseg = λ t va ip offset sz f k. (true, k);
  uvmclear = λ t va. t;
  copyout = λ t va bytes k. (true, record k { bytes = written k.bytes va bytes });
}

abbrev layout : Layout
layout = record { end = 0x1000; phystop = 0x5000 }

-- A free list of two pages and more.
abbrev kernel : Kernel
kernel = record { freelist = 0x1000; bytes = λ a. 1; has_record = true; allocated_pages = 3 }

abbrev shell : Process ℕ
shell = record { sz = 0x1000; pagetable = 5; epc = 1; sp = 2; a1 = 3; name = [] }

abbrev nothing_held : Held
nothing_held = record { transactions = 0; locks = 0; inodes = 0 }

abbrev argv : List (List ℕ)
argv = (b'l' ∷ b's' ∷ []) ∷ (b'a' ∷ []) ∷ []

-- "bin/ls" with two arguments: two pages, and the stack from the end of the second one down.
started :
    Ensures
      (exec layout identity unix (b'b' ∷ b'/' ∷ b'l' ∷ b's' ∷ []) argv shell nothing_held kernel)
      (λ r.
        (r.0 ≡ some 2)
        × (r.1 ≡ record {
          sz = 0x2000;
          pagetable = 7;
          epc = 0;
          sp = 0x1fc0;
          a1 = 0x1fc0;
          name = b'l' ∷ b's' ∷ [];
        }))
unfolding exec mit.Attack.Grow.uvmalloc mit.Attack.kalloc
started = (refl, refl)

unix_bounds : Bounds identity unix
unix_bounds = record {
  dealloc = λ t k a b. tt;
  free = λ t sz k. tt;
  stack = omega arith;
  small = λ ip off f ph e. absurd (ground (arith, e));
}

unix_memory : Memory identity unix
unix_memory = record {
  peek = λ t k. k.bytes;
  stored = λ t va bytes k e. written-Holds k.bytes va bytes;
  kept = λ t va bytes k a e o. written-outside k.bytes va bytes a o;
}

unix_accounts : Accounts identity unix
unix_accounts = record {
  held = λ f. f;
  begin_op_held = λ f. refl;
  end_op_held = λ f h e. ground (arith, e);
  namei_found = λ path f ip e. refl;
  namei_missing = λ path f e. absurd (ground (arith, e));
  ilock_held = λ ip f. refl;
  iunlockput_held = λ ip f h e. ground (arith, e);
}

exec-Ended_example :
    Ensures
      (exec layout identity unix (b'b' ∷ b'/' ∷ b'l' ∷ b's' ∷ []) argv shell nothing_held kernel)
      (Ended layout identity unix unix_bounds unix_memory unix_accounts argv shell nothing_held)
exec-Ended_example =
    exec-Ended layout identity unix unix_bounds unix_memory unix_accounts
      (b'b' ∷ b'/' ∷ b'l' ∷ b's' ∷ []) argv shell nothing_held kernel (omega arith)
