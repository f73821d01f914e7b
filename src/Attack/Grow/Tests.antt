-- ===== src/Attack/Grow/Tests.antt =====
-- A secret that `sbrk` gives to the next process.
use mit.Base.{ℕ, ◌+◌, ◌%◌, ◌≤◌, ◌<◌, ◌≡◌, refl, true, [], ◌∷◌, update, ok, arith}
use mit.Cow.Kalloc.{Layout, page_size}
use mit.Attack.{Kernel, kfree}
use mit.Attack.Grow.{Paging, Proc, sys_sbrk}
use mit.Attack.Grow.Secret.{Laws, sys_sbrk-secret}

-- A page table is a function from addresses, where 0 stands for an address that is not mapped.
abbrev flat : Paging
flat = record {
  Tables = ℕ → ℕ;
  mappages = λ t k va pa perm. (true, update t va pa, k);
  uvmdealloc = λ t k oldsz newsz. ok (newsz, t, k);
  walkaddr = λ t va. t va;
}

update-same : (t : ℕ → ℕ) (va pa : ℕ) → update t va pa va ≡ pa
update-same t va pa = ground arith

abbrev flat_laws : Laws flat
flat_laws = record {
  found = λ t k va pa whole small works. update-same t va pa;
  kept = λ t k va pa perm i lo hi. refl;
}

abbrev layout : Layout
layout = record { end = 0x1000; phystop = 0x5000 }

abbrev secret : Kernel
secret = record { freelist = 0x2000; bytes = λ a. a % 251; has_record = true; allocated_pages = 3 }

abbrev attacker : Proc (ℕ → ℕ)
attacker = record { sz = 0x3000; pagetable = λ va. 0 }

sys_sbrk-secret_example :
    (k1 : Kernel) × (t : ℕ → ℕ) × (k2 : Kernel) × (kfree layout 0x4000 secret ≡ ok k1)
    × (sys_sbrk layout flat page_size attacker k1
        ≡ ok (0x3000, (0x3000, 0x4000) ∷ [], record { sz = 0x3000 + page_size; pagetable = t }, k2))
    × (t 0x3000 ≡ 0x4000)
    × ((i : ℕ) → 8 ≤ i → i < page_size → k2.bytes (0x4000 + i) ≡ secret.bytes (0x4000 + i))
sys_sbrk-secret_example =
    sys_sbrk-secret layout flat flat_laws 0x4000 secret attacker (omega arith) (omega arith)
      (omega arith) (omega arith) (refl, omega arith) (λ k. refl)
