-- ===== src/Attack/Tests.antt =====
-- A page of a secret that is freed and given out again.
use mit.Base.{ℕ, ◌+◌, ◌%◌, ◌≤◌, ◌<◌, ◌≡◌, ◌⊎◌, refl, true, arith, ok}
use mit.Cow.Kalloc.{Layout}
use mit.Attack.{Kernel, kfree, kalloc}
use mit.Attack.Leak.{kalloc-kfree}

abbrev layout : Layout
layout = record { end = 0x1000; phystop = 0x5000 }

abbrev secret : Kernel
secret = record { freelist = 0x2000; bytes = λ a. a % 251; has_record = true; allocated_pages = 3 }

page_again :
    (k1 : Kernel) × (kfree layout 0x4000 secret ≡ ok k1)
    × ((kalloc k1).0 ≡ 0x4000)
    × ((kalloc k1).1.freelist ≡ secret.freelist)
    × ((kalloc k1).1.allocated_pages ≡ secret.allocated_pages)
    × ((i : ℕ) → (i < 0x4000) ⊎ (0x4000 + 8 ≤ i) → (kalloc k1).1.bytes i ≡ secret.bytes i)
page_again =
    kalloc-kfree layout 0x4000 secret (omega arith) (omega arith) (omega arith) (omega arith)

-- Null is counted too.
abbrev exhausted : Kernel
exhausted = record secret { freelist = 0 }

exhausted_count : (kalloc exhausted).1.allocated_pages ≡ 4
unfolding kalloc
exhausted_count = refl
