-- ===== src/Superpages/Tests.antt =====
-- The superpage allocator on a memory of 53 superpages, and runs of its functions.
use mit.Base.{◌*◌, ◌≡◌, refl, arith, ok}
use mit.Cow.Kalloc.{Layout}
use mit.Superpages.{Kernel, superpage_size, superkalloc, kinit}
use mit.Superpages.Pools.{super_start, IsLayout, Pools, kinit-Pools}

abbrev layout : Layout
layout = record { end = 0x1800; phystop = 53 * superpage_size }

layout-IsLayout : IsLayout layout
layout-IsLayout = omega arith

abbrev zeroed : Kernel
zeroed = record { freelist = 0; super_freelist = 0; next = λ p. 0; bytes = λ a. 0 }

kinit-Pools_example :
    (k' : Kernel) × (kinit layout zeroed ≡ ok k')
    × Pools layout k' (super_start layout) layout.phystop
kinit-Pools_example = kinit-Pools layout layout-IsLayout zeroed refl refl

abbrev one_free : Kernel
one_free = record zeroed { super_freelist = superpage_size }

superkalloc_one : (superkalloc one_free).0 ≡ superpage_size
unfolding superkalloc
superkalloc_one = refl

superkalloc_none : (superkalloc zeroed).0 ≡ 0
unfolding superkalloc
superkalloc_none = refl
