-- ===== src/Cow/Fault/Writable.antt =====
-- lab6, vm.c and proc.c: a write fault after `fork`, in either process.
use mit.Base.{ℕ, ◌+◌, ◌<◌, ◌≡◌, true, false, some, ok, ◌≢◌, ◌⊎◌}
use mathlib.Core.Option
use mit.Cow.Kalloc.{Layout, Kernel, page_size}
use mit.Cow.Kalloc.Inv.{IsLayout, IsPage, Inv}
use mit.Cow.Paging.{Pte, Paging, page, mapped, Laws}
use mit.Cow.Fork.{Copied}
use mit.Cow.Fork.Laws.{Success}
use mit.Cow.Fault.{cowhandle}

module _ (l : Layout) (ly : IsLayout l) (g : Paging) (laws : Laws g l) (old0 : Paging.Table g)
    (k0 : Kernel) (refs0 : ℕ → ℕ) (n : ℕ) where
  open g use {Table}

  -- The child's fault at the page `m`, after a copy that succeeded.
  abbrev pub ChildFault :
      (m : ℕ) → Pte → (r : Copied g) → Success g l ly laws old0 k0 refs0 n r → Type 0
  ChildFault m e r s =
      ((cowhandle l g r.new (page m) r.kernel ≡ ok (false, r.new, r.kernel))
        × ((p : ℕ) → IsPage l p → s.refs' p ≢ 0))
      ⊎ ((q : ℕ) × (t' : Table) × (k' : Kernel) × (cowhandle l g r.new (page m) r.kernel
            ≡ ok (true, t', k'))
          × (mapped g t' (page m)
              ≡ some (record { pa = q; flags = record e.flags { cow = false; w = true } }))
          × (s.refs' q ≡ 0)
          × ((i : ℕ) → i < page_size → k'.bytes (q + i) ≡ k0.bytes (e.pa + i))
          × ((i : ℕ) → i < page_size → k'.bytes (e.pa + i) ≡ k0.bytes (e.pa + i)))

  -- The parent's fault at the page `m`, after a copy that succeeded.
  abbrev pub ParentFault : (m : ℕ) → (r : Copied g) → Success g l ly laws old0 k0 refs0 n r → Type 0
  ParentFault m r s =
      ((cowhandle l g r.old (page m) r.kernel ≡ ok (false, r.old, r.kernel))
        × ((p : ℕ) → IsPage l p → s.refs' p ≢ 0))
      ⊎ ((t' : Table) × (k' : Kernel) × (f : Pte) × (cowhandle l g r.old (page m) r.kernel
            ≡ ok (true, t', k'))
          × (mapped g t' (page m) ≡ some f)
          × (f.flags.w ≡ true))
