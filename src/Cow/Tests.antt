-- ===== src/Cow/Tests.antt =====
-- The theorems about lab6 at a small machine, and runs of its functions.
use mit.Base.{
  ℕ, zero, suc, ◌+◌, ◌-◌, ◌^◌, ◌≤◌, ◌<◌, ◌≡◌, ◌≢◌, refl, true, false, none, some, [], ◌∷◌, arith,
  update, ok, panic, out_of_fuel, inl, inr, ◌⊎◌,
}
use mit.Cow.Kalloc.{Kernel, null, kfree, kinit, kalloc}
use mit.Cow.Kalloc.Inv.{IsPage, Inv, Outside}
use mit.Cow.Kalloc.Laws.{Allocated, kalloc_lem}
use mit.Cow.Kalloc.Free.{kfree_lem, kfree-panic}
use mit.Cow.Kalloc.Init.{kinit_lem}
use mit.Cow.Kalloc.Race.{run, started, double_free}
use mit.Cow.Paging.{page, mapped, uses, Present, Laws}
use mit.Cow.Paging.Uses.{uses-le}
use mit.Cow.Paging.Array.{Entries, array-Laws}
use mit.Cow.Fork.{share, Copied, uvmcopy}
use mit.Cow.Fork.Laws.{Success, Failure, uvmcopy_lem}
use mit.Cow.Fork.Sample.{sample_succeeds}
use mit.Cow.Fault.{cowhandle}
use mit.Cow.Fault.Copy.{OwnCopy, cowhandle_lem}
use mit.Cow.Trap.{Trap, User, to_user, exited, usertrap}
use mit.Cow.Trap.Laws.{IsPageFault, usertrap-cow, usertrap-stack_base}
use mit.Cow.Fault.{memmove}
use mit.Cow.Copyout.{copyout}
use mit.Cow.Copyout.Ends.{copyout-ends}
use mit.Cow.Copyout.Page.{copyout-unwritable}
use mit.Cow.Sample.{
  layout, layout-IsLayout, refs, kernel, kernel-Inv, third-IsPage, last-IsPage, user_page, table,
  works, nothing,
}

kalloc_lem_example :
    ((kalloc kernel ≡ (null, kernel)) × ((p : ℕ) → IsPage layout p → refs p ≢ 0))
    ⊎ ((r : ℕ) × (k' : Kernel) × (kalloc kernel ≡ (r, k'))
        × (r ≢ null)
        × Allocated layout layout-IsLayout kernel refs r k')
kalloc_lem_example = kalloc_lem layout layout-IsLayout kernel refs kernel-Inv

kfree_lem_example :
    (k' : Kernel) × (kfree layout 0x4000 kernel ≡ ok k')
    × Inv layout k' (update refs 0x4000 (refs 0x4000 - 1))
    × ((a : ℕ) → Outside 0x4000 a ⊎ (1 < refs 0x4000) → k'.bytes a ≡ kernel.bytes a)
kfree_lem_example =
    kfree_lem layout layout-IsLayout 0x4000 kernel refs kernel-Inv last-IsPage (omega arith)

no_page_panics :
    (IsPage layout 0x4001 → kfree layout 0x4001 kernel ≢ panic)
    × ((kfree layout 0x4001 kernel ≡ panic) ⊎ IsPage layout 0x4001)
no_page_panics = kfree-panic layout layout-IsLayout 0x4001 kernel

abbrev zeroed : Kernel
zeroed = record { freelist = 0; next = λ p. 0; count = λ i. 0; bytes = λ a. 0 }

kinit_lem_example : (k' : Kernel) × (kinit layout zeroed ≡ ok k') × Inv layout k' (λ p. 0)
kinit_lem_example = kinit_lem layout layout-IsLayout zeroed refl (λ i. refl)

double_free_example :
    (let k' =
        (run 0x4000 (true ∷ false ∷ true ∷ false ∷ true ∷ false ∷ []) (started kernel)).kernel in
      (k'.freelist ≡ 0x4000)
      × (k'.next 0x4000 ≡ 0x4000)
      × ((kalloc k').0 ≡ 0x4000)
      × ((kalloc (kalloc k').1).0 ≡ 0x4000))
double_free_example = double_free 0x4000 kernel (omega arith) refl

works-Laws : Laws works layout
works-Laws = array-Laws true layout layout-IsLayout

table-Present : Present works layout refs table 2
table-Present zero lt = (user_page true 0x3000, refl, third-IsPage, omega arith)
table-Present (suc zero) lt = (user_page false 0x4000, refl, last-IsPage, omega arith)
table-Present (suc (suc m)) lt = absurd (omega arith)

nothing-clear : (m : ℕ) → m < 2 → mapped works nothing (page m) ≡ none
nothing-clear m lt = refl

table-room : (p : ℕ) → refs p + uses works table 2 p < 2 ^ 31
table-room p = let few : refs p ≤ 2 = ground arith in omega (arith, few, uses-le works table 2 p)

uvmcopy_lem_example :
    (r : Copied works) × (uvmcopy works table nothing 0x1800 kernel ≡ ok r)
    × (Success works layout layout-IsLayout works-Laws table kernel refs 2 r
        ⊎ Failure works layout layout-IsLayout works-Laws table kernel refs 2 r)
uvmcopy_lem_example =
    uvmcopy_lem works layout layout-IsLayout works-Laws table kernel refs 2 0x1800 nothing
      (omega arith) (omega arith) kernel-Inv table-Present nothing-clear table-room

abbrev cow_table : Entries
cow_table = update nothing 1 (some (share (user_page true 0x4000)))

cowhandle_lem_example :
    ((cowhandle layout works cow_table 0x1010 kernel ≡ ok (false, cow_table, kernel))
      × ((p : ℕ) → IsPage layout p → refs p ≢ 0))
    ⊎ ((r : ℕ) × (t' : Entries) × (k' : Kernel) × (cowhandle layout works cow_table 0x1010 kernel
          ≡ ok (true, t', k'))
        × OwnCopy layout layout-IsLayout works works-Laws cow_table 0x1010
            (share (user_page true 0x4000))
            kernel
            refs
            r
            t'
            k')
cowhandle_lem_example =
    cowhandle_lem layout layout-IsLayout works works-Laws cow_table 0x1010
      (share (user_page true 0x4000)) kernel refs kernel-Inv refl refl (omega arith) last-IsPage
      (omega arith)

-- The copy succeeds there.
copied-success : (uvmcopy_lem_example.0).success ≡ true
copied-success = sample_succeeds uvmcopy_lem_example.0 (uvmcopy_lem_example.1)

-- A store page fault of user code at an address.
abbrev store_fault : ℕ → Trap
store_fault va = record { from_supervisor = false; sepc = 100; scause = 15; stval = va; dev = 0 }

store_fault-IsPageFault : (va : ℕ) → IsPageFault (store_fault va)
store_fault-IsPageFault va = record { user = refl; no_device = refl; cause = inr (inr refl) }

-- A process whose stack pointer lies in a page above the shared one.
abbrev user : User layout works
user = record { killed = false; epc = 0; sp = 0x5800; table = cow_table; kernel = kernel }

usertrap-cow_example :
    ((r : ℕ) × (t' : Entries) × (k' : Kernel) × (usertrap layout works
          (λ s. s)
          (store_fault 0x1010)
          user
        ≡ ok (to_user (record user { epc = 100; table = t'; kernel = k' })))
      × OwnCopy layout layout-IsLayout works works-Laws cow_table 0x1010
          (share (user_page true 0x4000))
          kernel
          refs
          r
          t'
          k')
    ⊎ ((usertrap layout works (λ s. s) (store_fault 0x1010) user
          ≡ ok (exited (record user { epc = 100; killed = true })))
        × ((p : ℕ) → IsPage layout p → refs p ≢ 0))
usertrap-cow_example =
    usertrap-cow layout works (λ s. s) layout-IsLayout works-Laws (store_fault 0x1010) user
      (share (user_page true 0x4000)) refs (store_fault-IsPageFault 0x1010) refl (omega arith)
      (inl (omega arith)) (omega arith) kernel-Inv refl refl last-IsPage (omega arith)

usertrap-stack_base_example :
    usertrap layout works (λ s. s) (store_fault 0x1000) (record user { sp = 0x1800 })
    ≡ ok (exited (record user { sp = 0x1800; epc = 100; killed = true }))
usertrap-stack_base_example =
    usertrap-stack_base layout works (λ s. s) (store_fault 0x1000) (record user { sp = 0x1800 })
      (store_fault-IsPageFault 0x1000) (omega arith) (omega arith) refl

to_readonly_page :
    copyout layout works 2 table 0x1010 0x2000 8 kernel
    ≡ ok (true, table, record kernel { bytes = memmove kernel.bytes 0x4010 0x2000 8 })
to_readonly_page =
    copyout-unwritable layout works 0 table 0x1010 0x2000 8 kernel (user_page false 0x4000) refl
      refl refl refl refl (omega arith) (omega arith) (omega arith) (omega arith) (omega arith)

-- Three bytes more than a page, from the last ones of the first page on.
over_two_pages : copyout layout works 4 table 0xffe 0x2000 0x1003 kernel ≢ out_of_fuel
over_two_pages =
    copyout-ends layout works 4 table 0xffe 0x2000 0x1003 kernel (omega arith) (omega arith)
      (omega arith)
