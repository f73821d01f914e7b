-- ===== src/Cow/Trap/Laws.antt =====
-- lab6, trap.c: a page fault in `usertrap`.
use mit.Base.{
  ℕ, ◌^◌, ◌≤◌, ◌<◌, ◌≡◌, ◌≢◌, true, false, some, arith, ok, ◌⊎◌, inl, inr, sub64, ap, ◌∙◌,
}
use mit.Cow.Kalloc.{Layout, Kernel, page_size, round_down}
use mit.Cow.Kalloc.Inv.{IsLayout, IsPage, Inv}
use mit.Cow.Paging.{Pte, Paging, mapped, Laws}
use mit.Cow.Fault.{cowhandle}
use mit.Cow.Fault.Copy.{OwnCopy, cowhandle_lem}
use mit.Cow.Trap.{
  Trap, User, to_user, exited, setkilled, out_of_reach, page_fault, finish, usertrap,
}

-- A page fault of user code: an instruction, load or store page fault.
pub record IsPageFault (t : Trap) : Type 0 where
  pub user : t.from_supervisor ≡ false
  pub no_device : t.dev ≡ 0
  pub cause : (t.scause ≡ 12) ⊎ ((t.scause ≡ 13) ⊎ (t.scause ≡ 15))

module _ (l : Layout) (g : Paging) (syscall : User l g → User l g) where
  open g use {Table, maxva}

  usertrap-page_fault :
      (t : Trap) (s s' : User l g)
      → IsPageFault t
      → page_fault l g t.stval (record s { epc = t.sepc }) ≡ ok s'
      → usertrap l g syscall t s ≡ ok (finish l g s')
  unfolding usertrap
  usertrap-page_fault t s s' f e = ground arith

  finish-live : (s : User l g) → s.killed ≡ false → finish l g s ≡ to_user s
  unfolding finish
  finish-live s live = ground arith

  page_fault-repaired :
      (va : ℕ) (s : User l g) (t' : Table) (k' : Kernel)
      → out_of_reach l g va s ≡ false
      → cowhandle l g s.table va s.kernel ≡ ok (true, t', k')
      → page_fault l g va s ≡ ok (record s { table = t'; kernel = k' })
  unfolding page_fault
  page_fault-repaired va s t' k' near e = rw (near, e)

  page_fault-refused :
      (va : ℕ) (s : User l g) (t' : Table) (k' : Kernel)
      → out_of_reach l g va s ≡ false
      → cowhandle l g s.table va s.kernel ≡ ok (false, t', k')
      → page_fault l g va s ≡ ok (record s { table = t'; kernel = k'; killed = true })
  unfolding page_fault setkilled
  page_fault-refused va s t' k' near e = rw (near, e)

  page_fault-killed :
      (va : ℕ) (s : User l g)
      → out_of_reach l g va s ≡ true
      → page_fault l g va s ≡ ok (record s { killed = true })
  unfolding page_fault setkilled
  page_fault-killed va s far = rw far

  in_reach :
      (va : ℕ) (s : User l g)
      → va < maxva
      → (va < sub64 (round_down s.sp) page_size) ⊎ (round_down s.sp < va)
      → out_of_reach l g va s ≡ false
  unfolding out_of_reach
  in_reach va s lt o = ground arith

  -- A fault of a live process at a valid copy-on-write page, other than at address 0 and at the
  -- guard page and the first byte above it: the process goes on at the faulting instruction with a
  -- page of its own, or, if every page of memory is referenced, it is killed with nothing changed.
  pub usertrap-cow :
      (ly : IsLayout l) (laws : Laws g l) (t : Trap) (s : User l g) (e : Pte) (refs : ℕ → ℕ)
      → IsPageFault t
      → s.killed ≡ false
      → t.stval < maxva
      → (t.stval < sub64 (round_down s.sp) page_size) ⊎ (round_down s.sp < t.stval)
      → t.stval ≢ 0
      → Inv l s.kernel refs
      → mapped g s.table t.stval ≡ some e
      → e.flags.cow ≡ true
      → IsPage l e.pa
      → 0 < refs e.pa
      → ((r : ℕ) × (t' : Table) × (k' : Kernel) × (usertrap l g syscall t s
            ≡ ok (to_user (record s { epc = t.sepc; table = t'; kernel = k' })))
          × OwnCopy l ly g laws s.table t.stval e s.kernel refs r t' k')
        ⊎ ((usertrap l g syscall t s ≡ ok (exited (record s { epc = t.sepc; killed = true })))
            × ((p : ℕ) → IsPage l p → refs p ≢ 0))
  unfolding finish
  usertrap-cow ly laws t s e refs f live lt far nz inv m cow pg pos =
      let s1 : User l g = record s { epc = t.sepc } in
      let near : out_of_reach l g t.stval s1 ≡ false = in_reach t.stval s1 lt far in
      elim (cowhandle_lem l ly g laws s.table t.stval e s.kernel refs inv m cow nz pg pos) [
        | inl (run, full) ↦ inr (
          usertrap-page_fault t s _ f (page_fault-refused t.stval s1 s.table s.kernel near run),
          full,
        )
        | inr (r, t', k', run, c) ↦ inl (
          r,
          t',
          k',
          usertrap-page_fault t s _ f (page_fault-repaired t.stval s1 t' k' near run)
              ∙ ap ok (finish-live _ live),
          c,
        )
      ]

  -- A page fault of user code at the lowest address of the page that the stack pointer is in, where
  -- the pointer is not below the second page, kills the process, whatever is mapped there.
  pub usertrap-stack_base :
      (t : Trap) (s : User l g)
      → IsPageFault t
      → page_size ≤ s.sp
      → s.sp < 2 ^ 64
      → t.stval ≡ round_down s.sp
      → usertrap l g syscall t s ≡ ok (exited (record s { epc = t.sepc; killed = true }))
  unfolding finish out_of_reach
  usertrap-stack_base t s f lo hi e =
      usertrap-page_fault t s _ f
        (page_fault-killed t.stval (record s { epc = t.sepc }) (ground arith))
