-- ===== src/Cow/Trap.antt =====
-- lab6, trap.c: `usertrap`, whose page fault branch repairs copy-on-write pages.
pub mod Laws
use mit.Base.{
  ℕ, ◌%◌, ◌^◌, Bool, true, ◌==◌, ltb, leb, not, ◌||◌, ◌&&◌, if◌then◌else◌, add64, sub64, Run, ok,
  panic, ◌>>=◌,
}
use mit.Cow.Kalloc.{Layout, Kernel, page_size, round_down}
use mit.Cow.Paging.{Paging}
use mit.Cow.Fault.{cowhandle}

-- What the hardware reports: the privilege, the program counter, the cause and the address of the
-- fault; and what `devintr` makes of it.
pub record Trap : Type 0 where
  pub from_supervisor : Bool
  pub sepc : ℕ
  pub scause : ℕ
  pub stval : ℕ
  pub dev : ℕ

module _ (l : Layout) (g : Paging) where
  open g use {Table, maxva}

  -- The process, with its page table, and the kernel's memory.
  pub record User : Type 0 where
    pub killed : Bool
    pub epc : ℕ
    pub sp : ℕ
    pub table : Table
    pub kernel : Kernel

  pub data Outcome : Type 0 where
    to_user : User → Outcome
    exited : User → Outcome

  pub setkilled : User → User
  setkilled s = record s { killed = true }

  -- The address lies in no user space, or from the guard page to the page of the stack pointer.
  pub out_of_reach : ℕ → User → Bool
  out_of_reach va s =
      let up = round_down s.sp in
      let down = sub64 up page_size in (ltb va 0 || leb maxva va) || (leb down va && leb va up)

  pub page_fault : ℕ → User → Run User
  unfolding setkilled out_of_reach
  page_fault va s =
      if out_of_reach va s
      then ok (setkilled s)
      else (cowhandle l g s.table va s.kernel >>= λ r.
          let s1 = record s { table = r.1; kernel = r.2 } in ok (if r.0 then s1 else setkilled s1))

  -- `if(killed(p)) exit(-1);`, then the way back to user space. What other processes do while this
  -- one yields is not part of the step.
  finish : User → Outcome
  finish s = if s.killed then exited s else to_user s

  -- `syscall` is the system call, of which this lab changes nothing.
  pub usertrap : (User → User) → Trap → User → Run Outcome
  unfolding setkilled page_fault finish
  usertrap syscall t s =
      let s1 = record s { epc = t.sepc } in
      let cause = t.scause % 2 ^ 32 in
      if t.from_supervisor
      then panic
      else if cause == 8
      then ok
          (if s1.killed then exited s1 else finish (syscall (record s1 { epc = add64 t.sepc 4 })))
      else if not (t.dev == 0)
      then ok (finish s1)
      else if (cause == 12) || ((cause == 13) || (cause == 15))
      then (page_fault t.stval s1 >>= λ s2. ok (finish s2))
      else ok (finish (setkilled s1))
