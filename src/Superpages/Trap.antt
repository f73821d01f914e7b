-- ===== src/Superpages/Trap.antt =====
-- lab3, trap.c: `usertrap`, with a branch for page faults of loads and one for those of stores.
pub mod Faults
use mit.Base.{ℕ, ◌+◌, ◌%◌, ◌^◌, Bool, true, ◌==◌, leb, not, if◌then◌else◌, add64, Run, ok, panic}

-- What the hardware reports: the privilege, the program counter, the cause and the address of the
-- fault; and what `devintr` makes of it.
pub record Trap : Type 0 where
  pub from_supervisor : Bool
  pub sepc : ℕ
  pub scause : ℕ
  pub stval : ℕ
  pub dev : ℕ

-- The process, and the rest of its state, on which `syscall` works.
module _ (Rest : Type 0) where
  pub record User : Type 0 where
    pub killed : Bool
    pub epc : ℕ
    pub rest : Rest

  -- `exit` does not return. What other processes do while this one yields is not part of the step.
  pub data Outcome : Type 0 where
    to_user : User → Outcome
    exited : User → Outcome

  setkilled : User → User
  setkilled s = record s { killed = true }

  -- From `if(killed(p)) exit(-1);` on.
  finish : User → Outcome
  finish s = if s.killed then exited s else to_user s

  -- `kernbase` is KERNBASE and `maxva` is MAXVA.
  pub usertrap : (kernbase maxva : ℕ) → (User → User) → Trap → User → Run Outcome
  unfolding setkilled finish
  usertrap kernbase maxva syscall t s =
      let s1 = record s { epc = t.sepc } in
      if t.from_supervisor
      then panic
      else if t.scause == 8
      then ok
          (if s1.killed then exited s1 else finish (syscall (record s1 { epc = add64 t.sepc 4 })))
      else if not (t.dev == 0)
      then ok (finish s1)
      else if t.scause == 13
      then ok (if leb kernbase t.stval then exited s1 else finish (setkilled s1))
      else if t.scause == 15
      then ok (if leb maxva t.stval then exited s1 else finish (setkilled s1))
      else ok (finish (setkilled s1))
