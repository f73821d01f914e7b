-- ===== src/Superpages/Trap/Faults.antt =====
-- lab3, trap.c: the ways out of `usertrap`.
use mit.Base.{ℕ, ◌≡◌, ◌≢◌, refl, Bool, true, false, ◌==◌, leb, ◌&&◌, if◌then◌else◌, ok, arith}
use mit.Superpages.Trap.{Trap, User, exited, usertrap}

module _ (Rest : Type 0) (kernbase maxva : ℕ) (syscall : User Rest → User Rest) where
  -- Whether the process is marked as killed when it ends: `exit` is called at once for some faults.
  abbrev mark : Trap → User Rest → Bool
  mark t s =
      if t.scause == 13 && leb kernbase t.stval
      then s.killed
      else if t.scause == 15 && leb maxva t.stval
      then s.killed
      else true

  -- An exception of user code that is neither a system call nor a device's interrupt ends the
  -- process, whatever the cause and the address, with its other state unchanged.
  pub usertrap-exception :
      (t : Trap) (s : User Rest)
      → t.from_supervisor ≡ false
      → t.scause ≢ 8
      → t.dev ≡ 0
      → (s' : User Rest) × (usertrap Rest kernbase maxva syscall t s ≡ ok (exited s'))
        × (s'.epc ≡ t.sepc)
        × (s'.rest ≡ s.rest)
  unfolding usertrap
  usertrap-exception t s user no_call no_dev =
      (record s { epc = t.sepc; killed = mark t s }, ground arith, refl, refl)
