-- ===== src/Attack/Exec.antt =====
-- lab2, attack: `exec` of exec.c, over `uvmalloc` of the lab and what it calls of the rest of xv6.
pub mod Memory
pub mod Arguments
pub mod Segments
pub mod Outcome
pub mod Program
mod Tests
use mit.Base.{
  ℕ, zero, suc, ◌+◌, ◌-◌, ◌*◌, ◌/◌, ◌%◌, ◌^◌, Bool, true, false, List, [], ◌∷◌, ◌++◌, Option, none,
  some, ◌==◌, ltb, leb, not, ◌||◌, if◌then◌else◌, add64, sub64, Run, ok, panic, ◌>>=◌, length,
}
use mit.Cow.Kalloc.{Layout, page_size}
use mit.Attack.{Kernel}
use mit.Attack.Grow.{Paging, round_up, write, uvmalloc}

-- `struct elfhdr` and `struct proghdr`, of which these fields are used.
pub record Elf : Type 0 where
  pub magic : ℕ
  pub entry : ℕ
  pub phoff : ℕ
  pub phnum : ℕ

pub record Proghdr : Type 0 where
  pub kind : ℕ
  pub off : ℕ
  pub vaddr : ℕ
  pub filesz : ℕ
  pub memsz : ℕ
  pub flags : ℕ

-- `ELF_MAGIC`, `ELF_PROG_LOAD`, `sizeof(struct proghdr)` and `MAXARG`.
abbrev pub elf_magic : ℕ
elf_magic = 0x464c457f

abbrev pub elf_prog_load : ℕ
elf_prog_load = 1

abbrev pub proghdr_size : ℕ
proghdr_size = 56

abbrev pub max_arg : ℕ
max_arg = 32

-- What `exec` calls: the file system, and the page tables of a process. `read_elf` and
-- `read_proghdr` are `none` where `readi` gives fewer bytes.
pub record Xv6 (m : Paging) : Type 1 where
  pub Files : Type 0
  pub Inode : Type 0
  pub user_stack : ℕ
  pub begin_op : Files → Files
  pub end_op : Files → Files
  pub namei : List ℕ → Files → Option Inode × Files
  pub ilock : Inode → Files → Files
  pub iunlockput : Inode → Files → Files
  pub read_elf : Inode → Files → Option Elf
  pub read_proghdr : Inode → (off : ℕ) → Files → Option Proghdr
  pub proc_pagetable : Kernel → Option m.Tables × Kernel
  pub proc_freepagetable : m.Tables → (sz : ℕ) → Kernel → Run Kernel
  pub flags2perm : ℕ → ℕ
  pub loadseg : m.Tables → (va : ℕ) → Inode → (offset sz : ℕ) → Files → Kernel → Bool × Kernel
  pub uvmclear : m.Tables → (va : ℕ) → m.Tables
  pub copyout : m.Tables → (dstva : ℕ) → List ℕ → Kernel → Bool × Kernel

-- The fields of `struct proc` and its trapframe that `exec` sets.
pub record Process (Tables : Type 0) : Type 0 where
  pub sz : ℕ
  pub pagetable : Tables
  pub epc : ℕ
  pub sp : ℕ
  pub a1 : ℕ
  pub name : List ℕ

-- The bytes of a `uint64`, the lowest first, and of an array of them.
abbrev pub word : ℕ → List ℕ
word v =
    v % 256
    ∷ v / 256 % 256
    ∷ v / 256 ^ 2 % 256
    ∷ v / 256 ^ 3 % 256
    ∷ v / 256 ^ 4 % 256
    ∷ v / 256 ^ 5 % 256
    ∷ v / 256 ^ 6 % 256
    ∷ v / 256 ^ 7 % 256
    ∷ []

pub words : List ℕ → List ℕ
words [] = []
words (v ∷ vs) = word v ++ words vs

-- The loop over the path, where `last` begins behind the last slash so far.
pub last_name : (last s : List ℕ) → List ℕ
last_name last [] = last
last_name last (c ∷ s) = last_name (if c == b'/' then s else last) s

-- `safestrcpy` of 16 bytes, without the NUL.
abbrev pub first_bytes : ℕ → List ℕ → List ℕ
first_bytes zero s = []
first_bytes (suc n) [] = []
first_bytes (suc n) (c ∷ s) = c ∷ first_bytes n s

-- `argc`, `sp` and `ustack` after the loop over the arguments.
pub record Pushed : Type 0 where
  pub argc : ℕ
  pub sp : ℕ
  pub ustack : List ℕ

module _ (l : Layout) (m : Paging) (x : Xv6 m) where
  open m use {Tables}
  open x use {
    Files, Inode, user_stack, begin_op, end_op, namei, ilock, iunlockput, read_elf, read_proghdr,
    proc_pagetable, proc_freepagetable, flags2perm, loadseg, uvmclear, copyout,
  }

  -- The result, `none` for -1, and what is left.
  abbrev pub Result : Type 0
  Result = Option ℕ × Process Tables × Files × Kernel

  -- `bad:`
  pub bad : Option Tables → (sz : ℕ) → Option Inode → Process Tables → Files → Kernel → Run Result
  bad t sz ip p f k =
      (elim t [ none ↦ ok k | some pagetable ↦ proc_freepagetable pagetable sz k ]) >>= λ k1.
      ok (none, p, (elim ip [ none ↦ f | some i ↦ end_op (iunlockput i f) ]), k1)

  -- One segment: whether it could be loaded, the size, the table and the allocator.
  pub load_segment :
      Inode → Files → Proghdr → (sz : ℕ) → Tables → Kernel → Run (Bool × ℕ × Tables × Kernel)
  load_segment ip f ph sz t k =
      let top = add64 ph.vaddr ph.memsz in
      if not (ph.kind == elf_prog_load)
      then ok (true, sz, t, k)
      else if ltb ph.memsz ph.filesz
      then ok (false, sz, t, k)
      else if ltb top ph.vaddr
      then ok (false, sz, t, k)
      else if not (ph.vaddr % page_size == 0)
      then ok (false, sz, t, k)
      else (uvmalloc l m t k sz top (flags2perm ph.flags) >>= λ r.
          if r.0 == 0
          then ok (false, sz, r.1, r.2)
          else (let s = loadseg r.1 ph.vaddr ip ph.off ph.filesz f r.2 in ok (s.0, r.0, r.1, s.1)))

  -- The loop, with `n` headers left; `off` is the pattern of an int.
  pub load_segments :
      (n off : ℕ) → Inode → Files → (sz : ℕ) → Tables → Kernel → Run (Bool × ℕ × Tables × Kernel)
  unfolding load_segment
  load_segments zero off ip f sz t k = ok (true, sz, t, k)
  load_segments (suc n) off ip f sz t k = elim (read_proghdr ip off f) [
    | none ↦ ok (false, sz, t, k)
    | some ph ↦ load_segment ip f ph sz t k >>= λ r. elim (r.0) [
      | false ↦ ok r
      | true ↦ load_segments n ((off + proghdr_size) % 2 ^ 32) ip f r.1 r.2 r.3
    ]
  ]

  -- The loop over the arguments: `none` where it goes to `bad`.
  pub push_args :
      List (List ℕ) → Pushed → (stackbase : ℕ) → Tables → Kernel → Option Pushed × Kernel
  push_args [] s stackbase t k = (some s, k)
  push_args (arg ∷ argv) s stackbase t k =
      let sp1 = sub64 s.sp (length arg + 1) in
      let sp = sub64 sp1 (sp1 % 16) in
      let w = copyout t sp (arg ++ (0 ∷ [])) k in
      let rest =
        push_args argv (record { argc = s.argc + 1; sp = sp; ustack = s.ustack ++ (sp ∷ []) })
          stackbase t w.1 in
      if leb max_arg s.argc || ltb sp stackbase
      then (none, k)
      else if w.0
      then rest
      else (none, w.1)

  -- From the stack on: the process `p`, the table of the new image, and its size so far. For MAXARG
  -- arguments `ustack[argc] = 0` lies past the end of `ustack`; C says nothing of such a write, and
  -- here it is a panic.
  pub exec_stack :
      List ℕ
      → List (List ℕ)
      → Elf
      → Process Tables
      → Tables
      → (sz : ℕ) → Files
      → Kernel
      → Run Result
  unfolding bad push_args words last_name
  exec_stack path argv elf p t0 sz0 f k0 =
      let bottom = round_up sz0 in
      uvmalloc l m t0 k0 bottom (add64 bottom ((user_stack + 1) * page_size)) write >>= λ r.
      let sz = r.0 in
      let t = uvmclear r.1 (sub64 sz ((user_stack + 1) * page_size)) in
      let stackbase = sub64 sz (user_stack * page_size) in
      let pushed = push_args argv (record { argc = 0; sp = sz; ustack = [] }) stackbase t r.2 in
      if sz == 0 then bad (some r.1) bottom none p f r.2 else elim (pushed.0) [
        | none ↦ bad (some t) sz none p f pushed.1
        | some s ↦
            let sp1 = sub64 s.sp ((s.argc + 1) * 8) in
            let sp = sub64 sp1 (sp1 % 16) in
            let w = copyout t sp (words (s.ustack ++ (0 ∷ []))) pushed.1 in
            if s.argc == max_arg
            then panic
            else if ltb sp stackbase
            then bad (some t) sz none p f pushed.1
            else if not w.0
            then bad (some t) sz none p f w.1
            else (proc_freepagetable p.pagetable p.sz w.1 >>= λ k. ok (
              some s.argc,
              record {
                sz = sz;
                pagetable = t;
                epc = elf.entry;
                sp = sp;
                a1 = sp;
                name = first_bytes 15 (last_name path path);
              },
              f,
              k,
            ))
      ]

  -- From the locked inode on.
  pub exec_inode : List ℕ → List (List ℕ) → Process Tables → Inode → Files → Kernel → Run Result
  unfolding load_segments exec_stack
  exec_inode path argv p ip f k = elim (read_elf ip f) [
    | none ↦ bad none 0 (some ip) p f k
    | some elf ↦
        let made = proc_pagetable k in
        if not (elf.magic == elf_magic) then bad none 0 (some ip) p f k else elim (made.0) [
          | none ↦ bad none 0 (some ip) p f made.1
          | some t ↦ load_segments elf.phnum (elf.phoff % 2 ^ 32) ip f 0 t made.1 >>= λ r.
              if r.0
              then exec_stack path argv elf p r.2 r.1 (end_op (iunlockput ip f)) r.3
              else bad (some r.2) r.1 (some ip) p f r.3
        ]
  ]

  pub exec : List ℕ → List (List ℕ) → Process Tables → Files → Kernel → Run Result
  unfolding exec_inode
  exec path argv p f k =
      let found = namei path (begin_op f) in
      elim (found.0) [
        | none ↦ ok (none, p, end_op found.1, k)
        | some ip ↦ exec_inode path argv p ip (ilock ip found.1) k
      ]
