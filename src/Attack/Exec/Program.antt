-- ===== src/Attack/Exec/Program.antt =====
-- lab2, exec.c: what `exec` comes to, for the process and for the files.
use mit.Base.{
  ℕ, suc, ◌+◌, ◌*◌, ◌%◌, ◌^◌, ◌<◌, ◌≡◌, inl, inr, refl, List, [], none, some, ◌==◌, arith, add64,
  sub64, Ensures, Ensures-bind, Ensures-weaken, Bool-cases, Option-cases, ap, ◌∙◌,
}
use mit.Cow.Kalloc.{Layout, page_size}
use mit.Attack.{Kernel}
use mit.Attack.Grow.{Paging, round_up, write, uvmalloc}
use mit.Attack.Grow.Ends as Grown
use mit.Attack.Grow.Ends.{uvmalloc-Result}
use mit.Attack.Exec.{
  Xv6, Elf, Process, elf_magic, Pushed, Result, push_args, exec_stack, exec_inode, exec,
  load_segments,
}
use mit.Attack.Exec.Arguments.{Memory, AreShort, push_args-Done}
use mit.Attack.Exec.Outcome.{Outcome, bad-Outcome, finish-Outcome}
use mit.Attack.Exec.Segments.{Bounds, load_segments-small}

-- What the files of a process count: its transactions, the inodes that it locked, and its references
-- to inodes.
pub record Held : Type 0 where
  pub transactions : ℕ
  pub locks : ℕ
  pub inodes : ℕ

pub record Accounts (m : Paging) (x : Xv6 m) : Type 0 where
  pub held : x.Files → Held
  pub begin_op_held :
      (f : x.Files)
      → held (x.begin_op f) ≡ record (held f) { transactions = suc (held f).transactions }
  pub end_op_held :
      (f : x.Files) (h : Held)
      → held f ≡ record h { transactions = suc h.transactions }
      → held (x.end_op f) ≡ h
  pub namei_found :
      (path : List ℕ) (f : x.Files) (ip : x.Inode)
      → (x.namei path f).0 ≡ some ip
      → held (x.namei path f).1 ≡ record (held f) { inodes = suc (held f).inodes }
  pub namei_missing :
      (path : List ℕ) (f : x.Files) → (x.namei path f).0 ≡ none → held (x.namei path f).1 ≡ held f
  pub ilock_held :
      (ip : x.Inode) (f : x.Files)
      → held (x.ilock ip f) ≡ record (held f) { locks = suc (held f).locks }
  pub iunlockput_held :
      (ip : x.Inode) (f : x.Files) (h : Held)
      → held f ≡ record h { locks = suc h.locks; inodes = suc h.inodes }
      → held (x.iunlockput ip f) ≡ h

module _ (l : Layout) (m : Paging) (x : Xv6 m) (b : Bounds m x) (mem : Memory m x) where
  open m use {Tables}
  open x use {Files, Inode, user_stack}

  -- From the stack on.
  exec_stack-Outcome :
      (path : List ℕ) (argv : List (List ℕ)) (elf : Elf) (p : Process Tables) (t : Tables) (sz : ℕ)
      (f : Files) (k : Kernel)
      → AreShort argv
      → sz < 2 ^ 62
      → Ensures (exec_stack l m x path argv elf p t sz f k) (Outcome l m x b mem argv p f)
  unfolding exec_stack
  exec_stack-Outcome path argv elf p t0 sz0 f k0 short small =
      let bottom = round_up sz0 in
      let top = add64 bottom ((user_stack + 1) * page_size) in
      let size : top ≡ bottom + (user_stack + 1) * page_size = omega (arith, b.stack) in
      Ensures-bind (Grown.Result l m b.dealloc top) (Outcome l m x b mem argv p f)
        (uvmalloc l m t0 k0 bottom top write) _
        (uvmalloc-Result l m b.dealloc t0 k0 bottom top write (omega (arith, size))
          (omega (arith, size, b.stack)))
        (λ r h. elim (Bool-cases (r.0 == 0)) [
          | inl z ↦ rw z (bad-Outcome l m x b mem argv (some r.1) bottom none p f r.2)
          | inr nz ↦
              let sz : r.0 ≡ bottom + (user_stack + 1) * page_size = elim h [
                | inl z ↦ absurd (ground (arith, z, nz))
                | inr e ↦ e ∙ size
              ] in
              let base = sub64 r.0 (user_stack * page_size) in
              let low : base ≡ bottom + page_size = omega (arith, sz, b.stack) in
              let t = x.uvmclear r.1 (sub64 r.0 ((user_stack + 1) * page_size)) in
              let start : Pushed = record { argc = 0; sp = r.0; ustack = [] } in
              rw nz (
                finish-Outcome l m x b mem path argv elf p t r.0 base f r.2
                  (push_args l m x argv start base t r.2) (omega (arith, low))
                  (omega (arith, sz, b.stack)) (omega (arith, low, sz))
                  (push_args-Done l m x mem argv start base t r.2 short (omega (arith, low))
                    (omega (arith, low, sz)) (omega (arith, sz, b.stack)) (omega arith)))
        ])

  -- From the locked inode on.
  exec_inode-Outcome :
      (path : List ℕ) (argv : List (List ℕ)) (p : Process Tables) (ip : Inode) (f : Files)
      (k : Kernel)
      → AreShort argv
      → Ensures
          (exec_inode l m x path argv p ip f k)
          (Outcome l m x b mem argv p (x.end_op (x.iunlockput ip f)))
  unfolding exec_inode
  exec_inode-Outcome path argv p ip f k short = elim (Option-cases (x.read_elf ip f)) [
    | inl e ↦ rw (e, Ensures) (bad-Outcome l m x b mem argv none 0 (some ip) p f k)
    | inr (elf, e) ↦ elim (Bool-cases (elf.magic == elf_magic)) [
      | inr no_elf ↦ rw (e, no_elf, Ensures) (bad-Outcome l m x b mem argv none 0 (some ip) p f k)
      | inl magic ↦ elim (Option-cases (x.proc_pagetable k).0) [
        | inl full ↦
            rw (e, magic, full, Ensures)
              (bad-Outcome l m x b mem argv none 0 (some ip) p f (x.proc_pagetable k).1)
        | inr (t, made) ↦
            rw (e, magic, made, Ensures)
              (Ensures-bind (λ r. r.1 < 2 ^ 62)
                (Outcome l m x b mem argv p (x.end_op (x.iunlockput ip f)))
                (load_segments l m x elf.phnum (elf.phoff % 2 ^ 32) ip f 0 t (x.proc_pagetable k).1)
                _
                (load_segments-small l m x b elf.phnum (elf.phoff % 2 ^ 32) ip f 0 t
                  (x.proc_pagetable k).1 (omega arith))
                (λ r h. elim (Bool-cases r.0) [
                  | inl loaded ↦ rw loaded (
                      exec_stack-Outcome path argv elf p r.2 r.1 (x.end_op (x.iunlockput ip f)) r.3
                        short h)
                  | inr failed ↦
                      rw failed (bad-Outcome l m x b mem argv (some r.2) r.1 (some ip) p f r.3)
                ]))
      ]
    ]
  ]

  module _ (a : Accounts m x) where
    -- Whatever `exec` held after it found the inode was given back.
    closed :
        (path : List ℕ) (f : Files) (ip : Inode)
        → (x.namei path (x.begin_op f)).0 ≡ some ip
        → a.held (x.end_op (x.iunlockput ip (x.ilock ip (x.namei path (x.begin_op f)).1)))
          ≡ a.held f
    closed path f ip e =
        let h = a.held f in
        let h1 : Held = record h { transactions = suc h.transactions } in
        let found = a.namei_found path (x.begin_op f) ip e in
        a.end_op_held (x.iunlockput ip (x.ilock ip (x.namei path (x.begin_op f)).1)) h (
          a.iunlockput_held ip (x.ilock ip (x.namei path (x.begin_op f)).1) h1 (
            a.ilock_held ip (x.namei path (x.begin_op f)).1
            ∙ (ap (λ (g : Held). record g { locks = suc g.locks })
                (found
                  ∙ ap (λ (g : Held). record g { inodes = suc g.inodes }) (a.begin_op_held f)))))

    -- Either `exec` failed, and the process is as it was, or its arguments are on its stack; and it
    -- holds what it held.
    abbrev pub Ended : List (List ℕ) → Process Tables → Files → Result l m x → Type 0
    Ended argv p f r = (a.held r.2 ≡ a.held f) × ((f' : Files) × Outcome l m x b mem argv p f' r)

    same_files :
        (argv : List (List ℕ)) (p : Process Tables) (f f' : Files) (r : Result l m x)
        → a.held f' ≡ a.held f
        → Outcome l m x b mem argv p f' r
        → Ended argv p f r
    same_files argv p f f' r e (inl failed) = (ap a.held failed.2 ∙ e, (f', inl failed))
    same_files argv p f f' r e (inr started) = (ap a.held started.files ∙ e, (f', inr started))

    -- Where the functions that give memory back end, the program's segments lie below `2 ^ 62` and its
    -- arguments are shorter than a page, `exec` ends, by a panic, for which the write past `ustack` of
    -- MAXARG arguments stands too, or with a value. It then holds as many transactions, locks and
    -- inodes as before. If it returns -1, the process is as it was; else it returns the number of arguments,
    -- which is below MAXARG; the stack pointer is aligned and in the stack; and when the old memory
    -- is given back, the memory of the process has the array of pointers there, ended by null, and
    -- above it each argument at its pointer.
    pub exec-Ended :
        (path : List ℕ) (argv : List (List ℕ)) (p : Process Tables) (f : Files) (k : Kernel)
        → AreShort argv
        → Ensures (exec l m x path argv p f k) (Ended argv p f)
    unfolding exec
    exec-Ended path argv p f k short = elim (Option-cases (x.namei path (x.begin_op f)).0) [
      | inl missing ↦
          rw (missing, Ensures)
            (same_files argv p f _ _
              (a.end_op_held (x.namei path (x.begin_op f)).1 (a.held f)
                (a.namei_missing path (x.begin_op f) missing ∙ a.begin_op_held f))
              (inl (refl, refl, refl)))
      | inr (ip, e) ↦
          rw (e, Ensures)
            (Ensures-weaken
              (Outcome l m x b mem argv p
                (x.end_op (x.iunlockput ip (x.ilock ip (x.namei path (x.begin_op f)).1))))
              (Ended argv p f) _
              (exec_inode-Outcome path argv p ip (x.ilock ip (x.namei path (x.begin_op f)).1) k
                short)
              (λ r o. same_files argv p f _ r (closed path f ip e) o))
    ]
