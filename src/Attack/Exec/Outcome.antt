-- ===== src/Attack/Exec/Outcome.antt =====
-- lab2, exec.c: `exec` fails with nothing changed, or the process has its arguments on its stack.
use mit.Base.{
  ℕ, ◌+◌, ◌*◌, ◌%◌, ◌^◌, ◌≤◌, ◌<◌, ◌≡◌, ◌⊎◌, inl, inr, refl, true, List, [], ◌∷◌, ◌++◌, Option,
  none, some, ltb, arith, not, sub64, if◌then◌else◌, Run, ok, panic, ◌==◌, ◌>>=◌, Ends-self,
  Ensures, Ensures-bind, Ensures-weaken, Bool-cases, length, length-append, ap,
}
use mathlib.Core.Path.{subst}
use mit.Cow.Kalloc.{Layout, page_size}
use mit.Attack.{Kernel}
use mit.Attack.Grow.{Paging}
use mit.Attack.Exec.{Xv6, Elf, Process, Pushed, max_arg, words, Result, first_bytes, last_name, bad}
use mit.Attack.Exec.Memory.{Holds, Strings, Strings-same, length-words, length-Strings}
use mit.Attack.Exec.Arguments.{Memory, Done, AfterPush}
use mit.Attack.Exec.Segments.{Bounds, left, Failed, bad-Failed}

module _ (l : Layout) (m : Paging) (x : Xv6 m) (b : Bounds m x) (mem : Memory m x) where
  open m use {Tables}
  open x use {Files, Inode, user_stack}

  -- The stack of a process that is about to run: the array of pointers to the arguments at `sp`, the
  -- null pointer last, and the arguments above it.
  pub record HasArguments (argv : List (List ℕ)) (p : Process Tables) (k : Kernel) : Type 0 where
    pub pointers : List ℕ
    pub low : ℕ
    pub array : Holds (mem.peek p.pagetable k) p.sp (words (pointers ++ (0 ∷ [])))
    pub strings : Strings (mem.peek p.pagetable k) low p.sz pointers argv
    pub below : p.sp + (length argv + 1) * 8 ≤ low
    pub aligned : p.sp % 16 ≡ 0
    pub in_stack : p.sz ≤ p.sp + user_stack * page_size
    pub argument : p.a1 ≡ p.sp
    pub few : length argv < max_arg

  -- `exec` returns the number of arguments; the old memory was given back when the new one was
  -- complete.
  pub record Started (argv : List (List ℕ)) (p : Process Tables) (f : Files) (r : Result l m x)
      : Type 0 where
    pub before : Kernel
    pub count : r.0 ≡ some (length argv)
    pub has : HasArguments argv r.1 before
    pub freed : x.proc_freepagetable p.pagetable p.sz before ≡ ok r.3
    pub files : r.2 ≡ f

  abbrev pub Outcome : List (List ℕ) → Process Tables → Files → Result l m x → Type 0
  Outcome argv p f r = Failed l m x b p f r ⊎ Started argv p f r

  pub bad-Outcome :
      (argv : List (List ℕ)) (t : Option Tables) (sz : ℕ) (ip : Option Inode) (p : Process Tables)
      (f : Files) (k : Kernel)
      → Ensures (bad l m x t sz ip p f k) (Outcome argv p (left l m x b ip f))
  bad-Outcome argv t sz ip p f k =
      Ensures-weaken (Failed l m x b p (left l m x b ip f)) (Outcome argv p (left l m x b ip f)) _
        (bad-Failed l m x b t sz ip p f k) (λ r h. inl h)

  -- The pointers below the strings.
  array-HasArguments :
      (argv : List (List ℕ)) (p : Process Tables) (k k0 : Kernel) (s : Pushed) (base : ℕ)
      → Done l m x mem argv (record { argc = 0; sp = p.sz; ustack = [] }) base p.pagetable k0 s k
      → (x.copyout p.pagetable p.sp (words (s.ustack ++ (0 ∷ []))) k).0 ≡ true
      → p.sp + (s.argc + 1) * 8 ≤ s.sp
      → p.sp % 16 ≡ 0
      → p.sz ≤ p.sp + user_stack * page_size
      → p.a1 ≡ p.sp
      → s.argc < max_arg
      → HasArguments argv p (x.copyout p.pagetable p.sp (words (s.ustack ++ (0 ∷ []))) k).1
  array-HasArguments argv p k k0 s base d copied room al stack arg some_room =
      let array = words (s.ustack ++ (0 ∷ [])) in
      let k1 = (x.copyout p.pagetable p.sp array k).1 in
      let each = length-Strings (mem.peek p.pagetable k) s.sp p.sz d.pointers argv d.strings in
      let long : length array ≡ (s.argc + 1) * 8 = omega (
        arith,
        length-words (s.ustack ++ (0 ∷ [])),
        length-append s.ustack (0 ∷ []),
        ap length d.stack,
        d.count,
        each,
      ) in
      record {
        pointers = d.pointers;
        low = s.sp;
        array =
            subst (λ u. Holds (mem.peek p.pagetable k1) p.sp (words (u ++ (0 ∷ [])))) d.stack
              (mem.stored p.pagetable p.sp array k copied);
        strings =
            Strings-same (mem.peek p.pagetable k) (mem.peek p.pagetable k1) s.sp s.sp p.sz p.sz
              d.pointers argv (omega arith) (omega arith)
              (λ i from. mem.kept p.pagetable p.sp array k i copied (inr (omega (arith, long))))
              d.strings;
        below = omega (arith, d.count);
        aligned = al;
        in_stack = stack;
        argument = arg;
        few = omega (arith, d.count, some_room);
      }

  -- The end of `exec`, after the loop over the arguments.
  abbrev finish :
      List ℕ
      → Elf
      → Process Tables
      → Tables
      → (sz stackbase : ℕ) → Files
      → Option Pushed × Kernel
      → Run (Result l m x)
  finish path elf p t sz stackbase f pushed = elim (pushed.0) [
    | none ↦ bad l m x (some t) sz none p f pushed.1
    | some s ↦
        let sp1 = sub64 s.sp ((s.argc + 1) * 8) in
        let sp = sub64 sp1 (sp1 % 16) in
        let w = x.copyout t sp (words (s.ustack ++ (0 ∷ []))) pushed.1 in
        if s.argc == max_arg
        then panic
        else if ltb sp stackbase
        then bad l m x (some t) sz none p f pushed.1
        else if not w.0
        then bad l m x (some t) sz none p f w.1
        else (x.proc_freepagetable p.pagetable p.sz w.1 >>= λ k. ok (
          some s.argc,
          record {
            sz = sz;
            pagetable = t;
            epc = elf.entry;
            sp = sp;
            a1 = sp;
            name = first_bytes 15 (last_name path path);
          },
          f,
          k,
        ))
  ]

  pub finish-Outcome :
      (path : List ℕ) (argv : List (List ℕ)) (elf : Elf) (p : Process Tables) (t : Tables)
      (sz stackbase : ℕ) (f : Files) (k0 : Kernel) (o : Option Pushed × Kernel)
      → page_size ≤ stackbase
      → sz < 2 ^ 63
      → sz ≡ stackbase + user_stack * page_size
      → AfterPush l m x mem argv (record { argc = 0; sp = sz; ustack = [] }) stackbase t k0 o
      → Ensures (finish path elf p t sz stackbase f o) (Outcome argv p f)
  finish-Outcome path argv elf p t sz stackbase f k0 (none, k) low high size d =
      bad-Outcome argv (some t) sz none p f k
  finish-Outcome path argv elf p t sz stackbase f k0 (some s, k) low high size d =
      let sp1 = sub64 s.sp ((s.argc + 1) * 8) in
      let sp = sub64 sp1 (sp1 % 16) in
      let w = x.copyout t sp (words (s.ustack ++ (0 ∷ []))) k in
      let room : (sp + (s.argc + 1) * 8 ≤ s.sp) × (sp % 16 ≡ 0) =
        omega (arith, d.above, d.within, d.down) in
      elim (Bool-cases (s.argc == max_arg)) [
        | inl full ↦ rw full tt
        | inr most ↦ elim (Bool-cases (ltb sp stackbase)) [
          | inl deep ↦ rw (most, deep, Ensures) (bad-Outcome argv (some t) sz none p f k)
          | inr fits ↦ elim (Bool-cases w.0) [
            | inr failed ↦
                rw (most, fits, failed, Ensures) (bad-Outcome argv (some t) sz none p f w.1)
            | inl copied ↦
                let p' : Process Tables = record {
                  sz = sz;
                  pagetable = t;
                  epc = elf.entry;
                  sp = sp;
                  a1 = sp;
                  name = first_bytes 15 (last_name path path);
                } in
                let has : HasArguments argv p' w.1 =
                  array-HasArguments argv p' k k0 s stackbase d copied room.0 room.1
                    (ground (arith, fits)) refl (ground (arith, most, d.within)) in
                rw (most, fits, copied)
                  (Ensures-bind (λ k1. x.proc_freepagetable p.pagetable p.sz w.1 ≡ ok k1)
                    (Outcome argv p f) (x.proc_freepagetable p.pagetable p.sz w.1)
                    (λ k1. ok (some s.argc, p', f, k1))
                    (Ends-self (x.proc_freepagetable p.pagetable p.sz w.1)
                      (b.free p.pagetable p.sz w.1))
                    (λ k1 e. inr (record {
                      before = w.1;
                      count = ap some (omega (arith, d.count));
                      has = has;
                      freed = e;
                      files = refl;
                    })))
          ]
        ]
      ]
