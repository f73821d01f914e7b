-- ===== src/Attack/Exec/Arguments.antt =====
-- lab2, exec.c: the loop that pushes the arguments.
use mit.Base.{
  ℕ, ◌+◌, ◌-◌, ◌%◌, ◌^◌, ◌≤◌, ◌<◌, ◌≡◌, ◌⊎◌, inl, inr, refl, true, List, [], ◌∷◌, ◌++◌, Option,
  none, some, arith, length, ◌∙◌, ltb, leb, ◌||◌, sub64, Bool-cases, sym,
}
use mathlib.Core.List.{append-nil, append_assoc}
use mit.Cow.Kalloc.{Layout, page_size}
use mit.Attack.{Kernel}
use mit.Attack.Grow.{Paging}
use mit.Attack.Exec.{Xv6, Pushed, max_arg, push_args}
use mit.Attack.Exec.Memory.{Holds, Strings, Holds-same, Strings-same, length-nul}

-- The memory of a process, by its table: what xv6 promises of a `copyout` that returns 0.
pub record Memory (m : Paging) (x : Xv6 m) : Type 0 where
  pub peek : m.Tables → Kernel → ℕ → ℕ
  pub stored :
      (t : m.Tables) (va : ℕ) (bytes : List ℕ) (k : Kernel)
      → (x.copyout t va bytes k).0 ≡ true
      → Holds (peek t (x.copyout t va bytes k).1) va bytes
  pub kept :
      (t : m.Tables) (va : ℕ) (bytes : List ℕ) (k : Kernel) (a : ℕ)
      → (x.copyout t va bytes k).0 ≡ true
      → (a < va) ⊎ (va + length bytes ≤ a)
      → peek t (x.copyout t va bytes k).1 a ≡ peek t k a

-- Strings of less than a page, as `sys_exec` fetches them.
abbrev pub AreShort : List (List ℕ) → Type 0
AreShort [] = Unit
AreShort (s ∷ ss) = (length s < page_size) × AreShort ss

module _ (l : Layout) (m : Paging) (x : Xv6 m) (mem : Memory m x) where
  open m use {Tables}

  -- The arguments `argv` were pushed: `s` is from before, `s'` from after.
  pub record Done (argv : List (List ℕ)) (s : Pushed) (base : ℕ) (t : Tables) (k : Kernel)
      (s' : Pushed) (k' : Kernel) : Type 0 where
    pub pointers : List ℕ
    pub stack : s'.ustack ≡ s.ustack ++ pointers
    pub count : s'.argc ≡ s.argc + length argv
    pub within : s'.argc ≤ max_arg
    pub down : s'.sp ≤ s.sp
    pub above : base ≤ s'.sp
    pub strings : Strings (mem.peek t k') s'.sp s.sp pointers argv
    pub kept : (a : ℕ) → s.sp ≤ a → mem.peek t k' a ≡ mem.peek t k a

  abbrev pub AfterPush :
      List (List ℕ) → Pushed → (base : ℕ) → Tables → Kernel → Option Pushed × Kernel → Type 0
  AfterPush argv s base t k (none, k') = Unit
  AfterPush argv s base t k (some s', k') = Done argv s base t k s' k'

  -- The stack pointer for a string.
  abbrev below : (sp len : ℕ) → ℕ
  below sp len = sub64 sp (len + 1) - sub64 sp (len + 1) % 16

  below_bounds :
      (sp len : ℕ)
      → len < page_size
      → page_size ≤ sp
      → sp < 2 ^ 63
      → (sub64 (sub64 sp (len + 1)) (sub64 sp (len + 1) % 16) ≡ below sp len)
        × (below sp len + len < sp)
        × (below sp len % 16 ≡ 0)
  below_bounds sp len short low high = omega arith

  -- One string on top of those after it.
  push-Done :
      (arg : List ℕ) (argv : List (List ℕ)) (s : Pushed) (base : ℕ) (t : Tables) (k : Kernel)
      (s' : Pushed) (k' : Kernel) (sp : ℕ)
      → (x.copyout t sp (arg ++ (0 ∷ [])) k).0 ≡ true
      → sp + length arg < s.sp
      → sp % 16 ≡ 0
      → Done argv
          (record { argc = s.argc + 1; sp = sp; ustack = s.ustack ++ (sp ∷ []) })
          base
          t
          (x.copyout t sp (arg ++ (0 ∷ [])) k).1
          s'
          k'
      → Done (arg ∷ argv) s base t k s' k'
  push-Done arg argv s base t k s' k' sp copied fits al d =
      let k1 = (x.copyout t sp (arg ++ (0 ∷ [])) k).1 in
      record {
        pointers = sp ∷ d.pointers;
        stack = d.stack ∙ append_assoc s.ustack (sp ∷ []) d.pointers;
        count = omega (arith, d.count);
        within = d.within;
        down = omega (arith, d.down);
        above = d.above;
        strings = (
          d.down,
          fits,
          al,
          Holds-same (mem.peek t k1) (mem.peek t k') sp (arg ++ (0 ∷ []))
              (λ i from to. d.kept i from) (mem.stored t sp (arg ++ (0 ∷ [])) k copied),
          Strings-same (mem.peek t k') (mem.peek t k') s'.sp s'.sp sp s.sp d.pointers argv
              (omega arith) (omega arith) (λ i from. refl) d.strings,
        );
        kept = λ a from.
            d.kept a (omega arith)
            ∙ mem.kept t sp (arg ++ (0 ∷ [])) k a copied (inr (omega (arith, length-nul arg)));
      }

  one_more :
      (arg : List ℕ) (argv : List (List ℕ)) (s : Pushed) (base : ℕ) (t : Tables) (k : Kernel)
      (r : Option Pushed × Kernel) (sp : ℕ)
      → (x.copyout t sp (arg ++ (0 ∷ [])) k).0 ≡ true
      → sp + length arg < s.sp
      → sp % 16 ≡ 0
      → AfterPush argv
          (record { argc = s.argc + 1; sp = sp; ustack = s.ustack ++ (sp ∷ []) })
          base
          t
          (x.copyout t sp (arg ++ (0 ∷ [])) k).1
          r
      → AfterPush (arg ∷ argv) s base t k r
  one_more arg argv s base t k (none, k') sp copied fits al d = tt
  one_more arg argv s base t k (some s', k') sp copied fits al d =
      push-Done arg argv s base t k s' k' sp copied fits al d

  pub push_args-Done :
      (argv : List (List ℕ)) (s : Pushed) (base : ℕ) (t : Tables) (k : Kernel)
      → AreShort argv
      → page_size ≤ base
      → base ≤ s.sp
      → s.sp < 2 ^ 63
      → s.argc ≤ max_arg
      → AfterPush argv s base t k (push_args l m x argv s base t k)
  unfolding push_args
  push_args-Done [] s base t k short low le high few = record {
    pointers = [];
    stack = sym (append-nil s.ustack);
    count = omega arith;
    within = few;
    down = omega arith;
    above = le;
    strings = tt;
    kept = λ a from. refl;
  }
  push_args-Done (arg ∷ argv) s base t k short low le high few =
      let (value, fits, al) = below_bounds s.sp (length arg) short.0 (omega arith) high in
      let sp = below s.sp (length arg) in
      elim (Bool-cases (leb max_arg s.argc || ltb sp base)) [
        | inl refused ↦ rw (value, refused) tt
        | inr pushed ↦ elim (Bool-cases (x.copyout t sp (arg ++ (0 ∷ [])) k).0) [
          | inr failed ↦ rw (value, pushed, failed) tt
          | inl copied ↦
              rw (value, pushed, copied)
                (one_more arg argv s base t k _ sp copied fits al (
                  push_args-Done argv
                    (record { argc = s.argc + 1; sp = sp; ustack = s.ustack ++ (sp ∷ []) }) base t
                    (x.copyout t sp (arg ++ (0 ∷ [])) k).1 short.1 low (ground (arith, pushed))
                    (omega arith) (ground (arith, pushed))))
        ]
      ]
