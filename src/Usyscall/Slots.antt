-- ===== src/Usyscall/Slots.antt =====
-- lab3, proc.c: the slots of the process table in `allocproc`.
use mit.Base.{
  ℕ, suc, ◌≡◌, ◌≢◌, refl, Bool, true, false, Option, none, some, List, [], ◌∷◌, ◌++◌, arith,
  if◌then◌else◌, ok, sym,
}
use mit.Usyscall.{
  Machine, unused, Proc, freeproc, free_page, free_table, give_up, found, next_index, allocproc,
}

module _ (m : Machine) where
  open m use {Kernel, allocpid, kalloc}

  -- The slot as `freeproc` leaves it.
  abbrev pub cleared : Proc m → Proc m
  cleared p = record p {
    trapframe = 0;
    usyscall = 0;
    pagetable = none;
    sz = 0;
    pid = 0;
    parent = 0;
    name = "";
    chan = 0;
    killed = 0;
    xstate = 0;
    state = unused;
  }

  abbrev pub count : List (Proc m) → ℕ
  count [] = 0
  count (p ∷ ps) = suc (count ps)

  abbrev pub AllBusy : List (Proc m) → Type 0
  AllBusy [] = Unit {0}
  AllBusy (p ∷ ps) = (p.state ≢ unused) × AllBusy ps

  abbrev at : Bool → ℕ → Option ℕ
  at b n = if b then some n else none

  next-at : (b : Bool) (n : ℕ) → next_index m (at b n) ≡ at b (suc n)
  next-at true n = refl
  next-at false n = refl

  allocproc-skip :
      (p : Proc m) (ps ps' : List (Proc m)) (k k' : Kernel) (i : Option ℕ)
      → p.state ≢ unused
      → allocproc m ps k ≡ ok (i, ps', k')
      → allocproc m (p ∷ ps) k ≡ ok (next_index m i, p ∷ ps', k')
  unfolding allocproc
  allocproc-skip p ps ps' k k' i busy e = ground (arith, e)

  allocproc-take :
      (p p' : Proc m) (ps : List (Proc m)) (k k' : Kernel) (b : Bool)
      → p.state ≡ unused
      → found m p k ≡ ok (b, p', k')
      → allocproc m (p ∷ ps) k ≡ ok (at b 0, p' ∷ ps, k')
  unfolding allocproc
  allocproc-take p p' ps k k' b free e = ground (arith, e, free)

  -- The first free slot is the one that is taken.
  allocproc-first :
      (before after : List (Proc m)) (p p' : Proc m) (k k' : Kernel) (b : Bool)
      → AllBusy before
      → p.state ≡ unused
      → found m p k ≡ ok (b, p', k')
      → allocproc m (before ++ (p ∷ after)) k ≡ ok (at b (count before), before ++ (p' ∷ after), k')
  allocproc-first [] after p p' k k' b busy free e = allocproc-take p p' after k k' b free e
  allocproc-first (q ∷ qs) after p p' k k' b busy free e = rw (sym (next-at b (count qs))) (
      allocproc-skip q (qs ++ (p ∷ after)) (qs ++ (p' ∷ after)) k k' (at b (count qs)) busy.0
        (allocproc-first qs after p p' k k' b busy.1 free e))

  found-no_memory :
      (p : Proc m) (k : Kernel)
      → p.usyscall ≡ 0
      → p.pagetable ≡ none
      → (kalloc (allocpid k).1).0 ≡ 0
      → found m p k ≡ ok (false, cleared p, (kalloc (allocpid k).1).1)
  unfolding found give_up freeproc free_page free_table
  found-no_memory p k u t full = ground (arith, u, t, full)

  -- With no memory for the trapframe, and a first free slot that has no shared page and no page
  -- table, `allocproc` returns 0, that slot is as `freeproc` leaves it, and every other process is as
  -- before.
  pub allocproc-no_memory :
      (before after : List (Proc m)) (p : Proc m) (k : Kernel)
      → AllBusy before
      → p.state ≡ unused
      → p.usyscall ≡ 0
      → p.pagetable ≡ none
      → (kalloc (allocpid k).1).0 ≡ 0
      → allocproc m (before ++ (p ∷ after)) k
        ≡ ok (none, before ++ (cleared p ∷ after), (kalloc (allocpid k).1).1)
  allocproc-no_memory before after p k busy free u t full =
      allocproc-first before after p (cleared p) k (kalloc (allocpid k).1).1 false busy free
        (found-no_memory p k u t full)
