-- ===== src/Superpages/Grow.antt =====
-- lab3, proc.c: `growproc`, which keeps for each process a record of its pages, small or large.
pub mod Bounds
pub mod Shrink
use mit.Base.{
  ℕ, zero, suc, ◌+◌, ◌-◌, ◌*◌, ◌/◌, ◌%◌, ◌^◌, Bool, true, false, ◌==◌, ltb, leb, not, if◌then◌else◌,
  update, extend, add64, sub64, inc32, dec32, is_pos32, is_neg32, Run, ok, panic, ◌>>=◌,
}
use mit.Cow.Kalloc.{page_size}
use mit.Superpages.{superpage_size}
use mit.Superpages.Table.{Flags, no_flags, Vm}
use mit.Superpages.Space.{Machine, SbrkHelp, sbrksuperuvmalloc, uvmalloc}

-- The fields of `struct proc` that `growproc` reads or writes: `sz`, the array `record` of 10000
-- characters, and `next`, the pattern of an int. A write past the array is a write to `kinds` here.
pub record Proc : Type 0 where
  pub pagetable : ℕ
  pub sz : ℕ
  pub kinds : ℕ → ℕ
  pub next : ℕ

-- The characters '0' and '1'.
abbrev pub small : ℕ
small = 48

abbrev pub large : ℕ
large = 49

-- `PTE_W`
abbrev pub writable : Flags
writable = record no_flags { w = true }

abbrev pub add32 : ℕ → ℕ → ℕ
add32 a b = (a + b) % 2 ^ 32

-- `for (int i = 0; i < n; i++) { p->record[p->next] = c; p->next++; }`
pub push : (n c : ℕ) → Proc → Proc
push zero c p = p
push (suc n) c p = push n c (record p { kinds = update p.kinds p.next c; next = inc32 p.next })

-- The rounds of `for (int i = 0; i < n; i++)`, for the pattern `n` of an int.
abbrev pub rounds : ℕ → ℕ
rounds n = if is_pos32 n then n else 0

-- The lists of pages that `sbrksuperuvmalloc` counted.
pub push_help : SbrkHelp → Proc → Proc
unfolding push
push_help h p =
    push (rounds h.endpages) small
      (push (rounds h.superpages) large (push (rounds h.startpages) small p))

module _ (m : Machine) where
  open m use {uvmdealloc}

  -- The loop of the branch `n < 0`, for the index `count - 1`.
  pub shrink_loop : (count : ℕ) → (n : ℕ) → Proc → Vm → Run (Proc × Vm)
  shrink_loop zero n p vm = ok (p, vm)
  shrink_loop (suc i) n p vm =
      let large_step =
        let n1 = add32 n superpage_size in
        uvmdealloc vm p.pagetable p.sz (sub64 p.sz superpage_size) >>= λ d.
        let part =
          uvmalloc m d.1 p.pagetable d.0 (add64 (add64 d.0 superpage_size) (extend n)) writable
          >>= λ a. ok (
            record p {
              sz = a.0;
              kinds = update p.kinds i small;
              next = add32 (dec32 p.next) (n1 / page_size);
            },
            a.1,
          ) in
        let p1 = record p { sz = d.0 } in
        let rest = shrink_loop i n1 p1 d.1 in
        if is_pos32 n1 then part else if n1 == 0 then ok (record p1 { next = i }, d.1) else rest in
      let small_step =
        let n1 = add32 n page_size in
        uvmdealloc vm p.pagetable p.sz (sub64 p.sz page_size) >>= λ d.
        let p1 = record p { sz = d.0 } in
        let rest = shrink_loop i n1 p1 d.1 in
        if is_pos32 n1
        then ok (record p1 { next = dec32 i }, d.1)
        else if n1 == 0
        then ok (record p1 { next = i }, d.1)
        else rest in
      if p.kinds i == large then large_step else small_step

  -- Whether it returned 0, the process, and memory.
  pub growproc : (n : ℕ) → Proc → Vm → Run (Bool × Proc × Vm)
  growproc n p vm =
      if is_pos32 n
      then (sbrksuperuvmalloc m vm p.pagetable p.sz (add64 p.sz n) writable >>= λ r.
          if r.0.state == 0
          then ok (false, p, r.1)
          else (let p1 = push_help r.0 p in ok (true, record p1 { sz = extend r.0.sz }, r.1)))
      else if is_neg32 n
      then (shrink_loop (if is_pos32 p.next then p.next else 0) n p vm >>= λ r. ok (true, r.0, r.1))
      else ok (true, p, vm)
