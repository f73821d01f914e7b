-- ===== src/Superpages/Grow/Bounds.antt =====
-- lab3, proc.c: the record of pages when a process grows.
use mit.Base.{
  ℕ, zero, suc, ◌+◌, ◌-◌, ◌*◌, ◌/◌, ◌^◌, ◌≤◌, ◌<◌, ◌≡◌, refl, Bool, true, false, ◌==◌, ◌⊎◌, inl,
  inr, if◌then◌else◌, update, add64, inc32, extend, is_pos32, Run, ok, Ensures, Ensures-bind, arith,
  ◌∙◌, ap,
}
use mit.Cow.Kalloc.{page_size, round_up}
use mit.Superpages.{superpage_size}
use mit.Superpages.Table.{Vm}
use mit.Superpages.Space.{Machine, SbrkHelp}
use mit.Superpages.Space.Counts.{MachineEnds, total, sbrksuperuvmalloc-Counted}
use mit.Superpages.Grow.{Proc, small, large, writable, push, rounds, push_help, growproc}

abbrev pub kind_size : ℕ → ℕ
kind_size c = if c == large then superpage_size else page_size

-- The memory of the first `n` pages of a record.
unfoldable pub covered : (ℕ → ℕ) → ℕ → ℕ
covered kinds zero = 0
covered kinds (suc n) = covered kinds n + kind_size (kinds n)

-- The record of the process accounts for its size above `start`, where its record begins.
pub record IsRecorded (start : ℕ) (p : Proc) : Type 0 where
  pub bound : p.next ≤ 10000
  pub sum : covered p.kinds p.next + start ≡ round_up p.sz

pub covered-suc :
    (kinds : ℕ → ℕ) (n : ℕ) → covered kinds (suc n) ≡ covered kinds n + kind_size (kinds n)
unfolding covered
covered-suc kinds n = refl

covered-update :
    (kinds : ℕ → ℕ) (i c n : ℕ) → n ≤ i → covered (update kinds i c) n ≡ covered kinds n
unfolding covered
covered-update kinds i c zero le = refl
covered-update kinds i c (suc n) le = ground (arith, covered-update kinds i c n)

record Pushed (n c : ℕ) (p p' : Proc) : Type 0 where
  next : p'.next ≡ p.next + n
  sum : covered p'.kinds p'.next ≡ covered p.kinds p.next + n * kind_size c
  sz : p'.sz ≡ p.sz

covered-push :
    (p : Proc) (c : ℕ)
    → covered (update p.kinds p.next c) (suc p.next) ≡ covered p.kinds p.next + kind_size c
unfolding covered
covered-push p c = ground (arith, covered-update p.kinds p.next c p.next (omega arith))

push-Pushed : (n c : ℕ) (p : Proc) → p.next + n < 2 ^ 31 → Pushed n c p (push n c p)
unfolding push
push-Pushed zero c p lt = omega arith
push-Pushed (suc n) c p lt =
    let p1 : Proc = record p { kinds = update p.kinds p.next c; next = inc32 p.next } in
    let step : p1.next ≡ suc p.next = omega arith in
    let rest = push-Pushed n c p1 (omega (arith, step)) in
    let one = covered-push p c in
    record {
      next = omega (arith, rest.next, step);
      sum =
          rest.sum
          ∙ (ap (λ (x : ℕ). covered p1.kinds x + n * kind_size c) step ∙ grind (arith, one));
      sz = rest.sz;
    }

push_help-covered :
    (h : SbrkHelp) (p : Proc)
    → p.next + h.startpages + h.superpages + h.endpages < 2 ^ 31
    → (let p' = push_help h p in
        (p'.next ≡ p.next + h.startpages + h.superpages + h.endpages)
        × (covered p'.kinds p'.next ≡ covered p.kinds p.next + total h))
unfolding push_help
push_help-covered h p lt =
    let rounds_start : rounds h.startpages ≡ h.startpages = ground arith in
    let rounds_super : rounds h.superpages ≡ h.superpages = ground arith in
    let rounds_end : rounds h.endpages ≡ h.endpages = ground arith in
    let a = push-Pushed h.startpages small p (omega arith) in
    let p1 = push h.startpages small p in
    let b = push-Pushed h.superpages large p1 (omega (arith, a.next)) in
    let p2 = push h.superpages large p1 in
    let c = push-Pushed h.endpages small p2 (omega (arith, a.next, b.next)) in
    rw (rounds_start, rounds_super, rounds_end)
      (omega (arith, a.next, b.next, c.next), omega (arith, a.sum, b.sum, c.sum))

-- What `sbrksuperuvmalloc` says of the counts.
abbrev Counted : (old newsz : ℕ) → SbrkHelp → Type 0
Counted old newsz h =
    (h.state ≡ 0)
    ⊎ ((h.state ≡ 1) × (h.sz ≡ newsz) × (old ≤ newsz) × (total h + round_up old ≡ round_up newsz))

abbrev grown : SbrkHelp → Proc → Vm → Run (Bool × Proc × Vm)
grown h p vm =
    if h.state == 0
    then ok (false, p, vm)
    else (let p1 = push_help h p in ok (true, record p1 { sz = extend h.sz }, vm))

recorded :
    (start n : ℕ) (p : Proc) (h : SbrkHelp) (vm : Vm)
    → 0 < n
    → p.sz + n < 2 ^ 31
    → IsRecorded start p
    → p.next + (round_up (p.sz + n) - round_up p.sz) / page_size ≤ 10000
    → Counted p.sz (p.sz + n) h
    → Ensures (grown h p vm) (λ r.
      ((r.0 ≡ false) × (r.1 ≡ p)) ⊎ ((r.0 ≡ true) × (r.1.sz ≡ p.sz + n) × IsRecorded start r.1))
recorded start n p h vm pos lt inv room (inl failed) =
    let t : (h.state == 0) ≡ true = ground arith in rw t (inl (refl, refl))
recorded start n p h vm pos lt inv room (inr (done, sz, le, sum)) =
    let t : (h.state == 0) ≡ false = ground arith in
    let size : extend h.sz ≡ p.sz + n = ground (arith, sz, lt) in
    let few : h.startpages + h.superpages + h.endpages
        ≤ (round_up (p.sz + n) - round_up p.sz) / page_size =
      omega (arith, sum) in
    let (next, cover) = push_help-covered h p (omega (arith, few, inv.bound)) in
    rw t (
      inr (
        refl,
        size,
        record {
          bound = omega (arith, next, few, room);
          sum = omega (arith, cover, sum, inv.sum, size);
        },
      ))

-- A process that grows below `2 ^ 31` by whole or part pages, with room in the record for each page
-- of the new memory, where `mappages` and `uvmdealloc` end: `growproc` ends, by a panic or with a
-- value. If it gives one, either it returns -1 and the process is as before, or
-- the size is the new one, and the record, which stays within its array, accounts for it.
pub growproc-IsRecorded :
    (m : Machine) (start n : ℕ) (p : Proc) (vm : Vm)
    → MachineEnds m
    → 0 < n
    → p.sz + n < 2 ^ 31
    → IsRecorded start p
    → p.next + (round_up (p.sz + n) - round_up p.sz) / page_size ≤ 10000
    → Ensures (growproc m n p vm) (λ r.
      ((r.0 ≡ false) × (r.1 ≡ p)) ⊎ ((r.0 ≡ true) × (r.1.sz ≡ p.sz + n) × IsRecorded start r.1))
unfolding growproc
growproc-IsRecorded m start n p vm ends pos lt inv room =
    let grows : is_pos32 n ≡ true = ground arith in
    let sum : add64 p.sz n ≡ p.sz + n = omega arith in
    rw (grows, sum)
      (Ensures-bind (λ r. Counted p.sz (p.sz + n) r.0) _ _ _
        (sbrksuperuvmalloc-Counted m ends vm p.pagetable p.sz (p.sz + n) writable (omega arith))
        (λ r c. recorded start n p r.0 r.1 pos lt inv room c))
