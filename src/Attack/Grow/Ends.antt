-- ===== src/Attack/Grow/Ends.antt =====
-- lab2, attack: the loops of `uvmalloc` and `sys_sbrk` end within their rounds.
use Prim.Native.Nat.{bit_or}
use mit.Base.{
  ℕ, zero, suc, ◌+◌, ◌*◌, ◌/◌, ◌%◌, ◌^◌, ◌≤◌, ◌<◌, ◌≡◌, ◌⊎◌, refl, true, false, ◌==◌, ltb, inl, inr,
  add64, ok, arith, Ends, Ensures, Ensures-bind, Bool-cases,
}
use mit.Cow.Kalloc.{Layout, page_size}
use mit.Attack.{Kernel, kfree, kalloc}
use mit.Attack.Grow.{Paging, round_up, read_user, undo, grow_loop, uvmalloc, print_loop}

module _ (l : Layout) (m : Paging)
    (dealloc : (t : m.Tables) (k : Kernel) (a b : ℕ) → Ends (m.uvmdealloc t k a b)) where
  -- `uvmalloc` fails, or gives the new size.
  abbrev pub Result : ℕ → ℕ × m.Tables × Kernel → Type 0
  Result newsz r = (r.0 ≡ 0) ⊎ (r.0 ≡ newsz)

  pub kfree-Ends : (pa : ℕ) (k : Kernel) → Ends (kfree l pa k)
  unfolding kfree
  kfree-Ends pa k = ground arith

  pub undo-Result :
      (newsz : ℕ) (t : m.Tables) (k : Kernel) (a oldsz : ℕ)
      → Ensures (undo l m t k a oldsz) (Result newsz)
  unfolding undo
  undo-Result newsz t k a oldsz =
      Ensures-bind (λ r. Unit) (Result newsz) (m.uvmdealloc t k a oldsz) _ (dealloc t k a oldsz)
        (λ r h. inl refl)

  grow_loop-Result :
      (fuel : ℕ) (t : m.Tables) (k : Kernel) (a oldsz newsz xperm : ℕ)
      → newsz < 2 ^ 63
      → 0 < fuel
      → newsz + page_size ≤ a + fuel * page_size
      → Ensures (grow_loop l m fuel t k a oldsz newsz xperm) (Result newsz)
  unfolding grow_loop
  grow_loop-Result zero t k a oldsz newsz xperm small pos en = absurd (omega arith)
  grow_loop-Result (suc fuel) t k a oldsz newsz xperm small pos en =
      let mem = kalloc k in
      let mapped = m.mappages t mem.1 a mem.0 (bit_or read_user xperm) in
      elim (Bool-cases (ltb a newsz)) [
        | inr past ↦ rw past (inr refl)
        | inl below ↦
            let lt : a < newsz = ground (arith, below) in
            let next : (a + 4096) % 2 ^ 64 ≡ a + 4096 = omega arith in
            elim (Bool-cases (mem.0 == 0)) [
              | inl e ↦ rw (below, e) (undo-Result newsz t mem.1 a oldsz)
              | inr e ↦ elim (Bool-cases mapped.0) [
                | inl g ↦
                    rw (below, e, g)
                      (grow_loop-Result fuel mapped.1 mapped.2 ((a + 4096) % 2 ^ 64) oldsz newsz
                        xperm small (omega arith) (omega (arith, next)))
                | inr g ↦
                    rw (below, e, g)
                      (Ensures-bind (λ k1. Unit) (Result newsz) (kfree l mem.0 mapped.2) _
                        (kfree-Ends mem.0 mapped.2) (λ k1 _. undo-Result newsz mapped.1 k1 a oldsz))
              ]
            ]
      ]

  round_up-bound : (sz : ℕ) → sz < 2 ^ 63 → sz ≤ round_up sz
  round_up-bound sz lt = omega arith

  pub uvmalloc-Result :
      (t : m.Tables) (k : Kernel) (oldsz newsz xperm : ℕ)
      → oldsz ≤ newsz
      → newsz < 2 ^ 63
      → Ensures (uvmalloc l m t k oldsz newsz xperm) (Result newsz)
  unfolding uvmalloc
  uvmalloc-Result t k oldsz newsz xperm le small =
      let not_less : ltb newsz oldsz ≡ false = ground arith in
      rw not_less (
        grow_loop-Result (newsz / 4096 + 2) t k (round_up oldsz) (round_up oldsz) newsz xperm small
          (omega arith) (omega arith))

  pub uvmalloc-less :
      (t : m.Tables) (k : Kernel) (oldsz newsz xperm : ℕ)
      → newsz < oldsz
      → uvmalloc l m t k oldsz newsz xperm ≡ ok (oldsz, t, k)
  unfolding uvmalloc
  uvmalloc-less t k oldsz newsz xperm lt =
      let less : ltb newsz oldsz ≡ true = ground arith in rw less refl

  pub print_loop-Ends :
      (fuel : ℕ) (t : m.Tables) (va new_sz : ℕ)
      → new_sz < 2 ^ 63
      → 0 < fuel
      → new_sz + page_size ≤ va + fuel * page_size
      → Ends (print_loop l m fuel t va new_sz)
  unfolding print_loop
  print_loop-Ends zero t va new_sz small pos en = absurd (omega arith)
  print_loop-Ends (suc fuel) t va new_sz small pos en = elim (Bool-cases (ltb va new_sz)) [
    | inr past ↦ rw past tt
    | inl below ↦
        let lt : va < new_sz = ground (arith, below) in
        let next : (va + 4096) % 2 ^ 64 ≡ va + 4096 = omega arith in
        rw below (
          Ensures-bind (λ lines. Unit) (λ lines. Unit)
            (print_loop l m fuel t (add64 va page_size) new_sz) _
            (print_loop-Ends fuel t (add64 va page_size) new_sz small (omega arith)
              (omega (arith, next)))
            (λ lines _. tt))
  ]
