-- ===== src/Cow/Copyout/Bytes.antt =====
-- lab6, vm.c: the bytes that `copyout` writes, over any number of pages.
use mit.Base.{
  ℕ, zero, suc, ◌+◌, ◌-◌, ◌*◌, ◌%◌, ◌^◌, ◌≤◌, ◌<◌, ◌≡◌, ◌≢◌, refl, true, false, some, ltb, leb,
  arith, ok, add64, sub64, if◌then◌else◌, ap, sym, ◌∙◌,
}
use mathlib.Core.Path.{subst}
use native.Mathlib.Decide.{dec_lt}
use mit.Cow.Kalloc.{Layout, Kernel, page_size, round_down}
use mit.Cow.Paging.{Pte, Paging}
use mit.Cow.Fault.{memmove}
use mit.Cow.Fault.Memmove.{memmove-inside, memmove-outside}
use mit.Cow.Copyout.{writable_entry, copyout}
use mit.Cow.Copyout.Page.{writable_entry-plain}

module _ (l : Layout) (g : Paging) (t : Paging.Table g) (low : g.maxva < 2 ^ 63)
    (entry : ℕ → Pte) where
  open g use {maxva, walk}

  -- The place of a user address in memory, where `entry` has the entry of each page.
  abbrev pub place : ℕ → ℕ
  place va = (entry (round_down va)).pa + va % page_size

  -- The page is the user's, and is not to be copied.
  pub record IsPlain (va0 : ℕ) : Type 0 where
    pub walked : walk t va0 ≡ some (entry va0)
    pub v : (entry va0).flags.v ≡ true
    pub u : (entry va0).flags.u ≡ true
    pub cow : (entry va0).flags.cow ≡ false
    pub bounded : (entry va0).pa < 2 ^ 62

  -- The destination lies below MAXVA in such pages, each byte in a place of its own, which is not
  -- among those of the source.
  pub record IsTarget (dstva src len : ℕ) : Type 0 where
    pub below : dstva + len ≤ maxva
    pub source : src + len < 2 ^ 63
    pub plain : (j : ℕ) → j < len → IsPlain (round_down (dstva + j))
    pub distinct : (i j : ℕ) → i < len → j < len → place (dstva + i) ≡ place (dstva + j) → i ≡ j
    pub apart : (i j : ℕ) → i < len → j < len → src + i ≢ place (dstva + j)

  -- The memory `m'` is `m` with the bytes of the source at the destination.
  pub record Written (dstva src len : ℕ) (m m' : ℕ → ℕ) : Type 0 where
    pub there : (j : ℕ) → j < len → m' (place (dstva + j)) ≡ m (src + j)
    pub else_where : (a : ℕ) → ((j : ℕ) → j < len → a ≢ place (dstva + j)) → m' a ≡ m a

  -- The first `n` bytes, which lie in one page.
  place-add :
      (dstva j : ℕ) → dstva % page_size + j < page_size → place (dstva + j) ≡ place dstva + j
  place-add dstva j lt =
      let same : round_down (dstva + j) ≡ round_down dstva = omega arith in
      let off : (dstva + j) % 4096 ≡ dstva % 4096 + j = omega arith in rw (same, off) (omega arith)

  first_there :
      (dstva src n j : ℕ) (m : ℕ → ℕ)
      → dstva % page_size + n ≤ page_size
      → j < n
      → memmove m (place dstva) src n (place (dstva + j)) ≡ m (src + j)
  first_there dstva src n j m fits lt =
      ap (memmove m (place dstva) src n) (place-add dstva j (omega arith))
      ∙ memmove-inside m (place dstva) src n j lt

  first_else_where :
      (dstva src n a : ℕ) (m : ℕ → ℕ)
      → dstva % page_size + n ≤ page_size
      → ((j : ℕ) → j < n → a ≢ place (dstva + j))
      → memmove m (place dstva) src n a ≡ m a
  first_else_where dstva src n a m fits out =
      memmove-outside m (place dstva) src n a
        (λ j lt e. out j lt (e ∙ sym (place-add dstva j (omega arith))))

  -- What a round leaves to the next one.
  rest-IsTarget :
      (dstva src len n : ℕ)
      → n ≤ len
      → IsTarget dstva src len
      → IsTarget (dstva + n) (src + n) (len - n)
  rest-IsTarget dstva src len n le h =
      let d : (j : ℕ) → dstva + n + j ≡ dstva + (n + j) = λ j. omega arith in
      let s : (j : ℕ) → src + n + j ≡ src + (n + j) = λ j. omega arith in
      record {
        below = omega (arith, h.below);
        source = omega (arith, h.source);
        plain =
            λ j lt. subst (λ a. IsPlain (round_down a)) (sym (d j)) (h.plain (n + j) (omega arith));
        distinct = λ i j li lj e. omega (
          arith,
          h.distinct (n + i) (n + j) (omega arith) (omega arith)
              (ap place (sym (d i)) ∙ (e ∙ ap place (d j))),
        );
        apart = λ i j li lj e.
            h.apart (n + i) (n + j) (omega arith) (omega arith) (sym (s i) ∙ (e ∙ ap place (d j)));
      }

  -- A round of `n` bytes, and the bytes after it.
  rounds-Written :
      (dstva src len n : ℕ) (m m' : ℕ → ℕ)
      → n ≤ len
      → dstva % page_size + n ≤ page_size
      → IsTarget dstva src len
      → Written (dstva + n) (src + n) (len - n) (memmove m (place dstva) src n) m'
      → Written dstva src len m m'
  rounds-Written dstva src len n m m' le fits h w =
      let m1 = memmove m (place dstva) src n in
      record {
        there = λ j lt. elim (dec_lt j n) [
          | yes first ↦
              w.else_where (place (dstva + j)) (λ i li e. absurd (
                omega (
                  arith,
                  h.distinct j (n + i) (omega arith) (omega arith)
                      (e ∙ ap place (let q : dstva + n + i ≡ dstva + (n + i) = omega arith in q)),
                )))
              ∙ first_there dstva src n j m fits first
          | no later ↦
              let q : dstva + n + (j - n) ≡ dstva + j = omega arith in
              let r : src + n + (j - n) ≡ src + j = omega arith in
              ap (λ a. m' (place a)) (sym q)
              ∙ (w.there (j - n) (omega arith)
                  ∙ (ap m1 r
                      ∙ first_else_where dstva src n (src + j) m fits
                          (λ i li e. h.apart j i lt (omega arith) e)))
        ];
        else_where = λ a out.
            w.else_where a (λ j lt e.
              out (n + j) (omega arith)
                (e ∙ ap place (let q : dstva + n + j ≡ dstva + (n + j) = omega arith in q)))
            ∙ first_else_where dstva src n a m fits (λ j lt. out j (omega arith));
      }

  -- How many bytes a round writes.
  abbrev amount : (dstva len : ℕ) → ℕ
  amount dstva len = let room = page_size - dstva % page_size in if ltb len room then len else room

  round :
      (fuel dstva src len : ℕ) (k : Kernel)
      → 0 < len
      → IsTarget dstva src len
      → copyout l g (suc fuel) t dstva src len k
        ≡ copyout l g fuel t
            (round_down dstva + page_size)
            (src + amount dstva len)
            (len - amount dstva len)
            (record k { bytes = memmove k.bytes (place dstva) src (amount dstva len) })
  unfolding copyout
  round fuel dstva src len k pos h =
      let p : IsPlain (round_down dstva) =
        subst (λ a. IsPlain (round_down a)) (let q : dstva + 0 ≡ dstva = omega arith in q)
          (h.plain 0 pos) in
      let e = entry (round_down dstva) in
      let test : ltb 0 len ≡ true = ground arith in
      let near : leb maxva (round_down dstva) ≡ false = ground (arith, h.below) in
      let w : writable_entry l g t (round_down dstva) k ≡ ok (some e, t, k) =
        writable_entry-plain l g t (round_down dstva) k e p.walked p.v p.u p.cow in
      let off : add64 e.pa (sub64 dstva (round_down dstva)) ≡ place dstva =
        omega (arith, p.bounded, h.below, low) in
      let room : sub64 page_size (sub64 dstva (round_down dstva)) ≡ page_size - dstva % page_size =
        omega (arith, h.below, low) in
      let next : add64 (round_down dstva) page_size ≡ round_down dstva + page_size =
        omega (arith, h.below, low) in
      let from : add64 src (amount dstva len) ≡ src + amount dstva len = ground (arith, h.source) in
      let left : sub64 len (amount dstva len) ≡ len - amount dstva len = ground (arith, h.source) in
      rw (test, near, w, off, room, next, from, left) refl

  done :
      (fuel dstva src : ℕ) (k : Kernel)
      → 0 < fuel
      → copyout l g fuel t dstva src 0 k ≡ ok (true, t, k)
  unfolding copyout
  done zero dstva src k pos = absurd (omega arith)
  done (suc fuel) dstva src k pos = refl

  nothing-Written : (dstva src : ℕ) (m : ℕ → ℕ) → Written dstva src 0 m m
  nothing-Written dstva src m = record {
    there = λ j lt. absurd (omega arith);
    else_where = λ a out. refl;
  }

  -- `copyout` to pages of the user below MAXVA that are valid and not copy-on-write, each byte to a
  -- place of its own apart from the source, with fuel for one round more than pages, succeeds: the
  -- destination holds the bytes of the source, over any number of pages, and nothing else changed.
  pub copyout-Written :
      (fuel dstva src len : ℕ) (k : Kernel)
      → IsTarget dstva src len
      → dstva % page_size + len + page_size ≤ fuel * page_size
      → (m : ℕ → ℕ) × (copyout l g fuel t dstva src len k ≡ ok (true, t, record k { bytes = m }))
        × Written dstva src len k.bytes m
  copyout-Written zero dstva src len k h en = absurd (omega arith)
  copyout-Written (suc fuel) dstva src zero k h en =
      (k.bytes, done (suc fuel) dstva src k (omega arith), nothing-Written dstva src k.bytes)
  copyout-Written (suc fuel) dstva src (suc len) k h en =
      let n = amount dstva (suc len) in
      let m1 = memmove k.bytes (place dstva) src n in
      let k1 : Kernel = record k { bytes = m1 } in
      let run = round fuel dstva src (suc len) k (omega arith) h in
      let n_le : n ≤ suc len = ground arith in
      let fits : dstva % page_size + n ≤ page_size = ground arith in
      elim (dec_lt (suc len) (page_size - dstva % page_size)) [
        | yes last ↦
            let all : n ≡ suc len = ground arith in
            let none_left : suc len - n ≡ 0 = omega (arith, all) in
            (
              m1,
              run
                  ∙ (ap
                        (λ len'.
                          copyout l g fuel t (round_down dstva + page_size) (src + n) len' k1)
                        none_left
                      ∙ done fuel (round_down dstva + page_size) (src + n) k1 (omega arith)),
              rounds-Written dstva src (suc len) n k.bytes m1 n_le fits h (
                  subst (λ len'. Written (dstva + n) (src + n) len' m1 m1) (sym none_left)
                    (nothing-Written (dstva + n) (src + n) m1)),
            )
        | no more ↦
            let room : n ≡ page_size - dstva % page_size = ground arith in
            let next : dstva + n ≡ round_down dstva + page_size = omega (arith, room) in
            let (m, there, w) =
              copyout-Written fuel (dstva + n) (src + n) (suc len - n) k1
                (rest-IsTarget dstva src (suc len) n n_le h) (omega (arith, room)) in
            (
              m,
              run ∙ (ap (λ d. copyout l g fuel t d (src + n) (suc len - n) k1) (sym next) ∙ there),
              rounds-Written dstva src (suc len) n k.bytes m n_le fits h w,
            )
      ]
