-- ===== src/Vmprint/Lines.antt =====
-- The runs of `vmprint`: it prints the entries to which indices lead, and no others.
use mit.Base.{
  ℕ, zero, suc, ◌+◌, ◌*◌, ◌^◌, ◌≤◌, ◌<◌, ◌≡◌, inl, inr, refl, Bool, true, false, List, [], ◌∷◌,
  ◌++◌, Run, ok, ◌>>=◌, Ensures, Ensures-bind, Ensures-weaken, arith, In, In-append, In-append_left,
  In-append_right,
}
use mathlib.Core.Path.{subst}
use native.Mathlib.Decide.{dec_lt}
use mit.Vmprint.{
  Line, valid, points_below, pte2pa, px_shift, vpn_of, visit_entry, entries_loop, vmprintkpgtbl,
  vmprint,
}
use mit.Vmprint.Address.{Agree, vpn_of-Agree}
use mit.Vmprint.Walk.{
  HasLevels, Leads, LinesOf, LinesAt, line_of, line_of-Leads, no_indices, invalid-LinesAt,
  leaf-LinesAt, table-LinesAt,
}

module _ (ptes : ℕ → ℕ → ℕ) where
  -- The lines are those below the entries `i`, and the `n - 1` ones after it.
  abbrev LinesFrom : (table depth va n i : ℕ) → List Line → Type 0
  LinesFrom table depth va n i lines =
      (l : Line)
      → (In l lines
          → (j : ℕ) × (is : List ℕ) × (i ≤ j) × (j < i + n) × Leads ptes table depth va (j ∷ is) l)
        × ((j : ℕ) (is : List ℕ)
            → i ≤ j
            → j < i + n
            → Leads ptes table depth va (j ∷ is) l
            → In l lines)

  -- What the recursive call gives for the table that an entry points to.
  abbrev Below : (ℕ → ℕ → Run (List Line)) → (table depth recordvpn va i : ℕ) → Type 0
  Below visit table depth recordvpn va i =
      let pa = pte2pa (ptes table i) in
      let vpn = vpn_of depth recordvpn i pa in
      let va' = va + i * 2 ^ px_shift depth in
      valid (ptes table i) ≡ true
      → points_below (ptes table i) ≡ true
      → Agree (suc depth) vpn va'
      → Ensures (visit pa vpn) (LinesOf ptes pa (suc depth) va')

  -- `visit_entry` by what is tested of the entry.
  abbrev print_entry :
      (ℕ → ℕ → Run (List Line)) → (pa vpn : ℕ) → Line → (is_valid below : Bool) → Run (List Line)
  print_entry visit pa vpn line is_valid below = elim is_valid [
    | true ↦ elim below [
      | true ↦ visit pa vpn >>= λ lines. ok (line ∷ lines)
      | false ↦ ok (line ∷ [])
    ]
    | false ↦ ok []
  ]

  print_entry-LinesAt :
      (visit : ℕ → ℕ → Run (List Line)) (table depth recordvpn va i : ℕ)
      → depth < 3
      → i < 512
      → Agree depth recordvpn va
      → Below visit table depth recordvpn va i
      → (is_valid below : Bool) → valid (ptes table i) ≡ is_valid
      → points_below (ptes table i) ≡ below
      → (let pte = ptes table i in
          Ensures
            (print_entry visit
              (pte2pa pte)
              (vpn_of depth recordvpn i (pte2pa pte))
              (line_of ptes depth recordvpn i pte)
              is_valid
              below)
            (LinesAt ptes table depth va i))
  print_entry-LinesAt visit table depth recordvpn va i d lt g h false below v p =
      invalid-LinesAt ptes table depth va i v
  print_entry-LinesAt visit table depth recordvpn va i d lt g h true false v p =
      leaf-LinesAt ptes table depth va i _ p
        (line_of-Leads ptes table depth recordvpn va i d lt g v)
  print_entry-LinesAt visit table depth recordvpn va i d lt g h true true v p =
      let pa = pte2pa (ptes table i) in
      let vpn = vpn_of depth recordvpn i pa in
      Ensures-bind (LinesOf ptes pa (suc depth) (va + i * 2 ^ px_shift depth))
        (LinesAt ptes table depth va i) (visit pa vpn) _
        (h v p (vpn_of-Agree depth recordvpn va i (ptes table i) d lt g))
        (λ lines c.
          table-LinesAt ptes table depth va i _ lines lt v p
            (line_of-Leads ptes table depth recordvpn va i d lt g v) c)

  visit_entry-LinesAt :
      (visit : ℕ → ℕ → Run (List Line)) (table depth recordvpn va i : ℕ)
      → depth < 3
      → i < 512
      → Agree depth recordvpn va
      → Below visit table depth recordvpn va i
      → Ensures (visit_entry visit depth recordvpn i (ptes table i)) (LinesAt ptes table depth va i)
  unfolding visit_entry
  visit_entry-LinesAt visit table depth recordvpn va i d lt g h =
      print_entry-LinesAt visit table depth recordvpn va i d lt g h _ _ refl refl

  -- The lines of an entry, and those of the entries after it.
  append-LinesFrom :
      (table depth va n i : ℕ) (a b : List Line)
      → LinesAt ptes table depth va i a
      → LinesFrom table depth va n (suc i) b
      → LinesFrom table depth va (suc n) i (a ++ b)
  append-LinesFrom table depth va n i a b ca cb = λ l. (
    (λ m. elim (In-append l a b m) [
      | inl first ↦ let (is, g) = (ca l).0 first in (i, is, omega arith, omega arith, g)
      | inr later ↦
          let (j, is, from, to, g) = (cb l).0 later in (j, is, omega arith, omega arith, g)
    ]),
    (λ j is from to g. elim (dec_lt i j) [
      | yes later ↦ In-append_right l a b ((cb l).1 j is later (omega arith) g)
      | no here ↦
          let e : j ≡ i = omega arith in
          In-append_left l a b ((ca l).1 is (subst (λ j. Leads ptes table depth va (j ∷ is) l) e g))
    ]),
  )

  entries_loop-LinesFrom :
      (visit : ℕ → ℕ → Run (List Line)) (table depth recordvpn va n i : ℕ)
      → depth < 3
      → i + n ≤ 512
      → Agree depth recordvpn va
      → ((j : ℕ) → j < 512 → Below visit table depth recordvpn va j)
      → Ensures (entries_loop visit (ptes table) depth recordvpn n i) (LinesFrom table depth va n i)
  unfolding entries_loop
  entries_loop-LinesFrom visit table depth recordvpn va zero i d le g h =
      λ l. ((λ m. absurd m), (λ j is from to g. absurd (omega arith)))
  entries_loop-LinesFrom visit table depth recordvpn va (suc n) i d le g h =
      Ensures-bind (LinesAt ptes table depth va i) (LinesFrom table depth va (suc n) i) _ _
        (visit_entry-LinesAt visit table depth recordvpn va i d (omega arith) g (h i (omega arith)))
        (λ a ca.
          Ensures-bind (LinesFrom table depth va n (suc i)) (LinesFrom table depth va (suc n) i) _ _
            (entries_loop-LinesFrom visit table depth recordvpn va n (suc i) d (omega arith) g h)
            (λ b cb. append-LinesFrom table depth va n i a b ca cb))

  -- The lines of the 512 entries are those of the table.
  all-LinesOf :
      (table depth va : ℕ) (lines : List Line)
      → LinesFrom table depth va 512 0 lines
      → LinesOf ptes table depth va lines
  all-LinesOf table depth va lines c = λ l. (
    (λ m. let (j, is, from, to, g) = (c l).0 m in (j ∷ is, g)),
    (λ is g.
        elim is as (λ is. Leads ptes table depth va is l → In l lines) [
          | [] ↦ λ g. absurd (no_indices ptes g)
          | j ∷ is ↦ λ g. (c l).1 j is (omega arith) g.indices.0 g
        ]
          g),
  )

  vmprintkpgtbl-LinesOf :
      (levels table depth recordvpn va : ℕ)
      → depth + levels ≡ 3
      → Agree depth recordvpn va
      → HasLevels ptes levels table
      → Ensures (vmprintkpgtbl ptes levels table depth recordvpn) (LinesOf ptes table depth va)
  unfolding vmprintkpgtbl
  vmprintkpgtbl-LinesOf zero table depth recordvpn va e g h = absurd h
  vmprintkpgtbl-LinesOf (suc n) table depth recordvpn va e g h =
      Ensures-weaken (LinesFrom table depth va 512 0) (LinesOf ptes table depth va) _
        (entries_loop-LinesFrom (λ pa vpn. vmprintkpgtbl ptes n pa (suc depth) vpn) table depth
          recordvpn va 512 0 (omega arith) (omega arith) g
          (λ j lt v p next.
            vmprintkpgtbl-LinesOf n (pte2pa (ptes table j)) (suc depth)
              (vpn_of depth recordvpn j (pte2pa (ptes table j))) (va + j * 2 ^ px_shift depth)
              (omega arith) next (h j lt v p)))
        (λ lines c. all-LinesOf table depth va lines c)

  -- On a page table of at most three levels `vmprint` ends. After the address of the table, it
  -- prints a line for each valid entry to which some indices lead, and no other line: with as many
  -- `..` as there are indices, the entry, the page it points to, and the address with these
  -- indices, whose bits from 31 on are copies of its bit 31.
  pub vmprint-LinesOf :
      (root : ℕ)
      → HasLevels ptes 3 root
      → Ensures (vmprint ptes root) (λ r. (r.0 ≡ root) × LinesOf ptes root 0 0 r.1)
  unfolding vmprint
  vmprint-LinesOf root h =
      Ensures-bind (LinesOf ptes root 0 0) (λ r. (r.0 ≡ root) × LinesOf ptes root 0 0 r.1) _ _
        (vmprintkpgtbl-LinesOf 3 root 0 0 0 refl
          (record { above = refl; aligned = refl; bounded = omega arith }) h)
        (λ lines c. (refl, c))
