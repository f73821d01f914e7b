-- ===== src/Vmprint/Walk.antt =====
-- What `vmprint` prints, against the walk of the hardware by the indices of an address.
use mit.Base.{
  ℕ, zero, suc, ◌+◌, ◌*◌, ◌^◌, ◌<◌, ◌≡◌, ◌≢◌, inl, inr, refl, true, false, Option, none, some, List,
  [], ◌∷◌, ◌&&◌, if◌then◌else◌, length, arith, Bool-cases, ap, sym, ◌∙◌, In,
}
use mathlib.Core.Path.{subst}
use mit.Vmprint.{Line, valid, points_below, pte2pa, px_shift, vpn_of}
use mit.Vmprint.Address.{shown, Agree, vpn_of-Agree}

-- The address with these indices, from a depth on.
abbrev pub address : (depth : ℕ) → List ℕ → ℕ
address depth [] = 0
address depth (i ∷ is) = i * 2 ^ px_shift depth + address (suc depth) is

-- The indices are those of a table of 512 entries.
abbrev pub AreIndices : List ℕ → Type 0
AreIndices [] = Unit
AreIndices (i ∷ is) = (i < 512) × AreIndices is

module _ (ptes : ℕ → ℕ → ℕ) where
  -- The valid entry to which the indices lead, through entries that point to tables.
  abbrev pub follow : (table : ℕ) → List ℕ → Option ℕ
  follow table [] = none
  follow table (i ∷ []) = if valid (ptes table i) then some (ptes table i) else none
  follow table (i ∷ j ∷ is) =
      let below = follow (pte2pa (ptes table i)) (j ∷ is) in
      if valid (ptes table i) && points_below (ptes table i) then below else none

  -- A page table with at most this many levels: the entries of the last one point to no table.
  abbrev pub HasLevels : (levels table : ℕ) → Type 0
  HasLevels zero table = ⊥
  HasLevels (suc n) table =
      (i : ℕ)
      → i < 512
      → valid (ptes table i) ≡ true
      → points_below (ptes table i) ≡ true
      → HasLevels n (pte2pa (ptes table i))

  -- The line is that of the entry to which the indices lead from a table, at a depth and below a
  -- part of an address.
  pub record Leads (table depth va : ℕ) (is : List ℕ) (l : Line) : Type 0 where
    pub indices : AreIndices is
    pub entry : follow table is ≡ some l.pte
    pub dots : l.depth + 1 ≡ depth + length is
    pub address_shown : l.vpn ≡ shown (va + address depth is)
    pub page : l.pa ≡ pte2pa l.pte

  -- The lines are those of the entries below a table.
  abbrev pub LinesOf : (table depth va : ℕ) → List Line → Type 0
  LinesOf table depth va lines =
      (l : Line)
      → (In l lines → (is : List ℕ) × Leads table depth va is l)
        × ((is : List ℕ) → Leads table depth va is l → In l lines)

  -- The lines are those of the entry `i` and below it.
  abbrev pub LinesAt : (table depth va i : ℕ) → List Line → Type 0
  LinesAt table depth va i lines =
      (l : Line)
      → (In l lines → (is : List ℕ) × Leads table depth va (i ∷ is) l)
        × ((is : List ℕ) → Leads table depth va (i ∷ is) l → In l lines)

  -- An entry that is not valid.
  follow-invalid :
      (table i : ℕ) (is : List ℕ) → valid (ptes table i) ≡ false → follow table (i ∷ is) ≡ none
  follow-invalid table i [] e = rw e refl
  follow-invalid table i (j ∷ is) e = rw e refl

  follow-leaf :
      (table i j : ℕ) (is : List ℕ)
      → points_below (ptes table i) ≡ false
      → follow table (i ∷ j ∷ is) ≡ none
  follow-leaf table i j is e = elim (Bool-cases (valid (ptes table i))) [
    | inl v ↦ rw (v, e) refl
    | inr v ↦ rw v refl
  ]

  clash : {n : ℕ} {o : Option ℕ} → o ≡ none → o ≢ some n
  clash e f = absurd (ground (arith, e, f))

  -- The line that the code prints for an entry.
  abbrev pub line_of : (depth recordvpn i pte : ℕ) → Line
  line_of depth recordvpn i pte = record {
    depth = depth;
    vpn = vpn_of depth recordvpn i (pte2pa pte);
    pte = pte;
    pa = pte2pa pte;
  }

  -- The code's line for an entry is the one that its index leads to.
  pub line_of-Leads :
      (table depth recordvpn va i : ℕ)
      → depth < 3
      → i < 512
      → Agree depth recordvpn va
      → valid (ptes table i) ≡ true
      → Leads table depth va (i ∷ []) (line_of depth recordvpn i (ptes table i))
  line_of-Leads table depth recordvpn va i d lt g v = record {
    indices = (lt, tt);
    entry = rw v refl;
    dots = omega arith;
    address_shown =
        (vpn_of-Agree depth recordvpn va i (ptes table i) d lt g).above ∙ ap shown (omega arith);
    page = refl;
  }

  -- There is one line for each list of indices.
  Leads-unique :
      {table depth va : ℕ} {is : List ℕ} {l m : Line}
      → Leads table depth va is l
      → Leads table depth va is m
      → l ≡ m
  Leads-unique {l = l} {m = m} a b =
      let both : some l.pte ≡ some m.pte = sym a.entry ∙ b.entry in
      let pte : l.pte ≡ m.pte = cc in
      let depth : l.depth ≡ m.depth = omega (arith, a.dots, b.dots) in
      let vpn : l.vpn ≡ m.vpn = a.address_shown ∙ sym b.address_shown in
      let pa : l.pa ≡ m.pa = a.page ∙ (ap pte2pa pte ∙ sym b.page) in
      λ k. record { depth = depth k; vpn = vpn k; pte = pte k; pa = pa k }

  -- The indices below an entry that points to a table.
  Leads-below :
      {table depth va i j : ℕ} {is : List ℕ} {l : Line}
      → i < 512
      → valid (ptes table i) ≡ true
      → points_below (ptes table i) ≡ true
      → Leads (pte2pa (ptes table i)) (suc depth) (va + i * 2 ^ px_shift depth) (j ∷ is) l
      → Leads table depth va (i ∷ j ∷ is) l
  Leads-below lt v p h = record {
    indices = (lt, h.indices);
    entry = rw (v, p) h.entry;
    dots = omega (arith, h.dots);
    address_shown = h.address_shown ∙ ap shown (omega arith);
    page = h.page;
  }

  Leads-above :
      {table depth va i j : ℕ} {is : List ℕ} {l : Line}
      → valid (ptes table i) ≡ true
      → points_below (ptes table i) ≡ true
      → Leads table depth va (i ∷ j ∷ is) l
      → Leads (pte2pa (ptes table i)) (suc depth) (va + i * 2 ^ px_shift depth) (j ∷ is) l
  Leads-above v p h = record {
    indices = h.indices.1;
    entry = sym (rw (v, p) refl) ∙ h.entry;
    dots = omega (arith, h.dots);
    address_shown = h.address_shown ∙ ap shown (omega arith);
    page = h.page;
  }

  pub no_indices : {table depth va : ℕ} {l : Line} → ¬ Leads table depth va [] l
  no_indices {table} h = clash {o = none} refl h.entry

  pub invalid-LinesAt :
      (table depth va i : ℕ) → valid (ptes table i) ≡ false → LinesAt table depth va i []
  invalid-LinesAt table depth va i v =
      λ l. ((λ h. absurd h), (λ is h. absurd (clash (follow-invalid table i is v) h.entry)))

  pub leaf-LinesAt :
      (table depth va i : ℕ) (line : Line)
      → points_below (ptes table i) ≡ false
      → Leads table depth va (i ∷ []) line
      → LinesAt table depth va i (line ∷ [])
  leaf-LinesAt table depth va i line p h = λ l. (
    (λ m. elim m [
      | inl e ↦ ([], subst (Leads table depth va (i ∷ [])) e h)
      | inr none_more ↦ absurd none_more
    ]),
    (λ is g.
        elim is as (λ is. Leads table depth va (i ∷ is) l → In l (line ∷ [])) [
          | [] ↦ λ g. inl (Leads-unique h g)
          | j ∷ is ↦ λ g. absurd (clash (follow-leaf table i j is p) g.entry)
        ]
          g),
  )

  pub table-LinesAt :
      (table depth va i : ℕ) (line : Line) (lines : List Line)
      → i < 512
      → valid (ptes table i) ≡ true
      → points_below (ptes table i) ≡ true
      → Leads table depth va (i ∷ []) line
      → LinesOf (pte2pa (ptes table i)) (suc depth) (va + i * 2 ^ px_shift depth) lines
      → LinesAt table depth va i (line ∷ lines)
  table-LinesAt table depth va i line lines lt v p h c = λ l. (
    (λ m. elim m [
      | inl e ↦ ([], subst (Leads table depth va (i ∷ [])) e h)
      | inr later ↦ let (is, g) = (c l).0 later in below is g
    ]),
    (λ is g.
        elim is as (λ is. Leads table depth va (i ∷ is) l → In l (line ∷ lines)) [
          | [] ↦ λ g. inl (Leads-unique h g)
          | j ∷ is ↦ λ g. inr ((c l).1 (j ∷ is) (Leads-above v p g))
        ]
          g),
  )
    where
      below :
          {l : Line} (is : List ℕ)
          → Leads (pte2pa (ptes table i)) (suc depth) (va + i * 2 ^ px_shift depth) is l
          → (is' : List ℕ) × Leads table depth va (i ∷ is') l
      below [] g = absurd (no_indices g)
      below (j ∷ is) g = (j ∷ is, Leads-below lt v p g)
