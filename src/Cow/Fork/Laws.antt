-- ===== src/Cow/Fork/Laws.antt =====
-- lab6, vm.c: what `uvmcopy` does to both tables and to the counts.
use mit.Base.{
  ℕ, zero, suc, ◌+◌, ◌-◌, ◌/◌, ◌^◌, ◌≤◌, ◌<◌, ◌≡◌, refl, true, false, Option, none, some, ◌==◌,
  if◌then◌else◌, arith, ok, ◌∙◌, inl, inr, ◌⊎◌, ap, Bool-cases, update,
}
use mathlib.Core.Option
use native.Mathlib.Decide.{dec_lt}
use mit.Cow.Kalloc.{Layout, Kernel, page_size, round_down, refcadd}
use mit.Cow.Kalloc.Inv.{IsLayout, Inv}
use mit.Cow.Paging.{Pte, Paging, page, mapped, refers, uses, Present, Laws, Grown}
use mit.Cow.Paging.Uses.{walk_of_valid, uses-congr, uses-unreferenced}
use mit.Cow.Fork.{share, Copied, copy_loop, undo, uvmcopy}
use mit.Cow.Fork.Step.{loop-next, loop-undo, loop-end}
use mit.Cow.Fork.Round.{Copying, Copying-start, Copying-next, stored-keep}

refers-share :
    (g : Paging) (o : Option Pte) (p : ℕ) → refers g (Option.map share o) p ≡ refers g o p
refers-share g none p = refl
refers-share g (some e) p = refl

map-some : {o : Option Pte} {e : Pte} → o ≡ some e → Option.map share o ≡ some (share e)
map-some h = rw h

module _ (g : Paging) (l : Layout) (ly : IsLayout l) (laws : Laws g l) (old0 : Paging.Table g)
    (k0 : Kernel) (refs0 : ℕ → ℕ) (n : ℕ) where
  open g use {Table, walk, store, mappages, uvmunmap}

  -- Both tables map each page, without PTE_W and with PTE_COW, to the page that the parent had; and
  -- each page counts its old references and the child's.
  pub record Success (r : Copied g) : Type 0 where
    pub success : r.success ≡ true
    pub refs' : ℕ → ℕ
    pub inv : Inv l r.kernel refs'
    pub old_shared :
        (m : ℕ) → m < n → mapped g r.old (page m) ≡ Option.map share (mapped g old0 (page m))
    pub new_shared :
        (m : ℕ) → m < n → mapped g r.new (page m) ≡ Option.map share (mapped g old0 (page m))
    pub counted : (p : ℕ) → 0 < refs0 p → refs' p ≡ refs0 p + uses g old0 n p
    pub kept : (a : ℕ) → 0 < refs0 (round_down a) → r.kernel.bytes a ≡ k0.bytes a

  -- The child maps nothing, the counts are those of before, and the parent still maps its pages,
  -- some of them marked as shared.
  pub record Failure (r : Copied g) : Type 0 where
    pub success : r.success ≡ false
    pub refs' : ℕ → ℕ
    pub inv : Inv l r.kernel refs'
    pub old_kept :
        (m : ℕ)
        → m < n
        → (mapped g r.old (page m) ≡ mapped g old0 (page m))
          ⊎ (mapped g r.old (page m) ≡ Option.map share (mapped g old0 (page m)))
    pub new_clear : (m : ℕ) → m < n → mapped g r.new (page m) ≡ none
    pub counted : (p : ℕ) → 0 < refs0 p → refs' p ≡ refs0 p
    pub kept : (a : ℕ) → 0 < refs0 (round_down a) → r.kernel.bytes a ≡ k0.bytes a

  undo-Failure :
      (j : ℕ) (old old' new new' : Table) (k k1 : Kernel) (refs : ℕ → ℕ)
      → Copying g l ly laws old0 k0 refs0 n j old new k refs
      → (gr : Grown l k refs k1) → Present g l refs0 old0 n
      → j ≤ n
      → ((m : ℕ) → mapped g new' (page m) ≡ mapped g new (page m))
      → ((m : ℕ)
          → (mapped g old' (page m) ≡ mapped g old0 (page m))
            ⊎ (mapped g old' (page m) ≡ Option.map share (mapped g old0 (page m))))
      → (r : Copied g) × (undo g (page j) old' new' k1 ≡ ok r) × Failure r
  unfolding undo
  undo-Failure j old old' new new' k k1 refs c gr present le same keep =
      let (t, k2, run, inv, bytes, clear) =
        laws.uvmunmap_lem new' j k1 gr.refs' gr.inv here enough in
      let jj : page j / page_size ≡ j = omega arith in
      (
        record { success = false; old = old'; new = t; kernel = k2 },
        rw (jj, run),
        record {
          success = refl;
          refs' = λ p. gr.refs' p - uses g new' j p;
          inv = inv;
          old_kept = λ m lt. keep m;
          new_clear = λ m lt. ground (arith, clear (page m), same m, c.empty m);
          counted = λ p h. omega (arith, used p, now p h);
          kept = λ a h.
              bytes a (omega (arith, used (round_down a), now (round_down a) h))
              ∙ (gr.kept a (omega (arith, c.counted (round_down a) h)) ∙ c.kept a h);
        },
      )
    where
      used : (p : ℕ) → uses g new' j p ≡ uses g old0 j p
      used p = uses-congr g new' old0 j p λ m lt.
          ap (λ o. refers g o p) (same m ∙ c.new_shared m lt)
          ∙ refers-share g (mapped g old0 (page m)) p

      now : (p : ℕ) → 0 < refs0 p → gr.refs' p ≡ refs0 p + uses g old0 j p
      now p h = ground (arith, gr.held p, c.counted p h)

      here : Present g l gr.refs' new' j
      here m lt =
          let (e, m0, pg, pos) = present m (omega arith) in
          (share e, same m ∙ (c.new_shared m lt ∙ map-some m0), pg, omega (arith, now e.pa pos))

      enough : (p : ℕ) → uses g new' j p ≤ gr.refs' p
      enough p = elim (dec_lt 0 (refs0 p)) [
        | yes h ↦ omega (arith, used p, now p h)
        | no h ↦
            omega (arith, used p, uses-unreferenced g l refs0 old0 n j p present (omega arith) le)
      ]

  -- The number of pages in `sz` bytes.
  abbrev pub Pages : ℕ → Type 0
  Pages sz = (sz ≤ page n) × (page n < sz + page_size)

  -- The round in which `mappages` fails.
  failed_round :
      (fuel sz j : ℕ) (old new new' : Table) (k k1 : Kernel) (refs : ℕ → ℕ) (e : Pte)
      → Copying g l ly laws old0 k0 refs0 n j old new k refs
      → (gr : Grown l k refs k1) → Present g l refs0 old0 n
      → j ≤ n
      → page j < sz
      → mapped g old0 (page j) ≡ some e
      → mappages new (page j) e.pa (share e).flags k ≡ ok (false, new', k1)
      → ((m : ℕ) → mapped g new' (page m) ≡ mapped g new (page m))
      → (r : Copied g) × (copy_loop g (suc fuel) sz (page j) old new k ≡ ok r) × Failure r
  failed_round fuel sz j old new new' k k1 refs e c gr present le more m0 run same =
      let old' : Table = store old (page j) (share e) in
      let (r, rest, out) =
        undo-Failure j old old' new new' k k1 refs c gr present le same
          (stored-keep g l ly laws old0 k0 refs0 n j old new k refs e c m0) in
      (
        r,
        loop-undo g fuel sz j old new new' k k1 e (c.todo j (omega arith) ∙ m0) more run ∙ rest,
        out,
      )

  loop_lem :
      (fuel sz j : ℕ) (old new : Table) (k : Kernel) (refs : ℕ → ℕ)
      → Pages sz
      → sz ≤ g.maxva
      → n < j + fuel
      → j ≤ n
      → Present g l refs0 old0 n
      → ((p : ℕ) → refs0 p + uses g old0 n p < 2 ^ 31)
      → Copying g l ly laws old0 k0 refs0 n j old new k refs
      → (r : Copied g) × (copy_loop g fuel sz (page j) old new k ≡ ok r) × (Success r ⊎ Failure r)
  loop_lem zero sz j old new k refs s va en le present room c = absurd (omega arith)
  loop_lem (suc fuel) sz j old new k refs s va en le present room c = elim (dec_lt j n) [
    | no end ↦
        let top : j ≡ n = omega arith in
        (
          record { success = true; old = old; new = new; kernel = k },
          loop-end g fuel sz j old new k (omega arith),
          inl (record {
            success = refl;
            refs' = refs;
            inv = c.inv;
            old_shared = λ m lt. c.old_shared m (omega arith);
            new_shared = λ m lt. c.new_shared m (omega arith);
            counted = λ p h. rw (← top) (c.counted p h);
            kept = c.kept;
          }),
        )
    | yes lt ↦
        let (e, m0, pg, pos) = present j lt in
        let old_e : mapped g old (page j) ≡ some e = c.todo j (omega arith) ∙ m0 in
        let (w, v) = walk_of_valid (walk old (page j)) e old_e in
        let old' : Table = store old (page j) (share e) in
        let (b, new', k1, run, gr, mp) =
          laws.mappages_lem new (page j) e.pa (share e).flags k refs c.inv (omega arith)
            (omega arith) (c.empty j (omega arith) lt) in
        elim (Bool-cases b) [
          | inl yes_b ↦
              let mapped_one : (m : ℕ)
                  → mapped g new' (page m)
                    ≡ (if j == m then some (share e) else mapped g new (page m)) =
                λ m. ground (arith, mp (page m), yes_b, v) in
              let (r, rest, out) =
                loop_lem fuel sz (suc j) old' new' (refcadd e.pa k1)
                  (update gr.refs' e.pa (gr.refs' e.pa + 1)) s va (omega arith) lt present room
                  (Copying-next g l ly laws old0 k0 refs0 n j old new new' k k1 refs e c gr lt m0 pg
                    pos room mapped_one) in
              (
                r,
                loop-next g fuel sz j old new new' k k1 e old_e (omega arith)
                      (omega (arith, laws.low)) (run ∙ ap (λ x. ok (x, new', k1)) yes_b)
                    ∙ rest,
                out,
              )
          | inr no_b ↦
              let (r, rest, out) =
                failed_round fuel sz j old new new' k k1 refs e c gr present le (omega arith) m0
                  (run ∙ ap (λ x. ok (x, new', k1)) no_b)
                  (λ m. ground (arith, mp (page m), no_b)) in
              (r, rest, inr out)
        ]
  ]

  -- `uvmcopy` of a parent's `n` mapped pages into an empty table does not panic, and its loop ends.
  -- If it returns 0, both tables map each page to the parent's page, read-only and marked
  -- copy-on-write, and each page counts one more reference for each entry of the child. If it
  -- returns -1, the child maps nothing and every count is the old one. Neither changes the bytes of
  -- a referenced page. Assumed: the counts do not overflow, and the laws of the page table code.
  pub uvmcopy_lem :
      (sz : ℕ) (new : Table)
      → Pages sz
      → sz ≤ g.maxva
      → Inv l k0 refs0
      → Present g l refs0 old0 n
      → ((m : ℕ) → m < n → mapped g new (page m) ≡ none)
      → ((p : ℕ) → refs0 p + uses g old0 n p < 2 ^ 31)
      → (r : Copied g) × (uvmcopy g old0 new sz k0 ≡ ok r) × (Success r ⊎ Failure r)
  unfolding uvmcopy
  uvmcopy_lem sz new s va inv present clear room =
      loop_lem (suc (sz / page_size + 1)) sz 0 old0 new k0 refs0 s va (omega arith) (omega arith)
        present room (Copying-start g l ly laws old0 k0 refs0 n new inv clear)
