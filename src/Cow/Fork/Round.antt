-- ===== src/Cow/Fork/Round.antt =====
-- lab6, vm.c: the state of `uvmcopy` after `j` of its pages.
use mit.Base.{
  ℕ, suc, ◌+◌, ◌^◌, ◌≤◌, ◌<◌, ◌≡◌, refl, none, some, ◌==◌, if◌then◌else◌, arith, update, ◌∙◌, inl,
  inr, ◌⊎◌, ap,
}
use mathlib.Core.Option
use native.Mathlib.Decide.{dec_lt}
use mit.Cow.Kalloc.{Layout, Kernel, round_down, refcadd}
use mit.Cow.Kalloc.Inv.{IsLayout, IsPage, Inv}
use mit.Cow.Kalloc.Free.{refcadd_lem, bytes-refcadd}
use mit.Cow.Paging.{Pte, Paging, page, mapped, refers, uses, Laws, Grown}
use mit.Cow.Paging.Uses.{walk_of_valid, mapped-store, uses-zero, uses-suc, uses_mono}
use mit.Cow.Fork.{share}

module _ (g : Paging) (l : Layout) (ly : IsLayout l) (laws : Laws g l) (old0 : Paging.Table g)
    (k0 : Kernel) (refs0 : ℕ → ℕ) (n : ℕ) where
  open g use {Table, walk, store, mappages}

  -- The parent's table after `j` of its `n` pages were shared, and the child's.
  pub record Copying (j : ℕ) (old new : Table) (k : Kernel) (refs : ℕ → ℕ) : Type 0 where
    pub inv : Inv l k refs
    pub todo : (m : ℕ) → j ≤ m → mapped g old (page m) ≡ mapped g old0 (page m)
    pub empty : (m : ℕ) → j ≤ m → m < n → mapped g new (page m) ≡ none
    pub old_shared :
        (m : ℕ) → m < j → mapped g old (page m) ≡ Option.map share (mapped g old0 (page m))
    pub new_shared :
        (m : ℕ) → m < j → mapped g new (page m) ≡ Option.map share (mapped g old0 (page m))
    pub counted : (p : ℕ) → 0 < refs0 p → refs p ≡ refs0 p + uses g old0 j p
    pub kept : (a : ℕ) → 0 < refs0 (round_down a) → k.bytes a ≡ k0.bytes a

  pub Copying-start :
      (new : Table)
      → Inv l k0 refs0
      → ((m : ℕ) → m < n → mapped g new (page m) ≡ none)
      → Copying 0 old0 new k0 refs0
  Copying-start new inv clear = record {
    inv = inv;
    todo = λ m h. refl;
    empty = λ m h lt. clear m lt;
    old_shared = λ m h. absurd (omega arith);
    new_shared = λ m h. absurd (omega arith);
    counted = λ p h. omega (arith, uses-zero g old0 p);
    kept = λ a h. refl;
  }

  -- The parent's table after the write to its entry for page `j`.
  pub stored-page :
      (j : ℕ) (old new : Table) (k : Kernel) (refs : ℕ → ℕ) (e : Pte)
      → Copying j old new k refs
      → mapped g old0 (page j) ≡ some e
      → (m : ℕ)
      → mapped g (store old (page j) (share e)) (page m)
        ≡ (if j == m then some (share e) else mapped g old (page m))
  stored-page j old new k refs e c m0 m =
      let (w, v) = walk_of_valid (walk old (page j)) e (c.todo j (omega arith) ∙ m0) in
      ground (arith, mapped-store g l laws old (page j) (page m) e (share e) w, v)

  -- Each entry of the parent is still the old one, or was shared.
  pub stored-keep :
      (j : ℕ) (old new : Table) (k : Kernel) (refs : ℕ → ℕ) (e : Pte)
      → Copying j old new k refs
      → mapped g old0 (page j) ≡ some e
      → (m : ℕ)
      → (mapped g (store old (page j) (share e)) (page m) ≡ mapped g old0 (page m))
        ⊎ (mapped g (store old (page j) (share e)) (page m)
            ≡ Option.map share (mapped g old0 (page m)))
  stored-keep j old new k refs e c m0 m = elim (dec_lt j m) [
    | yes later ↦ inl (ground (arith, stored-page j old new k refs e c m0 m, c.todo m))
    | no before ↦ inr (ground (arith, stored-page j old new k refs e c m0 m, c.old_shared m, m0))
  ]

  -- One page more, where `mappages` gave `new'` and `k1`.
  pub Copying-next :
      (j : ℕ) (old new new' : Table) (k k1 : Kernel) (refs : ℕ → ℕ) (e : Pte)
      → Copying j old new k refs
      → (gr : Grown l k refs k1) → j < n
      → mapped g old0 (page j) ≡ some e
      → IsPage l e.pa
      → 0 < refs0 e.pa
      → ((p : ℕ) → refs0 p + uses g old0 n p < 2 ^ 31)
      → ((m : ℕ)
          → mapped g new' (page m) ≡ (if j == m then some (share e) else mapped g new (page m)))
      → Copying
          (suc j)
          (store old (page j) (share e))
          new'
          (refcadd e.pa k1)
          (update gr.refs' e.pa (gr.refs' e.pa + 1))
  Copying-next j old new new' k k1 refs e c gr lt m0 pg pos room mp = record {
    inv =
        refcadd_lem l ly e.pa k1 gr.refs' gr.inv pg (omega (arith, same))
          (omega (arith, same, step e.pa, room e.pa, uses_mono g old0 (suc j) n e.pa lt, one));
    todo = λ m h. ground (arith, stored-page j old new k refs e c m0 m, c.todo m);
    empty = λ m h mn. ground (arith, mp m, c.empty m);
    old_shared = λ m h. ground (arith, stored-page j old new k refs e c m0 m, c.old_shared m, m0);
    new_shared = λ m h. ground (arith, mp m, c.new_shared m, m0);
    counted =
        λ p h. ground (arith, same, step p, c.counted p h, gr.held p, ap (λ o. refers g o p) m0);
    kept = λ a h. ground (
      arith,
      ap (λ (b : ℕ → ℕ). b a) (bytes-refcadd e.pa k1),
      gr.kept a,
      c.kept a h,
      c.counted (round_down a) h,
    );
  }
    where
      same : gr.refs' e.pa ≡ refs0 e.pa + uses g old0 j e.pa
      same = ground (arith, gr.held e.pa, c.counted e.pa pos)

      one : refers g (mapped g old0 (page j)) e.pa ≡ 1
      one = rw m0 (ground arith)

      step : (p : ℕ) → uses g old0 (suc j) p ≡ uses g old0 j p + refers g (mapped g old0 (page j)) p
      step p = uses-suc g old0 j p
