-- ===== src/Superpages/Table/Super.antt =====
-- lab3, vm.c: how `walk` finds what `supermappages` and `superwalk` stored.
use mit.Base.{
  ℕ, suc, ◌/◌, ◌%◌, ◌^◌, ◌<◌, ◌≡◌, ◌≢◌, refl, Bool, true, false, none, some, ◌==◌, leb, add64,
  sub64, ok, arith, ◌∙◌, sym,
}
use mathlib.Core.Path.{subst}
use mit.Cow.Kalloc.{null}
use mit.Superpages.{Kernel, superpage_size, superkalloc}
use mit.Superpages.Table.{
  Flags, Pte, no_flags, Vm, Slot, px, load, store, clear, set_kernel, is_leaf, walk_level, walk,
  superwalk, supermap_loop, supermappages,
}

-- The entry of the table at the level above leads to another table.
pub record Leads (e : Pte) : Type 0 where
  pub valid : e.flags.v ≡ true
  pub no_super : e.flags.s ≡ false
  pub no_leaf : is_leaf e ≡ false

-- The entry of a superpage.
abbrev pub super_entry : ℕ → Flags → Pte
super_entry pa perm = record { pa = pa; flags = record perm { v = true; s = true } }

walk_level-Leads :
    (n : ℕ) (vm : Vm) (t va : ℕ) (alloc : Bool)
    → Leads (vm.ptes t (px (suc n) va))
    → walk_level (suc n) vm t va alloc ≡ walk_level n vm (vm.ptes t (px (suc n) va)).pa va alloc
unfolding walk_level
walk_level-Leads n vm t va alloc h = ground (arith, h.valid, h.no_super, h.no_leaf)

walk_level-super :
    (n : ℕ) (vm : Vm) (t va : ℕ) (alloc : Bool)
    → (vm.ptes t (px (suc n) va)).flags.v ≡ true
    → (vm.ptes t (px (suc n) va)).flags.s ≡ true
    → walk_level (suc n) vm t va alloc ≡ ok (some (record { table = t; index = px (suc n) va }), vm)
unfolding walk_level
walk_level-super n vm t va alloc v s = ground (arith, v, s)

module _ (maxva : ℕ) where
  walk-in_range :
      (vm : Vm) (t va : ℕ) (alloc : Bool)
      → va < maxva
      → walk maxva vm t va alloc ≡ walk_level 2 vm t va alloc
  unfolding walk
  walk-in_range vm t va alloc lt = let e : leb maxva va ≡ false = ground arith in rw e

  superwalk-Leads :
      (vm : Vm) (t va : ℕ) (alloc : Bool)
      → va < maxva
      → (vm.ptes t (px 2 va)).flags.v ≡ true
      → superwalk maxva vm t va alloc
        ≡ ok (some (record { table = (vm.ptes t (px 2 va)).pa; index = px 1 va }), vm)
  unfolding superwalk
  superwalk-Leads vm t va alloc lt v = let e : leb maxva va ≡ false = ground arith in rw (e, v)

  supermap_loop-one :
      (fuel : ℕ) (vm vm1 : Vm) (t a pa : ℕ) (perm : Flags) (p : Slot)
      → superwalk maxva vm t a true ≡ ok (some p, vm1)
      → (load vm1 p).flags.v ≡ false
      → supermap_loop maxva (suc fuel) vm t a a pa perm
        ≡ ok (true, store vm1 p (super_entry pa perm))
  unfolding supermap_loop
  supermap_loop-one fuel vm vm1 t a pa perm p w v =
      let e : (a == a) ≡ true = ground arith in rw (w, v, e)

  supermappages-one :
      (vm vm1 : Vm) (t va pa : ℕ) (perm : Flags) (p : Slot)
      → va % superpage_size ≡ 0
      → va < 2 ^ 63
      → superwalk maxva vm t va true ≡ ok (some p, vm1)
      → (load vm1 p).flags.v ≡ false
      → supermappages maxva vm t va superpage_size pa perm
        ≡ ok (true, store vm1 p (super_entry pa perm))
  unfolding supermappages
  supermappages-one vm vm1 t va pa perm p al lt w v =
      let e : (va % superpage_size == 0) ≡ true = ground (arith, al) in
      let last : sub64 (add64 va superpage_size) superpage_size ≡ va = omega arith in
      rw (e, last) (supermap_loop-one 1 vm vm1 t va pa perm p w v)

  walk-stored :
      (vm : Vm) (t a va : ℕ) (alloc : Bool) (e : Pte)
      → Leads (vm.ptes t (px 2 va))
      → (vm.ptes t (px 2 va)).pa ≢ t
      → e.flags.v ≡ true
      → e.flags.s ≡ true
      → a / superpage_size ≡ va / superpage_size
      → a < maxva
      → (let p : Slot = record { table = (vm.ptes t (px 2 va)).pa; index = px 1 va } in
          walk maxva (store vm p e) t a alloc ≡ ok (some p, store vm p e))
  walk-stored vm t a va alloc e leads apart v s same lt =
      let up = vm.ptes t (px 2 va) in
      let p : Slot = record { table = up.pa; index = px 1 va } in
      let vm' = store vm p e in
      let i2 : px 2 a ≡ px 2 va = omega arith in
      let i1 : px 1 a ≡ px 1 va = omega arith in
      let above : vm'.ptes t (px 2 a) ≡ up = rw i2 (ground arith) in
      let here : vm'.ptes up.pa (px 1 a) ≡ e = rw i1 (ground arith) in
      let down = walk_level-Leads 1 vm' t a alloc (subst Leads (sym above) leads) in
      let stop = walk_level-super 0 vm' up.pa a alloc (rw here v) (rw here s) in
      walk-in_range vm' t a alloc lt ∙ (down ∙ (rw above (rw i1 at stop)))

  -- Where the upper entry of a superpage-aligned address leads to another table, whose entry for the
  -- address is not valid, `supermappages` of one superpage succeeds and changes that entry alone; from
  -- then on `walk` gives this entry, with the page and the flags, for every address of the superpage.
  pub walk-supermappages :
      (vm : Vm) (t va pa a : ℕ) (alloc : Bool) (perm : Flags)
      → maxva < 2 ^ 63
      → va % superpage_size ≡ 0
      → va < maxva
      → Leads (vm.ptes t (px 2 va))
      → (vm.ptes t (px 2 va)).pa ≢ t
      → (vm.ptes (vm.ptes t (px 2 va)).pa (px 1 va)).flags.v ≡ false
      → a / superpage_size ≡ va / superpage_size
      → a < maxva
      → (let p : Slot = record { table = (vm.ptes t (px 2 va)).pa; index = px 1 va } in
          let vm' = store vm p (super_entry pa perm) in
          (supermappages maxva vm t va superpage_size pa perm ≡ ok (true, vm'))
          × (walk maxva vm' t a alloc ≡ ok (some p, vm')))
  walk-supermappages vm t va pa a alloc perm low al lt leads apart free same lt' =
      let p : Slot = record { table = (vm.ptes t (px 2 va)).pa; index = px 1 va } in
      let vm' = store vm p (super_entry pa perm) in
      (
        supermappages-one vm vm t va pa perm p al (omega arith)
            (superwalk-Leads vm t va true lt leads.valid) free,
        walk-stored vm t a va alloc (super_entry pa perm) leads apart refl refl same lt',
      )

  superwalk-new :
      (vm : Vm) (t va page : ℕ) (k : Kernel)
      → va < maxva
      → (vm.ptes t (px 2 va)).flags.v ≡ false
      → superkalloc vm.kernel ≡ (page, k)
      → page ≢ null
      → superwalk maxva vm t va true
        ≡ ok (
          some (record { table = page; index = px 1 va }),
          store
              (clear (set_kernel vm k) page superpage_size)
              (record { table = t; index = px 2 va })
              (record { pa = page; flags = record no_flags { v = true; s = true } }),
        )
  unfolding superwalk
  superwalk-new vm t va page k lt v al nz =
      let near : leb maxva va ≡ false = ground arith in
      let got : (page == null) ≡ false = ground arith in rw (near, v, al, got)

  -- Where `superwalk` has to make the table below an empty upper entry, and superpages are left, it
  -- gives a place in a table that `walk` does not reach: for every address below that entry, `walk`
  -- stops at the upper entry, which is marked as a superpage.
  pub walk-superwalk_new :
      (vm : Vm) (t va a page : ℕ) (k : Kernel) (alloc : Bool)
      → va < maxva
      → (vm.ptes t (px 2 va)).flags.v ≡ false
      → superkalloc vm.kernel ≡ (page, k)
      → page ≢ null
      → a < maxva
      → px 2 a ≡ px 2 va
      → (vm' : Vm) × (superwalk maxva vm t va true
          ≡ ok (some (record { table = page; index = px 1 va }), vm'))
        × (walk maxva vm' t a alloc ≡ ok (some (record { table = t; index = px 2 va }), vm'))
  walk-superwalk_new vm t va a page k alloc lt v al nz lt' same =
      let e : Pte = record { pa = page; flags = record no_flags { v = true; s = true } } in
      let vm' =
        store (clear (set_kernel vm k) page superpage_size) (record { table = t; index = px 2 va })
          e in
      let here : vm'.ptes t (px 2 a) ≡ e = rw same (ground arith) in
      let stop = walk_level-super 1 vm' t a alloc (rw here refl) (rw here refl) in
      (
        vm',
        superwalk-new vm t va page k lt v al nz,
        walk-in_range vm' t a alloc lt' ∙ (rw same at stop),
      )

  -- With an empty upper entry there is nothing for `walk` to find.
  pub walk-unmapped :
      (vm : Vm) (t va : ℕ)
      → va < maxva
      → (vm.ptes t (px 2 va)).flags.v ≡ false
      → walk maxva vm t va false ≡ ok (none, vm)
  unfolding walk_level
  walk-unmapped vm t va lt v = walk-in_range vm t va false lt ∙ (ground (arith, v))
