-- ===== src/Attack/Exec/Segments.antt =====
-- lab2, exec.c: the ways out of `exec`, and the loop over the segments of a program.
use mit.Base.{
  ℕ, zero, suc, ◌+◌, ◌%◌, ◌^◌, ◌<◌, ◌≡◌, refl, Bool, true, false, Option, none, some, ◌==◌, ltb,
  arith, add64, Run, ok, Ends, Ensures, Ensures-bind, Ensures-weaken, Bool-cases, Option-cases, inl,
  inr,
}
use native.Mathlib.Decide.{dec_lt}
use mit.Cow.Kalloc.{Layout, page_size}
use mit.Attack.{Kernel}
use mit.Attack.Grow.{Paging, uvmalloc}
use mit.Attack.Grow.Ends as Grown
use mit.Attack.Grow.Ends.{uvmalloc-Result, uvmalloc-less}
use mit.Attack.Exec.{
  Xv6, Proghdr, Process, elf_prog_load, proghdr_size, Result, bad, load_segment, load_segments,
}

-- The functions that give memory back end, the stack has fewer than `2 ^ 20` pages, and no segment of a program reaches to `2 ^ 62`.
pub record Bounds (m : Paging) (x : Xv6 m) : Type 0 where
  pub dealloc : (t : m.Tables) (k : Kernel) (a b : ℕ) → Ends (m.uvmdealloc t k a b)
  pub free : (t : m.Tables) (sz : ℕ) (k : Kernel) → Ends (x.proc_freepagetable t sz k)
  pub stack : x.user_stack < 2 ^ 20
  pub small :
      (ip : x.Inode) (off : ℕ) (f : x.Files) (ph : Proghdr)
      → x.read_proghdr ip off f ≡ some ph
      → ph.vaddr + ph.memsz < 2 ^ 62

module _ (l : Layout) (m : Paging) (x : Xv6 m) (b : Bounds m x) where
  open m use {Tables}
  open x use {Files, Inode}

  -- What `bad` does to the files.
  abbrev pub left : Option Inode → Files → Files
  left none f = f
  left (some i) f = x.end_op (x.iunlockput i f)

  -- `exec` returns -1 with the process as it was.
  abbrev pub Failed : Process Tables → Files → Result l m x → Type 0
  Failed p f r = (r.0 ≡ none) × (r.1 ≡ p) × (r.2 ≡ f)

  pub bad-Failed :
      (t : Option Tables) (sz : ℕ) (ip : Option Inode) (p : Process Tables) (f : Files) (k : Kernel)
      → Ensures (bad l m x t sz ip p f k) (Failed p (left ip f))
  unfolding bad
  bad-Failed none sz none p f k = (refl, refl, refl)
  bad-Failed none sz (some i) p f k = (refl, refl, refl)
  bad-Failed (some t) sz none p f k =
      Ensures-bind (λ k1. Unit) (Failed p f) (x.proc_freepagetable t sz k) _ (b.free t sz k)
        (λ k1 _. (refl, refl, refl))
  bad-Failed (some t) sz (some i) p f k =
      Ensures-bind (λ k1. Unit) (Failed p (left (some i) f)) (x.proc_freepagetable t sz k) _
        (b.free t sz k) (λ k1 _. (refl, refl, refl))

  pub uvmalloc-small :
      (t : Tables) (k : Kernel) (oldsz newsz xperm : ℕ)
      → oldsz < 2 ^ 62
      → newsz < 2 ^ 62
      → Ensures (uvmalloc l m t k oldsz newsz xperm) (λ r. r.0 < 2 ^ 62)
  uvmalloc-small t k oldsz newsz xperm lo ln = elim (dec_lt newsz oldsz) [
    | yes less ↦ rw (uvmalloc-less l m b.dealloc t k oldsz newsz xperm less) lo
    | no more ↦
        Ensures-weaken (Grown.Result l m b.dealloc newsz) (λ r. r.0 < 2 ^ 62) _
          (uvmalloc-Result l m b.dealloc t k oldsz newsz xperm (omega arith) (omega arith))
          (λ r h. elim h [ inl z ↦ omega (arith, z) | inr e ↦ omega (arith, e) ])
  ]

  load_segment-small :
      (ip : Inode) (f : Files) (ph : Proghdr) (sz : ℕ) (t : Tables) (k : Kernel)
      → ph.vaddr + ph.memsz < 2 ^ 62
      → sz < 2 ^ 62
      → Ensures (load_segment l m x ip f ph sz t k) (λ r. r.1 < 2 ^ 62)
  unfolding load_segment
  load_segment-small ip f ph sz t k small lt =
      let top : add64 ph.vaddr ph.memsz ≡ ph.vaddr + ph.memsz = omega (arith, small) in
      elim (Bool-cases (ph.kind == elf_prog_load)) [
        | inr other ↦ rw other lt
        | inl load ↦ elim (Bool-cases (ltb ph.memsz ph.filesz)) [
          | inl refused ↦ rw (load, refused) lt
          | inr fits ↦ elim (Bool-cases (ltb (add64 ph.vaddr ph.memsz) ph.vaddr)) [
            | inl refused ↦ rw (load, fits, refused) lt
            | inr no_wrap ↦ elim (Bool-cases (ph.vaddr % page_size == 0)) [
              | inr refused ↦ rw (load, fits, no_wrap, refused) lt
              | inl whole ↦
                  rw (load, fits, no_wrap, whole)
                    (Ensures-bind (λ r. r.0 < 2 ^ 62) (λ r. r.1 < 2 ^ 62)
                      (uvmalloc l m t k sz (add64 ph.vaddr ph.memsz) (x.flags2perm ph.flags)) _
                      (uvmalloc-small t k sz (add64 ph.vaddr ph.memsz) (x.flags2perm ph.flags) lt
                        (omega (arith, top, small)))
                      (λ r h. elim (Bool-cases (r.0 == 0)) [ inl z ↦ rw z lt | inr nz ↦ rw nz h ]))
            ]
          ]
        ]
      ]

  pub load_segments-small :
      (n off : ℕ) (ip : Inode) (f : Files) (sz : ℕ) (t : Tables) (k : Kernel)
      → sz < 2 ^ 62
      → Ensures (load_segments l m x n off ip f sz t k) (λ r. r.1 < 2 ^ 62)
  unfolding load_segments
  load_segments-small zero off ip f sz t k lt = lt
  load_segments-small (suc n) off ip f sz t k lt = elim (Option-cases (x.read_proghdr ip off f)) [
    | inl short ↦ rw (short, Ensures) lt
    | inr (ph, e) ↦
        rw (e, Ensures)
          (Ensures-bind (λ r. r.1 < 2 ^ 62) (λ r. r.1 < 2 ^ 62) (load_segment l m x ip f ph sz t k)
            _ (load_segment-small ip f ph sz t k (b.small ip off f ph e) lt)
            (λ r h.
              go_on (λ r. load_segments l m x n ((off + proghdr_size) % 2 ^ 32) ip f r.1 r.2 r.3) r
                h (load_segments-small n ((off + proghdr_size) % 2 ^ 32) ip f r.1 r.2 r.3 h)))
  ]
    where
      go_on :
          (after : Bool × ℕ × Tables × Kernel → Run (Bool × ℕ × Tables × Kernel))
          (r : Bool × ℕ × Tables × Kernel)
          → r.1 < 2 ^ 62
          → Ensures (after r) (λ r. r.1 < 2 ^ 62)
          → Ensures (elim (r.0) [ false ↦ ok r | true ↦ after r ]) (λ r. r.1 < 2 ^ 62)
      go_on after (false, sz, t, k) h g = h
      go_on after (true, sz, t, k) h g = g
