-- ===== src/Trace/Calls.antt =====
-- What is printed of a row of system calls.
use Prim.Native.String.{String}
use native.Mathlib.Nat.{div-div-eq-div-mul, pow-suc}
use mit.Trace.Table.{sys_numbers, call_of, names-call_of}
use mit.Base.{
  zero, suc, Bool, ◌/◌, ◌*◌, ℕ, ◌-◌, ◌%◌, ◌^◌, ◌<◌, ◌≡◌, refl, true, false, Option, some, List, [],
  ◌∷◌, ◌++◌, map, ◌==◌, if◌then◌else◌, arith, is_neg32, is_pos32, get_elem?, Bool-cases, inl, inr,
  ap, ◌∙◌, sym, ◌&&◌, ltb,
}
use mathlib.Core.List.{map-append, append_assoc, append-nil}
use mit.Trace.{
  Proc, Line, traced, unknown, State, names, entries, bit, set_proc, print, sys_trace, syscall,
}

-- A line without its result.
abbrev pub head_of : Line → ℕ × Option String
head_of (traced pid name r) = (pid, name)
head_of (unknown pid name num) = (pid, some name)

-- The calls of the row whose bit is set in the mask.
unfoldable pub selected : (pid mask : ℕ) → List ℕ → List (ℕ × Option String)
selected pid mask [] = []
selected pid mask (num ∷ nums) =
    let rest = selected pid mask nums in
    if bit mask num then (pid, get_elem? names (num - 1)) ∷ rest else rest

-- The numbers that the program may call: those of the table, but `trace` itself.
abbrev pub Known : List ℕ → Type 0
Known [] = Unit
Known (num ∷ nums) = (0 < num) × (num < 22) × Known nums

-- Whether the mask has its bit for the number: the lowest bit stands for 0.
abbrev pub asks : (mask num : ℕ) → Bool
asks mask zero = mask % 2 == 1
asks mask (suc n) = asks (mask / 2) n

-- The reports that a mask asks for: of the calls of the row whose bit is set, each with the name that
-- syscall.h gives to the number.
unfoldable pub reported : (pid mask : ℕ) → List ℕ → List (ℕ × Option String)
reported pid mask [] = []
reported pid mask (num ∷ nums) =
    let rest = reported pid mask nums in
    if asks mask num then (pid, call_of num sys_numbers) ∷ rest else rest

bit-asks : (mask num : ℕ) → bit mask num ≡ asks mask num
bit-asks mask zero = let e : mask / 1 ≡ mask = omega arith in ap (λ (q : ℕ). q % 2 == 1) e
bit-asks mask (suc n) =
    let pow : 2 ^ suc n ≡ 2 * 2 ^ n = omega (arith, pow-suc 2 n) in
    let e : mask / 2 ^ suc n ≡ mask / 2 / 2 ^ n =
      ap (λ (k : ℕ). mask / k) pow ∙ sym (div-div-eq-div-mul mask 2 (2 ^ n)) in
    ap (λ (q : ℕ). q % 2 == 1) e ∙ bit-asks (mask / 2) n

selected-reported :
    (pid mask : ℕ) (nums : List ℕ) → Known nums → selected pid mask nums ≡ reported pid mask nums
unfolding selected reported
selected-reported pid mask [] known = refl
selected-reported pid mask (num ∷ nums) known =
    rw
      (
        bit-asks mask num,
        names-call_of num known.0 (omega arith),
        selected-reported pid mask nums known.2,
      )
      refl

selected-cons :
    (num : ℕ) (nums : List ℕ) (old new : List (ℕ × Option String)) {pid pid' mask mask' : ℕ}
    → pid' ≡ pid
    → mask' ≡ mask
    → new ≡ old ++ (if bit mask num then (pid, get_elem? names (num - 1)) ∷ [] else [])
    → new ++ selected pid' mask' nums ≡ old ++ selected pid mask (num ∷ nums)
unfolding selected
selected-cons num nums old new {pid} {mask = mask} p m e = elim (Bool-cases (bit mask num)) [
  | inl on ↦ rw (e, p, m, on) (append_assoc old _ _)
  | inr off ↦ rw (e, p, m, off) (ap (λ l. l ++ selected pid mask nums) (append-nil old))
]

-- The other system calls keep the process's number and mask, and print no line of `syscall`'s.
abbrev pub Keeps : (ℕ → State → ℕ × State) → Type 0
Keeps other =
    (num : ℕ) (s : State)
    → ((other num s).1.proc.pid ≡ s.proc.pid)
      × ((other num s).1.proc.traceid ≡ s.proc.traceid)
      × ((other num s).1.log ≡ s.log)

module _ (argint : Proc → ℕ) (other : ℕ → State → ℕ × State) where
  -- The process makes the calls one after the other.
  abbrev pub calls : List ℕ → State → State
  calls [] s = s
  calls (num ∷ nums) s = calls nums (syscall argint other (set_proc s (record s.proc { a7 = num })))

  -- The part of `syscall` after the call of the function.
  abbrev report : ℕ → ℕ × State → State
  report num (r, s1) =
      let s2 = set_proc s1 (record s1.proc { a0 = r }) in
      if bit s2.proc.traceid num
      then print s2 (traced s2.proc.pid (get_elem? names (num - 1)) s2.proc.a0)
      else s2

  syscall-report :
      (num : ℕ) (s : State)
      → s.proc.a7 ≡ num
      → 0 < num
      → num < 22
      → syscall argint other s ≡ report num (other num s)
  unfolding syscall
  syscall-report num s e pos lt =
      let w : s.proc.a7 % 2 ^ 32 ≡ num = omega arith in
      let known : (is_pos32 num && ltb num entries) ≡ true = ground arith in
      let usual : (num == 22) ≡ false = ground arith in rw (w, known, usual)

  report_lem :
      (num r pid mask : ℕ) (s : State) (old : List Line)
      → s.proc.pid ≡ pid
      → s.proc.traceid ≡ mask
      → s.log ≡ old
      → (let s' = report num (r, s) in
          (s'.proc.pid ≡ pid)
          × (s'.proc.traceid ≡ mask)
          × (map head_of s'.log
              ≡ map head_of old
                ++ (if bit mask num then (pid, get_elem? names (num - 1)) ∷ [] else [])))
  report_lem num r pid mask s old p t o = elim (Bool-cases (bit mask num)) [
    | inl on ↦
        let on' : bit s.proc.traceid num ≡ true = rw t on in
        rw (on', on, o, p) (refl, t, map-append head_of old _)
    | inr off ↦
        let off' : bit s.proc.traceid num ≡ false = rw t off in
        rw (off', off, o, p) (refl, t, sym (append-nil _))
  ]

  module _ (keeps : Keeps other) where
    pub calls-selected :
        (nums : List ℕ) (s : State)
        → Known nums
        → map head_of (calls nums s).log
          ≡ map head_of s.log ++ selected s.proc.pid s.proc.traceid nums
    unfolding selected
    calls-selected [] s known = sym (append-nil _)
    calls-selected (num ∷ nums) s known =
        let s0 : State = set_proc s (record s.proc { a7 = num }) in
        let s1 : State = syscall argint other s0 in
        let (p, t, l) = keeps num s0 in
        let e : s1 ≡ report num (other num s0) = syscall-report num s0 refl known.0 known.1 in
        let (p', t', l') =
          report_lem num (other num s0).0 s.proc.pid s.proc.traceid (other num s0).1 s.log p t l in
        calls-selected nums s1 known.2
        ∙ selected-cons num nums (map head_of s.log) (map head_of s1.log)
            (ap (λ (x : State). x.proc.pid) e ∙ p') (ap (λ (x : State). x.proc.traceid) e ∙ t')
            (ap (λ (x : State). map head_of x.log) e ∙ l')

    -- After the call of `trace` with the mask `n`, the system calls that the process makes (of those in
    -- the table, `trace` itself left out) are reported in their order, each with the process's number
    -- and the name that syscall.h gives to it, exactly where the call's bit is set in `n`; a
    -- negative `n` reports none.
    pub sys_trace-calls :
        (n : ℕ) (nums : List ℕ) (s : State)
        → Known nums
        → map head_of (calls nums (sys_trace n s).1).log
          ≡ map head_of s.log ++ reported s.proc.pid (if is_neg32 n then 0 else n) nums
    unfolding sys_trace
    sys_trace-calls n nums s known =
        calls-selected nums (sys_trace n s).1 known
        ∙ ap (λ (r : List (ℕ × Option String)). map head_of s.log ++ r)
            (selected-reported s.proc.pid (if is_neg32 n then 0 else n) nums known)
