-- ===== src/Vmprint/Tests.antt =====
-- `vmprint` on a table with a large leaf and a page at the end of the address space.
use mit.Base.{ℕ, ◌≡◌, refl, [], ◌∷◌, ◌==◌, if◌then◌else◌, ok, Ensures, arith, Bool-cases, inl, inr}
use mit.Vmprint.{pte2pa, vmprint}
use mit.Vmprint.Walk.{HasLevels, LinesOf}
use mit.Vmprint.Lines.{vmprint-LinesOf}

-- The entries 0 and 255 of the table at 0x1000 are a leaf and a table, in which 511 leads to
-- another, in which 511 leads to a page.
abbrev memory : ℕ → ℕ → ℕ
memory table i =
    if table == 0x1000
    then (if i == 255 then 3073 else if i == 0 then 5127 else 0)
    else if table == 0x3000
    then (if i == 511 then 4097 else 0)
    else if i == 511
    then 6155
    else 0

-- The last address is 0x3ffffff000, and 0xfffffffffffff000 is printed.
printed :
    vmprint memory 0x1000
    ≡ ok (
      0x1000,
      record { depth = 0; vpn = 0; pte = 5127; pa = 0x5000 }
          ∷ record { depth = 0; vpn = 0xffffffffc0000000; pte = 3073; pa = 0x3000 }
          ∷ record { depth = 1; vpn = 0xffffffffffe00000; pte = 4097; pa = 0x4000 }
          ∷ record { depth = 2; vpn = 0xfffffffffffff000; pte = 6155; pa = 0x6000 }
          ∷ [],
    )
unfolding vmprint
printed = refl

last_level : HasLevels memory 1 0x4000
last_level i lt v p = absurd (ground (arith, v, p))

second_level : HasLevels memory 2 0x3000
unfolding pte2pa
second_level i lt v p = elim (Bool-cases (i == 511)) [
  | inl e ↦ rw e last_level
  | inr e ↦ absurd (ground (arith, e, v))
]

first_level : HasLevels memory 3 0x1000
unfolding pte2pa
first_level i lt v p = elim (Bool-cases (i == 255)) [
  | inl e ↦ rw e second_level
  | inr e ↦ absurd (ground (arith, e, v, p))
]

vmprint-LinesOf_example :
    Ensures (vmprint memory 0x1000) (λ r. (r.0 ≡ 0x1000) × LinesOf memory 0x1000 0 0 r.1)
vmprint-LinesOf_example = vmprint-LinesOf memory 0x1000 first_level
