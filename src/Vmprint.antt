-- ===== src/Vmprint.antt =====
-- lab3, print a page table: `vmprint` and `vmprintkpgtbl` of vm.c, over tables of 512 entries in
-- memory. An entry is a 64-bit number, of which the bits 0 to 3 are PTE_V, PTE_R, PTE_W and PTE_X.
pub mod Bits
pub mod Address
pub mod Walk
pub mod Lines
mod Tests
use Prim.Native.Nat.{bit_or}
use mit.Base.{
  ℕ, zero, suc, ◌+◌, ◌-◌, ◌*◌, ◌/◌, ◌%◌, ◌^◌, Bool, true, false, List, [], ◌∷◌, ◌++◌, ◌==◌,
  if◌then◌else◌, extend, Run, ok, out_of_fuel, ◌>>=◌,
}

-- What is printed for an entry: the number of times that `.. ` stands before it, and three numbers.
pub record Line : Type 0 where
  pub depth : ℕ
  pub vpn : ℕ
  pub pte : ℕ
  pub pa : ℕ

-- `pte & PTE_V`
abbrev pub valid : ℕ → Bool
valid pte = pte % 2 == 1

-- `(pte & (PTE_R|PTE_W|PTE_X)) == 0`
abbrev pub points_below : ℕ → Bool
points_below pte = pte / 2 % 8 == 0

-- `PTE2PA(pte)`
pub pte2pa : ℕ → ℕ
pte2pa pte = pte / 2 ^ 10 * 2 ^ 12 % 2 ^ 64

-- `PXSHIFT(2-depth)`, which is negative from depth 4 on.
pub px_shift : ℕ → ℕ
px_shift depth = 30 - 9 * depth

-- `i << PXSHIFT(2-depth)`: the shift is one of an int, which wraps, and it is widened for the `|`.
pub index_bits : (i depth : ℕ) → ℕ
unfolding px_shift
index_bits i depth = extend (i * 2 ^ px_shift depth % 2 ^ 32)

pub vpn_of : (depth recordvpn i pa : ℕ) → ℕ
unfolding index_bits
vpn_of depth recordvpn i pa =
    let vpn = bit_or recordvpn (index_bits i depth) in
    if depth == 0 then bit_or vpn (pa % 2 ^ 12) else vpn

-- The body of the loop, where `visit` is the recursive call for a table and its part of the address.
pub visit_entry : (visit : ℕ → ℕ → Run (List Line)) → (depth recordvpn i pte : ℕ) → Run (List Line)
unfolding vpn_of pte2pa
visit_entry visit depth recordvpn i pte =
    let pa = pte2pa pte in
    let vpn = vpn_of depth recordvpn i pa in
    let line : Line = record { depth = depth; vpn = vpn; pte = pte; pa = pa } in
    elim (valid pte) [
      | true ↦ elim (points_below pte) [
        | true ↦ visit pa vpn >>= λ lines. ok (line ∷ lines)
        | false ↦ ok (line ∷ [])
      ]
      | false ↦ ok []
    ]

-- The loop, with `n` entries left from `i` on.
pub entries_loop :
    (visit : ℕ → ℕ → Run (List Line))
    → (table : ℕ → ℕ) → (depth recordvpn n i : ℕ) → Run (List Line)
unfolding visit_entry
entries_loop visit table depth recordvpn zero i = ok []
entries_loop visit table depth recordvpn (suc n) i =
    visit_entry visit depth recordvpn i (table i) >>= λ lines.
    entries_loop visit table depth recordvpn n (suc i) >>= λ more. ok (lines ++ more)

-- `ptes` gives the entries of the table at an address.
module _ (ptes : ℕ → ℕ → ℕ) where
  pub vmprintkpgtbl : (fuel pagetable depth recordvpn : ℕ) → Run (List Line)
  unfolding entries_loop
  vmprintkpgtbl zero pagetable depth recordvpn = out_of_fuel
  vmprintkpgtbl (suc fuel) pagetable depth recordvpn =
      entries_loop (λ pa vpn. vmprintkpgtbl fuel pa (suc depth) vpn) (ptes pagetable) depth
        recordvpn 512 0

  -- The address that is printed first, and the lines. A page table of Sv39 has three levels.
  pub vmprint : (pagetable : ℕ) → Run (ℕ × List Line)
  unfolding vmprintkpgtbl
  vmprint pagetable = vmprintkpgtbl 3 pagetable 0 0 >>= λ lines. ok (pagetable, lines)
