-- ===== src/Vmprint/Address.antt =====
-- The addresses that `vmprintkpgtbl` prints.
use Prim.Native.Nat.{bit_or}
use mit.Base.{ℕ, zero, suc, ◌+◌, ◌-◌, ◌*◌, ◌/◌, ◌%◌, ◌^◌, ◌<◌, ◌≡◌, refl, arith, extend, ◌∙◌, sym}
use mit.Vmprint.{pte2pa, px_shift, index_bits, vpn_of}
use mit.Vmprint.Bits.{bit_or-zero, zero-bit_or, bit_or-add}

-- The part above bit 30 goes through an int, so its bit 31 is copied to the bits above it.
abbrev pub shown : ℕ → ℕ
shown va = extend (va / 2 ^ 30 * 2 ^ 30 % 2 ^ 32) + va % 2 ^ 30

-- Below 2 GB, `shown` is the address.
shown-small : (va : ℕ) → va < 2 ^ 31 → shown va ≡ va
shown-small va lt = ground arith

-- The multiple of `2 ^ 30` that `shown` gives for an index of the first table.
abbrev top : ℕ → ℕ
top q = extend (q * 2 ^ 30 % 2 ^ 32)

shown-split : (va q r : ℕ) → va ≡ q * 2 ^ 30 + r → r < 2 ^ 30 → shown va ≡ top q + r
shown-split va q r e lt =
    let a : va / 2 ^ 30 ≡ q = omega (arith, e) in
    let b : va % 2 ^ 30 ≡ r = omega (arith, e) in rw (a, b) refl

top-multiple : (q : ℕ) → top q ≡ top q / 2 ^ 30 * 2 ^ 30
top-multiple q = ground arith

-- The address that belongs to a part of an address, as printed, at a depth.
pub record Agree (depth recordvpn va : ℕ) : Type 0 where
  pub above : recordvpn ≡ shown va
  pub aligned : va % 2 ^ (39 - 9 * depth) ≡ 0
  pub bounded : va < 2 ^ 39

vpn_of-pte2pa :
    (depth recordvpn i pte : ℕ)
    → vpn_of depth recordvpn i (pte2pa pte) ≡ bit_or recordvpn (index_bits i depth)
unfolding vpn_of pte2pa
vpn_of-pte2pa depth recordvpn i pte =
    let e : pte / 2 ^ 10 * 2 ^ 12 % 2 ^ 64 % 2 ^ 12 ≡ 0 = omega arith in
    rw (e, bit_or-zero (bit_or recordvpn (index_bits i depth))) (ground arith)

first-Agree :
    (recordvpn va i : ℕ)
    → i < 512
    → Agree 0 recordvpn va
    → Agree 1 (bit_or recordvpn (index_bits i 0)) (va + i * 2 ^ 30)
unfolding index_bits px_shift
first-Agree recordvpn va i lt g =
    let z : va ≡ 0 = omega (arith, g.aligned, g.bounded) in
    let none_above : recordvpn ≡ 0 = g.above ∙ rw z refl in
    let same : shown (va + i * 2 ^ 30) ≡ top i + 0 =
      shown-split (va + i * 2 ^ 30) i 0 (omega (arith, z)) (omega arith) in
    record {
      above = rw (none_above, zero-bit_or (top i), same) (omega arith);
      aligned = omega (arith, z);
      bounded = omega (arith, z);
    }

-- Below the first level the shift of the index does not wrap.
low_bits : (i : ℕ) → i < 512 → index_bits i 1 ≡ i * 2 ^ 21
unfolding index_bits px_shift
low_bits i lt = ground arith

lowest_bits : (i : ℕ) → i < 512 → index_bits i 2 ≡ i * 2 ^ 12
unfolding index_bits px_shift
lowest_bits i lt = ground arith

second-Agree :
    (recordvpn va i : ℕ)
    → i < 512
    → Agree 1 recordvpn va
    → Agree 2 (bit_or recordvpn (index_bits i 1)) (va + i * 2 ^ 21)
second-Agree recordvpn va i lt g =
    let q = va / 2 ^ 30 in
    let whole : va ≡ q * 2 ^ 30 + 0 = omega (arith, g.aligned) in
    let above : recordvpn ≡ top q / 2 ^ 30 * 2 ^ 30 =
      g.above ∙ (shown-split va q 0 whole (omega arith) ∙ omega (arith, top-multiple q)) in
    let same : shown (va + i * 2 ^ 21) ≡ top q + i * 2 ^ 21 =
      shown-split (va + i * 2 ^ 21) q (i * 2 ^ 21) (omega (arith, whole)) (omega arith) in
    let sum : bit_or recordvpn (index_bits i 1) ≡ top q + i * 2 ^ 21 =
      rw (above, low_bits i lt, bit_or-add 30 (top q / 2 ^ 30) (i * 2 ^ 21) (omega arith))
        (omega (arith, top-multiple q)) in
    record {
      above = sum ∙ sym same;
      aligned = omega (arith, g.aligned);
      bounded = omega (arith, g.aligned, g.bounded);
    }

third-Agree :
    (recordvpn va i : ℕ)
    → i < 512
    → Agree 2 recordvpn va
    → Agree 3 (bit_or recordvpn (index_bits i 2)) (va + i * 2 ^ 12)
third-Agree recordvpn va i lt g =
    let q = va / 2 ^ 30 in
    let r = va % 2 ^ 30 / 2 ^ 21 in
    let whole : va ≡ q * 2 ^ 30 + r * 2 ^ 21 = omega (arith, g.aligned) in
    let small : r * 2 ^ 21 + i * 2 ^ 12 < 2 ^ 30 = omega arith in
    let t = top q / 2 ^ 30 in
    let above : recordvpn ≡ (t * 512 + r) * 2 ^ 21 =
      g.above
      ∙ (shown-split va q (r * 2 ^ 21) whole (omega arith) ∙ omega (arith, top-multiple q)) in
    let same : shown (va + i * 2 ^ 12) ≡ top q + (r * 2 ^ 21 + i * 2 ^ 12) =
      shown-split (va + i * 2 ^ 12) q (r * 2 ^ 21 + i * 2 ^ 12) (omega (arith, whole)) small in
    let sum : bit_or recordvpn (index_bits i 2) ≡ top q + (r * 2 ^ 21 + i * 2 ^ 12) =
      rw (above, lowest_bits i lt, bit_or-add 21 (t * 512 + r) (i * 2 ^ 12) (omega arith))
        (omega (arith, top-multiple q)) in
    record {
      above = sum ∙ sym same;
      aligned = omega (arith, g.aligned);
      bounded = omega (arith, whole, g.bounded);
    }

-- The address that is printed for an entry is that of the part above with the entry's index.
pub vpn_of-Agree :
    (depth recordvpn va i pte : ℕ)
    → depth < 3
    → i < 512
    → Agree depth recordvpn va
    → Agree (suc depth) (vpn_of depth recordvpn i (pte2pa pte)) (va + i * 2 ^ px_shift depth)
unfolding px_shift
vpn_of-Agree zero recordvpn va i pte d lt g =
    rw (vpn_of-pte2pa 0 recordvpn i pte) (first-Agree recordvpn va i lt g)
vpn_of-Agree (suc zero) recordvpn va i pte d lt g =
    rw (vpn_of-pte2pa 1 recordvpn i pte) (second-Agree recordvpn va i lt g)
vpn_of-Agree (suc (suc zero)) recordvpn va i pte d lt g =
    rw (vpn_of-pte2pa 2 recordvpn i pte) (third-Agree recordvpn va i lt g)
vpn_of-Agree (suc (suc (suc depth))) recordvpn va i pte d lt g = absurd (omega arith)
