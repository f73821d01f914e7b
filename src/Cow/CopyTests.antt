-- ===== src/Cow/CopyTests.antt =====
-- `copyout` at a small machine, to a page that is shared and over the end of a page.
use mit.Base.{
  ℕ, ◌+◌, ◌<◌, ◌≡◌, ◌≢◌, ◌⊎◌, ◌^◌, ◌*◌, ◌/◌, refl, true, false, some, ◌==◌, if◌then◌else◌, ok,
  arith, update,
}
use native.Mathlib.Decide.{dec_lt}
use mit.Cow.Kalloc.{Kernel, round_down}
use mit.Cow.Kalloc.Inv.{IsPage}
use mit.Cow.Paging.{Pte, Laws}
use mit.Cow.Paging.Array.{Entries, array-Laws}
use mit.Cow.Fork.{share}
use mit.Cow.Copyout.{copyout}
use mit.Cow.Copyout.Bytes.{IsTarget, Written, copyout-Written}
use mit.Cow.Copyout.Private.{Private, copyout-Private}
use mit.Cow.Sample.{
  layout, layout-IsLayout, refs, kernel, kernel-Inv, last-IsPage, user_page, table, works, nothing,
}

works-Laws : Laws works layout
works-Laws = array-Laws true layout layout-IsLayout

abbrev shared : Entries
shared = update nothing 1 (some (share (user_page true 0x4000)))

source_in_use : (i : ℕ) → i < 8 → 0 < refs (round_down (0x3000 + i))
source_in_use i lt = ground arith

copyout-Private_example :
    ((copyout layout works 2 shared 0x1010 0x3000 8 kernel ≡ ok (false, shared, kernel))
      × ((p : ℕ) → IsPage layout p → refs p ≢ 0))
    ⊎ ((q : ℕ) × (t' : Entries) × (k' : Kernel) × (copyout layout works 2 shared 0x1010 0x3000 8
            kernel
          ≡ ok (true, t', k'))
        × Private layout layout-IsLayout works works-Laws shared 0x1000 0x10 0x3000 8
            (share (user_page true 0x4000))
            kernel
            refs
            q
            t'
            k')
copyout-Private_example =
    copyout-Private layout layout-IsLayout works works-Laws 0 shared 0x1010 0x3000 8 kernel refs
      (share (user_page true 0x4000)) kernel-Inv refl refl refl (omega arith) last-IsPage
      (omega arith) (omega arith) (omega arith) (omega arith) source_in_use

-- The entries of `table`.
abbrev entry : ℕ → Pte
entry va0 = if va0 == 0 then user_page true 0x3000 else user_page false 0x4000

low : works.maxva < 2 ^ 63
low = omega arith

over_the_end : IsTarget layout works table low entry 0xffe 0x2000 4
over_the_end = record {
  below = omega arith;
  source = omega arith;
  plain = λ j lt. elim (dec_lt j 2) [
    | yes first ↦
        let e : (0xffe + j) / 4096 * 4096 ≡ 0 = omega arith in
        rw e (record { walked = refl; v = refl; u = refl; cow = refl; bounded = omega arith })
    | no second ↦
        let e : (0xffe + j) / 4096 * 4096 ≡ 4096 = omega arith in
        rw e (record { walked = refl; v = refl; u = refl; cow = refl; bounded = omega arith })
  ];
  distinct = λ i j li lj e. ground arith;
  apart = λ i j li lj e. ground (arith, e);
}

copyout-Written_example :
    (m : ℕ → ℕ) × (copyout layout works 3 table 0xffe 0x2000 4 kernel
      ≡ ok (true, table, record kernel { bytes = m }))
    × Written layout works table low entry 0xffe 0x2000 4 kernel.bytes m
copyout-Written_example =
    copyout-Written layout works table low entry 3 0xffe 0x2000 4 kernel over_the_end (omega arith)
