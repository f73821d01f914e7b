-- ===== src/Cow/Fork/Sample.antt =====
-- A run of `uvmcopy` at the small machine.
use mit.Base.{◌≡◌, true, ok, arith}
use mit.Cow.Fork.{Copied, copy_loop, uvmcopy}
use mit.Cow.Sample.{works, table, nothing, kernel}

pub sample_succeeds :
    (r : Copied works) → uvmcopy works table nothing 0x1800 kernel ≡ ok r → r.success ≡ true
unfolding uvmcopy copy_loop
sample_succeeds r e = ground arith
