-- ===== src/Trace/Table.antt =====
-- The numbers of syscall.h, and the order of the array `names`.
use Prim.Native.String.{String}
use mit.Base.{
  ℕ, suc, ◌-◌, ◌≤◌, ◌<◌, ◌≡◌, refl, Option, none, some, List, [], ◌∷◌, ◌==◌, if◌then◌else◌, arith,
  get_elem?, sym, ap, ◌∙◌, true, false,
}
use native.Mathlib.Decide.{dec_lt}
use mit.Trace.{names, entries}

-- `#define SYS_…`
abbrev pub sys_numbers : List (String × ℕ)
sys_numbers =
    ("fork", 1)
    ∷ ("exit", 2)
    ∷ ("wait", 3)
    ∷ ("pipe", 4)
    ∷ ("read", 5)
    ∷ ("kill", 6)
    ∷ ("exec", 7)
    ∷ ("fstat", 8)
    ∷ ("chdir", 9)
    ∷ ("dup", 10)
    ∷ ("getpid", 11)
    ∷ ("sbrk", 12)
    ∷ ("sleep", 13)
    ∷ ("uptime", 14)
    ∷ ("open", 15)
    ∷ ("write", 16)
    ∷ ("mknod", 17)
    ∷ ("unlink", 18)
    ∷ ("link", 19)
    ∷ ("mkdir", 20)
    ∷ ("close", 21)
    ∷ ("trace", 22)
    ∷ []

-- The call that has the number.
abbrev pub call_of : ℕ → List (String × ℕ) → Option String
call_of num [] = none
call_of num ((name, n) ∷ rest) = if n == num then some name else call_of num rest

-- The names with the numbers from `from` on.
numbered : ℕ → List String → List (String × ℕ)
numbered from [] = []
numbered from (name ∷ rest) = (name, from) ∷ numbered (suc from) rest

call_of-numbered :
    (from num : ℕ) (ns : List String)
    → from ≤ num
    → call_of num (numbered from ns) ≡ get_elem? ns (num - from)
unfolding numbered
call_of-numbered from num [] le = refl
call_of-numbered from num (name ∷ rest) le = elim (dec_lt from num) [
  | yes later ↦
      let e : num - from ≡ suc (num - suc from) = omega arith in
      let other : (from == num) ≡ false = ground arith in
      rw (e, other) (call_of-numbered (suc from) num rest later)
  | no here ↦
      let e : num - from ≡ 0 = omega arith in
      let same : (from == num) ≡ true = ground arith in rw (e, same)
]

sys_numbers-eq-numbered : sys_numbers ≡ numbered 1 names
unfolding numbered
sys_numbers-eq-numbered = refl

-- For every number that `syscall` dispatches, the entry of `names` that it prints is the name that
-- syscall.h gives to the number.
pub names-call_of :
    (num : ℕ) → 0 < num → num < entries → get_elem? names (num - 1) ≡ call_of num sys_numbers
names-call_of num pos lt =
    sym (ap (call_of num) sys_numbers-eq-numbered ∙ call_of-numbered 1 num names pos)
