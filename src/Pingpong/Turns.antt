-- ===== src/Pingpong/Turns.antt =====
-- pingpong.c: the states between the calls of the two processes.
use mit.Base.{
  ℕ, zero, suc, ◌≤◌, ◌<◌, ◌≡◌, refl, Bool, true, false, List, [], ◌∷◌, ◌++◌, none, some,
  if◌then◌else◌, ltb, leb, ◌&&◌, arith, length,
}
use mit.Pingpong.{
  Message, received_ping, received_pong, Call, child_code, parent_code, content_len, hello, Pipes,
  Fds, Turn, step, start,
}

-- What the manual promises of pipes: a read of an empty pipe waits while somebody can write, and a
-- write of at most 512 bytes into an empty pipe does not wait, and can be read if it has bytes.
pub record Laws (b : Pipes) : Type 0 where
  pub waits : (n : ℕ) → b.get true n b.fresh ≡ none
  pub full : List ℕ → b.Buffer
  pub stored : (text : List ℕ) → length text ≤ 512 → b.put text b.fresh ≡ some (full text)
  pub read_back :
      (text : List ℕ) (w : Bool)
      → 0 < length text
      → length text ≤ 512
      → b.get w (length text) (full text) ≡ some (text, b.fresh)

abbrev drop : ℕ → List Call → List Call
drop zero xs = xs
drop (suc n) [] = []
drop (suc n) (x ∷ xs) = drop n xs

-- The counts that the processes can reach: each reads after the other wrote.
pub record Possible (c p : ℕ) : Type 0 where
  pub child_ends : c ≤ 8
  pub parent_ends : p ≤ 8
  pub ping_sent : 3 ≤ c → 3 ≤ p
  pub pong_sent : 4 ≤ p → 5 ≤ c

module _ (b : Pipes) (laws : Laws b) (child_pid parent_pid : ℕ) where
  abbrev child_fds : ℕ → Fds
  child_fds c = record {
    p1_read = ltb c 6;
    p1_write = ltb c 1;
    p2_read = ltb c 2;
    p2_write = ltb c 7;
  }

  abbrev parent_fds : ℕ → Fds
  parent_fds p = record {
    p1_read = ltb p 1;
    p1_write = ltb p 5;
    p2_read = ltb p 6;
    p2_write = ltb p 2;
  }

  -- What was printed after so many calls.
  abbrev pub lines : (c p : ℕ) → List (ℕ × Message)
  lines c p =
      (if leb 4 c then (child_pid, received_ping) ∷ [] else [])
      ++ (if leb 7 p then (parent_pid, received_pong) ∷ [] else [])

  -- The state after `c` calls of the child and `p` of the parent.
  abbrev pub state_at : (c p : ℕ) → Turn b
  state_at c p = record {
    self = record { pid = child_pid; todo = drop c child_code; fds = child_fds c };
    other = record { pid = parent_pid; todo = drop p parent_code; fds = parent_fds p };
    pipe1 = if leb 3 p && ltb c 3 then laws.full hello else b.fresh;
    pipe2 = if leb 5 c && ltb p 4 then laws.full hello else b.fresh;
    printed = lines c p;
  }

  pub start-eq : start b child_pid parent_pid ≡ state_at 0 0
  unfolding start
  start-eq = refl

  child_read : (p : ℕ) → 3 ≤ p → p ≤ 8 → step b true (state_at 2 p) ≡ some (state_at 3 p)
  unfolding step
  child_read p le top = ground (arith, laws.read_back hello (ltb p 5) (omega arith) (omega arith))

  pub child_waits : (p : ℕ) → p < 3 → step b true (state_at 2 p) ≡ none
  unfolding step
  child_waits p lt = ground (arith, laws.waits content_len)

  pub child_step :
      (c p : ℕ)
      → Possible c p
      → c < 8
      → (c ≡ 2 → 3 ≤ p)
      → step b true (state_at c p) ≡ some (state_at (suc c) p)
  unfolding step
  child_step zero p h lt r = refl
  child_step (suc zero) p h lt r = refl
  child_step (suc (suc zero)) p h lt r = child_read p (r refl) h.parent_ends
  child_step (suc (suc (suc zero))) p h lt r =
      let early : leb 7 p ≡ false = ground (arith, h.pong_sent) in rw early refl
  child_step (suc (suc (suc (suc zero)))) p h lt r =
      let early : p < 4 = ground (arith, h.pong_sent) in
      ground (arith, early, laws.stored hello (omega arith))
  child_step (suc (suc (suc (suc (suc zero))))) p h lt r = refl
  child_step (suc (suc (suc (suc (suc (suc zero)))))) p h lt r = refl
  child_step (suc (suc (suc (suc (suc (suc (suc zero))))))) p h lt r = refl
  child_step (suc (suc (suc (suc (suc (suc (suc (suc c)))))))) p h lt r = absurd (omega arith)

  parent_read : (c : ℕ) → 5 ≤ c → c ≤ 8 → step b false (state_at c 3) ≡ some (state_at c 4)
  unfolding step
  parent_read c le top = ground (arith, laws.read_back hello (ltb c 7) (omega arith) (omega arith))

  pub parent_waits : (c : ℕ) → c < 5 → step b false (state_at c 3) ≡ none
  unfolding step
  parent_waits c lt = ground (arith, laws.waits content_len)

  pub parent_step :
      (c p : ℕ)
      → Possible c p
      → p < 8
      → (p ≡ 3 → 5 ≤ c)
      → step b false (state_at c p) ≡ some (state_at c (suc p))
  unfolding step
  parent_step c zero h lt r = refl
  parent_step c (suc zero) h lt r = refl
  parent_step c (suc (suc zero)) h lt r =
      let early : ltb c 3 ≡ true = ground (arith, h.ping_sent) in
      let listens : ltb c 6 ≡ true = ground (arith, early) in
      rw (early, listens) (rw (laws.stored hello (omega arith)) refl)
  parent_step c (suc (suc (suc zero))) h lt r = parent_read c (r refl) h.child_ends
  parent_step c (suc (suc (suc (suc zero)))) h lt r = refl
  parent_step c (suc (suc (suc (suc (suc zero))))) h lt r = refl
  parent_step c (suc (suc (suc (suc (suc (suc zero)))))) h lt r =
      let answered : leb 4 c ≡ true = ground (arith, h.pong_sent) in rw answered refl
  parent_step c (suc (suc (suc (suc (suc (suc (suc zero))))))) h lt r = refl
  parent_step c (suc (suc (suc (suc (suc (suc (suc (suc p)))))))) h lt r = absurd (omega arith)

  pub child_ended : (p : ℕ) → step b true (state_at 8 p) ≡ none
  unfolding step
  child_ended p = refl

  pub parent_ended : (c : ℕ) → step b false (state_at c 8) ≡ none
  unfolding step
  parent_ended c = refl
