-- ===== src/Pingpong/Order.antt =====
-- pingpong.c: under every schedule the ping comes before the pong, and both processes end.
use mit.Base.{
  ℕ, zero, suc, ◌+◌, ◌≤◌, ◌<◌, ◌≡◌, refl, Bool, true, false, leb, List, [], ◌∷◌, ◌++◌, none, some,
  ◌⊎◌, inl, inr, arith, sym, ◌∙◌, ap,
}
use mathlib.Core.Path.{subst}
use native.Mathlib.Decide.{dec_lt, ℕ_discrete}
use mit.Pingpong.{Message, received_ping, received_pong, Pipes, Turn, after, step, run, start}
use mit.Pingpong.Turns.{
  Laws, lines, state_at, Possible, start-eq, child_step, child_waits, child_ended, parent_step,
  parent_waits, parent_ended,
}

module _ (b : Pipes) (laws : Laws b) (child_pid parent_pid : ℕ) where
  abbrev at : (c p : ℕ) → Turn b
  at c p = state_at b laws child_pid parent_pid c p

  -- A process has ended, or reads from a pipe to which nobody wrote yet.
  abbrev Blocked : Bool → (c p : ℕ) → Type 0
  Blocked true c p = (c ≡ 8) ⊎ ((c ≡ 2) × (p < 3))
  Blocked false c p = (p ≡ 8) ⊎ ((p ≡ 3) × (c < 5))

  abbrev Turned : Bool → (c p : ℕ) → Type 0
  Turned who c p =
      ((c' : ℕ) × (p' : ℕ) × Possible c' p'
        × (c' + p' ≡ suc (c + p))
        × (step b who (at c p) ≡ some (at c' p')))
      ⊎ (Blocked who c p × (step b who (at c p) ≡ none))

  child_turn : (c p : ℕ) → Possible c p → Turned true c p
  child_turn c p h = elim (ℕ_discrete c 8) [
    | yes e ↦ inr (inl e, rw e (child_ended b laws child_pid parent_pid p))
    | no more ↦ elim (ℕ_discrete c 2) [
      | no other ↦ child_on c p h (omega (arith, h.child_ends)) (λ e. absurd (other e))
      | yes reads ↦ elim (dec_lt p 3) [
        | yes early ↦
            inr (inr (reads, early), rw reads (child_waits b laws child_pid parent_pid p early))
        | no sent ↦ child_on c p h (omega (arith, h.child_ends)) (λ e. omega arith)
      ]
    ]
  ]
    where
      child_on : (c p : ℕ) → Possible c p → c < 8 → (c ≡ 2 → 3 ≤ p) → Turned true c p
      child_on c p h lt r = inl (
        suc c,
        p,
        record {
          child_ends = lt;
          parent_ends = h.parent_ends;
          ping_sent = λ le. ground (arith, r, h.ping_sent);
          pong_sent = λ le. omega (arith, h.pong_sent le);
        },
        omega arith,
        child_step b laws child_pid parent_pid c p h lt r,
      )

  parent_turn : (c p : ℕ) → Possible c p → Turned false c p
  parent_turn c p h = elim (ℕ_discrete p 8) [
    | yes e ↦ inr (inl e, rw e (parent_ended b laws child_pid parent_pid c))
    | no more ↦ elim (ℕ_discrete p 3) [
      | no other ↦ parent_on c p h (omega (arith, h.parent_ends)) (λ e. absurd (other e))
      | yes reads ↦ elim (dec_lt c 5) [
        | yes early ↦
            inr (inr (reads, early), rw reads (parent_waits b laws child_pid parent_pid c early))
        | no sent ↦ parent_on c p h (omega (arith, h.parent_ends)) (λ e. omega arith)
      ]
    ]
  ]
    where
      parent_on : (c p : ℕ) → Possible c p → p < 8 → (p ≡ 3 → 5 ≤ c) → Turned false c p
      parent_on c p h lt r = inl (
        c,
        suc p,
        record {
          child_ends = h.child_ends;
          parent_ends = lt;
          ping_sent = λ le. omega (arith, h.ping_sent le);
          pong_sent = λ le. ground (arith, r, h.pong_sent);
        },
        omega arith,
        parent_step b laws child_pid parent_pid c p h lt r,
      )

  turn : (who : Bool) (c p : ℕ) → Possible c p → Turned who c p
  turn true = child_turn
  turn false = parent_turn

  -- The state is one of those between the calls.
  abbrev Reached : Turn b → Type 0
  Reached s = (c : ℕ) × (p : ℕ) × Possible c p × (s ≡ at c p)

  -- The state after the turn of a process.
  abbrev moved : Bool → Turn b → Turn b
  moved who s = after b s (step b who s)

  step-Reached : (who : Bool) (s : Turn b) → Reached s → Reached (moved who s)
  step-Reached who s (c, p, h, e) =
      subst (λ s. Reached (moved who s)) (sym e)
        (elim (turn who c p h) [
          | inl (c', p', h', n, go) ↦ (c', p', h', ap (after b (at c p)) go)
          | inr (w, stay) ↦ (c, p, h, ap (after b (at c p)) stay)
        ])

  run-Reached : (schedule : List Bool) (s : Turn b) → Reached s → Reached (run b schedule s)
  unfolding run
  run-Reached [] s r = r
  run-Reached (who ∷ rest) s r = run-Reached rest _ (step-Reached who s r)

  start-Reached : Reached (start b child_pid parent_pid)
  start-Reached = (0, 0, omega arith, start-eq b laws child_pid parent_pid)

  -- Both processes have made all their calls.
  abbrev pub Ended : Turn b → Type 0
  Ended s = (s.self.todo ≡ []) × (s.other.todo ≡ [])

  abbrev pub CanStep : Turn b → Type 0
  CanStep s = (who : Bool) × (s' : Turn b) × (step b who s ≡ some s')

  -- What was printed so far.
  abbrev pub InOrder : List (ℕ × Message) → Type 0
  InOrder out =
      (out ≡ [])
      ⊎ (out ≡ (child_pid, received_ping) ∷ [])
      ⊎ (out ≡ (child_pid, received_ping) ∷ (parent_pid, received_pong) ∷ [])

  lines-InOrder : (c p : ℕ) → Possible c p → InOrder (lines b laws child_pid parent_pid c p)
  lines-InOrder c p h = elim (dec_lt c 4) [
    | yes before ↦
        let no_ping : leb 4 c ≡ false = ground arith in
        let no_pong : leb 7 p ≡ false = ground (arith, h.pong_sent) in
        rw (no_ping, no_pong) (inl refl)
    | no after ↦
        let ping : leb 4 c ≡ true = ground arith in
        elim (dec_lt p 7) [
          | yes before ↦
              let no_pong : leb 7 p ≡ false = ground arith in rw (ping, no_pong) (inr (inl refl))
          | no both ↦ let pong : leb 7 p ≡ true = ground arith in rw (ping, pong) (inr (inr refl))
        ]
  ]

  both-Blocked : (c p : ℕ) → Blocked true c p → Blocked false c p → (c ≡ 8) × (p ≡ 8)
  both-Blocked c p x y = ground arith

  at-CanStep : (c p : ℕ) → Possible c p → Ended (at c p) ⊎ CanStep (at c p)
  at-CanStep c p h = elim (turn true c p h) [
    | inl (c', p', h', n, go) ↦ inr (true, at c' p', go)
    | inr (x, _) ↦ elim (turn false c p h) [
      | inl (c', p', h', n, go) ↦ inr (false, at c' p', go)
      | inr (y, _) ↦ let (e, f) = both-Blocked c p x y in inl (rw e refl, rw f refl)
    ]
  ]

  run-InOrder :
      (schedule : List Bool)
      → (let s = run b schedule (start b child_pid parent_pid) in
          InOrder s.printed × (Ended s ⊎ CanStep s))
  run-InOrder schedule =
      let (c, p, h, e) = run-Reached schedule (start b child_pid parent_pid) start-Reached in
      subst (λ s. InOrder s.printed × (Ended s ⊎ CanStep s)) (sym e)
        (lines-InOrder c p h, at-CanStep c p h)

  -- A turn of each.
  abbrev pub rounds : ℕ → List Bool
  rounds zero = []
  rounds (suc n) = true ∷ false ∷ rounds n

  -- A round moves a process on, unless both have ended.
  abbrev Advanced : (c p : ℕ) → Turn b → Type 0
  Advanced c p s =
      (c' : ℕ) × (p' : ℕ) × Possible c' p'
      × (s ≡ at c' p')
      × ((suc (c + p) ≤ c' + p') ⊎ (c' + p' ≡ 16))

  two : (s t u : Turn b) → moved true s ≡ t → moved false t ≡ u → moved false (moved true s) ≡ u
  two s t u p q = ap (moved false) p ∙ q

  round-Advanced : (c p : ℕ) → Possible c p → Advanced c p (moved false (moved true (at c p)))
  round-Advanced c p h = elim (turn true c p h) [
    | inl (c1, p1, h1, n, go) ↦ elim (turn false c1 p1 h1) [
      | inl (c2, p2, h2, n2, go2) ↦ (
        c2,
        p2,
        h2,
        two (at c p) (at c1 p1) (at c2 p2) (ap (after b (at c p)) go) (ap (after b (at c1 p1)) go2),
        inl (omega arith),
      )
      | inr (w, stay) ↦ (
        c1,
        p1,
        h1,
        two (at c p) (at c1 p1) (at c1 p1) (ap (after b (at c p)) go)
            (ap (after b (at c1 p1)) stay),
        inl (omega arith),
      )
    ]
    | inr (x, stay) ↦ elim (turn false c p h) [
      | inl (c2, p2, h2, n2, go2) ↦ (
        c2,
        p2,
        h2,
        two (at c p) (at c p) (at c2 p2) (ap (after b (at c p)) stay) (ap (after b (at c p)) go2),
        inl (omega arith),
      )
      | inr (y, stay2) ↦
          let (e, f) = both-Blocked c p x y in
          (
            c,
            p,
            h,
            two (at c p) (at c p) (at c p) (ap (after b (at c p)) stay)
                (ap (after b (at c p)) stay2),
            inr (omega arith),
          )
    ]
  ]

  run-rounds : (n c p : ℕ) → Possible c p → 16 ≤ c + p + n → run b (rounds n) (at c p) ≡ at 8 8
  unfolding run
  run-rounds zero c p h le =
      let e : c ≡ 8 = omega (arith, h.child_ends, h.parent_ends) in
      let f : p ≡ 8 = omega (arith, h.child_ends, h.parent_ends) in rw (e, f) refl
  run-rounds (suc n) c p h le =
      let (c', p', h', e, more) = round-Advanced c p h in
      ap (run b (rounds n)) e ∙ run-rounds n c' p' h' (ground arith)

  run-append : (xs ys : List Bool) (s : Turn b) → run b (xs ++ ys) s ≡ run b ys (run b xs s)
  unfolding run
  run-append [] ys s = refl
  run-append (who ∷ xs) ys s = run-append xs ys (moved who s)

  run-last :
      (schedule : List Bool) → run b (schedule ++ rounds 16) (start b child_pid parent_pid) ≡ at 8 8
  run-last schedule =
      let (c, p, h, e) = run-Reached schedule (start b child_pid parent_pid) start-Reached in
      run-append schedule (rounds 16) (start b child_pid parent_pid)
      ∙ (ap (run b (rounds 16)) e ∙ run-rounds 16 c p h (omega arith))

  -- Whatever the schedule so far, what is printed is nothing, the ping of the child, or this and
  -- then the pong of the parent; both processes have ended or one of them can go on; and sixteen
  -- more rounds with a turn of each bring both to their end with both lines printed.
  pub run-Ended :
      (schedule : List Bool)
      → (let s = run b schedule (start b child_pid parent_pid) in
          let s' = run b (schedule ++ rounds 16) (start b child_pid parent_pid) in
          InOrder s.printed
          × (Ended s ⊎ CanStep s)
          × Ended s'
          × (s'.printed ≡ (child_pid, received_ping) ∷ (parent_pid, received_pong) ∷ []))
  run-Ended schedule =
      let (order, live) = run-InOrder schedule in
      let (ended, lines) =
        subst
          (λ s.
            Ended s × (s.printed ≡ (child_pid, received_ping) ∷ (parent_pid, received_pong) ∷ []))
          (sym (run-last schedule)) ((refl, refl), refl) in
      (order, live, ended, lines)
