-- ===== src/Pingpong.antt =====
-- lab1, pingpong: xv6-labs-2024/lab1: util/2. pingpong/pingpong.c. Two processes after `fork`, each
-- with the calls that it still has to make; a schedule says whose call is next.
pub mod Turns
pub mod Order
mod Tests
use mit.Base.{
  ℕ, Bool, true, false, List, [], ◌∷◌, ◌++◌, Option, none, some, if◌then◌else◌, ◌||◌, not,
}

-- What `printf` prints after the number of the process.
pub data Message : Type 0 where
  received_ping : Message
  received_pong : Message

-- `p1[0]`, `p1[1]`, `p2[0]` and `p2[1]`.
pub data Fd : Type 0 where
  p1_read : Fd
  p1_write : Fd
  p2_read : Fd
  p2_write : Fd

pub data Call : Type 0 where
  close : Fd → Call
  read : Fd → Call
  write : Fd → Call
  print : Message → Call
  exit : Call

-- `case 0:`
abbrev pub child_code : List Call
child_code =
    close p1_write
    ∷ close p2_read
    ∷ read p1_read
    ∷ print received_ping
    ∷ write p2_write
    ∷ close p1_read
    ∷ close p2_write
    ∷ exit
    ∷ []

-- `default:`
abbrev pub parent_code : List Call
parent_code =
    close p1_read
    ∷ close p2_write
    ∷ write p1_write
    ∷ read p2_read
    ∷ close p1_write
    ∷ close p2_read
    ∷ print received_pong
    ∷ exit
    ∷ []

-- `contentLen`, and the bytes of "hello world\n".
abbrev pub content_len : ℕ
content_len = 12

abbrev pub hello : List ℕ
hello = b'h' ∷ b'e' ∷ b'l' ∷ b'l' ∷ b'o' ∷ 32 ∷ b'w' ∷ b'o' ∷ b'r' ∷ b'l' ∷ b'd' ∷ 10 ∷ []

-- The pipes of the kernel: `none` where a process waits. A read is told whether somebody can still
-- write.
pub record Pipes : Type 1 where
  pub Buffer : Type 0
  pub fresh : Buffer
  pub put : List ℕ → Buffer → Option Buffer
  pub get : (writer : Bool) → (n : ℕ) → Buffer → Option (List ℕ × Buffer)

-- The descriptors that a process has open.
pub record Fds : Type 0 where
  pub p1_read : Bool
  pub p1_write : Bool
  pub p2_read : Bool
  pub p2_write : Bool

abbrev pub is_open : Fd → Fds → Bool
is_open p1_read f = f.p1_read
is_open p1_write f = f.p1_write
is_open p2_read f = f.p2_read
is_open p2_write f = f.p2_write

abbrev pub closed : Fd → Fds → Fds
closed p1_read f = record f { p1_read = false }
closed p1_write f = record f { p1_write = false }
closed p2_read f = record f { p2_read = false }
closed p2_write f = record f { p2_write = false }

-- Which pipe a descriptor is of, and its other end.
abbrev pub is_first : Fd → Bool
is_first p1_read = true
is_first p1_write = true
is_first p2_read = false
is_first p2_write = false

abbrev pub other_end : Fd → Fd
other_end p1_read = p1_write
other_end p1_write = p1_read
other_end p2_read = p2_write
other_end p2_write = p2_read

pub record Process : Type 0 where
  pub pid : ℕ
  pub todo : List Call
  pub fds : Fds

module _ (b : Pipes) where
  -- `self` is the process whose turn it is.
  pub record Turn : Type 0 where
    pub self : Process
    pub other : Process
    pub pipe1 : b.Buffer
    pub pipe2 : b.Buffer
    pub printed : List (ℕ × Message)

  abbrev pub pipe_of : Fd → Turn → b.Buffer
  pipe_of fd s = if is_first fd then s.pipe1 else s.pipe2

  abbrev pub set_pipe : Fd → b.Buffer → Turn → Turn
  set_pipe fd v s = if is_first fd then record s { pipe1 = v } else record s { pipe2 = v }

  -- Whether a process has the other end of the pipe open.
  abbrev pub connected : Fd → Turn → Bool
  connected fd s = is_open (other_end fd) s.self.fds || is_open (other_end fd) s.other.fds

  abbrev pub no_fds : Fds
  no_fds = record { p1_read = false; p1_write = false; p2_read = false; p2_write = false }

  -- A call; the results of `read` and `write` are not looked at.
  pub call : Call → Turn → Option Turn
  call (close fd) s = some (record s { self = record s.self { fds = closed fd s.self.fds } })
  call (read fd) s =
      if not (is_open fd s.self.fds)
      then some s
      else elim (b.get (connected fd s) content_len (pipe_of fd s)) [
        | none ↦ none
        | some r ↦ some (set_pipe fd r.1 s)
      ]
  call (write fd) s =
      if not (is_open fd s.self.fds) || not (connected fd s)
      then some s
      else elim (b.put hello (pipe_of fd s)) [ none ↦ none | some v ↦ some (set_pipe fd v s) ]
  call (print m) s = some (record s { printed = s.printed ++ ((s.self.pid, m) ∷ []) })
  call exit s = some (record s { self = record s.self { fds = no_fds } })

  -- The next call of the process whose turn it is: `none` where it waits or has ended.
  pub next : Turn → Option Turn
  unfolding call
  next s = elim (s.self.todo) [
    | [] ↦ none
    | c ∷ rest ↦ call c (record s { self = record s.self { todo = rest } })
  ]

  -- The turn of the other process.
  abbrev pub swap : Turn → Turn
  swap s = record s { self = s.other; other = s.self }

  -- The state from the child's side.
  pub step : (child : Bool) → Turn → Option Turn
  unfolding next
  step true s = next s
  step false s = elim (next (swap s)) [ none ↦ none | some s' ↦ some (swap s') ]

  -- A process that has its turn and cannot go on leaves the state as it is.
  abbrev pub after : Turn → Option Turn → Turn
  after s none = s
  after s (some s') = s'

  pub run : List Bool → Turn → Turn
  unfolding step
  run [] s = s
  run (who ∷ rest) s = run rest (after s (step who s))

  -- Two new pipes, and the processes right after `fork`.
  pub start : (child parent : ℕ) → Turn
  start child parent =
      let all : Fds = record { p1_read = true; p1_write = true; p2_read = true; p2_write = true } in
      record {
        self = record { pid = child; todo = child_code; fds = all };
        other = record { pid = parent; todo = parent_code; fds = all };
        pipe1 = b.fresh;
        pipe2 = b.fresh;
        printed = [];
      }

  -- `main` by what `fork` gives: the number of the child, or `none` for -1, after which the process
  -- only exits.
  pub main : Option ℕ → (parent : ℕ) → Turn
  unfolding start
  main (some child) parent = start child parent
  main none parent =
      let s = start 0 parent in
      record s {
        self = record s.self { todo = []; fds = no_fds };
        other = record s.other { todo = exit ∷ [] };
      }
