-- ===== src/Manager/Routing.antt =====
-- Which connection gets which result: the histories of the manager of
-- database/source/workmanager/work_manager.cc, and the invariant that its rounds and the work of the
-- threads keep.
pub mod Accepting
pub mod Receiving
pub mod Results
pub mod Rounds
use open_mem_db.Prelude.{
  ℕ, zero, suc, ◌+◌, ◌%◌, ◌^◌, ◌≤◌, ◌<◌, ◌≡◌, refl, sym, ap, ◌∙◌, ◌⊎◌, inl, inr, Bool, true, false,
  Option, none, some, List, [], ◌∷◌, ◌++◌, ◌==◌, arith, String, All, All-map, length, append-nil,
  append_assoc, length-append,
}
use open_mem_db.Tervel.{Tervel}
use open_mem_db.Store.{DataStore}
use open_mem_db.Wire.{Memory}
use open_mem_db.Client.Request.{
  ServerRecv, connection_recv, d_recv_full, RecvStatus, command_buffer, command_message,
}
use open_mem_db.Builder.{StatementBuilder}
use open_mem_db.Sql.Token.{TokenPair}
use open_mem_db.Engine.Job.{JobResult, run_job}
use open_mem_db.Manager.Counting.{total}
use open_mem_db.Manager.{
  Connection, Job, Sent, Asked, Accepted, accept_error, no_socket, socket, Round, bytes_of, Manager,
  start_manager, run_round, work,
}

-- A command is in the history.
abbrev pub In : Asked → List Asked → Type 0
In a [] = ⊥
In a (b ∷ h) = (b ≡ a) ⊎ In a h

pub In-append : (a : Asked) (h g : List Asked) → In a h → In a (h ++ g)
In-append a [] g i = absurd i
In-append a (b ∷ h) g (inl e) = inl e
In-append a (b ∷ h) g (inr i) = inr (In-append a h g i)

pub In-snoc : (a : Asked) (h : List Asked) → In a (h ++ a ∷ [])
In-snoc a [] = inl refl
In-snoc a (b ∷ h) = inr (In-snoc a h)

-- The commands of a history have the numbers from one on.
abbrev pub Numbered : ℕ → List Asked → Type 0
Numbered k [] = Unit
Numbered k (a ∷ h) = (a.number ≡ suc k) × Numbered (suc k) h

pub Numbered-snoc :
    (k : ℕ) (h : List Asked) (a : Asked)
    → Numbered k h
    → a.number ≡ suc (k + length h)
    → Numbered k (h ++ a ∷ [])
Numbered-snoc k [] a n e = (omega (arith, e), tt)
Numbered-snoc k (b ∷ h) a n e = (n.0, Numbered-snoc (suc k) h a n.1 (omega (arith, e)))

number_above : (k : ℕ) (h : List Asked) (a : Asked) → Numbered k h → In a h → k < a.number
number_above k [] a n i = absurd i
number_above k (b ∷ h) a n (inl e) = omega (arith, n.0, ap (λ (x : Asked). x.number) e)
number_above k (b ∷ h) a n (inr i) = omega (arith, number_above (suc k) h a n.1 i)

-- A number stands for one command.
pub In-unique :
    (k : ℕ) (h : List Asked) (a b : Asked)
    → Numbered k h
    → In a h
    → In b h
    → a.number ≡ b.number
    → a ≡ b
In-unique k [] a b n i j e = absurd i
In-unique k (x ∷ h) a b n (inl p) (inl q) e = sym p ∙ q
In-unique k (x ∷ h) a b n (inl p) (inr j) e =
    absurd (omega (arith, e, n.0, ap (λ (x : Asked). x.number) p, number_above (suc k) h b n.1 j))
In-unique k (x ∷ h) a b n (inr i) (inl q) e =
    absurd (omega (arith, e, n.0, ap (λ (x : Asked). x.number) q, number_above (suc k) h a n.1 i))
In-unique k (x ∷ h) a b n (inr i) (inr j) e = In-unique (suc k) h a b n.1 i j e

-- The command that a connection sends, if a whole one comes.
abbrev pub command_of : Memory → Connection → ServerRecv → Option (List ℕ)
command_of buffer conn r = elim (connection_recv conn.is_valid r) [
  | d_recv_full ↦ command_message (command_buffer buffer (bytes_of r))
  | _ ↦ none
]

-- The command in the history, with the number after one
abbrev pub asked_from : Connection → ℕ → Option (List ℕ) → List Asked
asked_from conn n none = []
asked_from conn n (some c) =
    record { connection = conn; number = (n + 1) % 2 ^ 32; command = c } ∷ []

abbrev pub last_number : ℕ → List Asked → ℕ
last_number n [] = n
last_number n (a ∷ rest) = last_number a.number rest

-- The commands that come in from connections, with the numbers after one.
abbrev pub heard : Memory → (ℕ → ServerRecv) → List Connection → ℕ → List Asked
heard buffer recvs [] n = []
heard buffer recvs (conn ∷ conns) n =
    let here = asked_from conn n (command_of buffer conn (recvs conn.socket_fd)) in
    here ++ heard buffer recvs conns (last_number n here)

module _ ⦃t : Tervel⦄ where
  -- The commands of a round: a new connection can send one at once.
  abbrev pub heard_in : Round → Manager → List Asked
  heard_in round m = elim round.incoming [
    | accept_error e ↦ []
    | no_socket ↦ heard round.buffer round.recvs m.connections m.job_number
    | socket fd ↦ elim (fd == 0) [
      | true ↦ heard round.buffer round.recvs m.connections m.job_number
      | false ↦
          heard round.buffer round.recvs
            (m.connections ++ record { is_valid = true; socket_fd = fd } ∷ []) m.job_number
    ]
  ]

  module _ (stof : String → Option ℕ)
      (grammar : DataStore → List TokenPair → StatementBuilder → Option StatementBuilder)
      (fuel : ℕ) where
    -- The manager from its start on: what it was asked, its state, and what it sent.
    pub data History : List Asked → Manager → List Sent → Type 0 where
      begin : (n : ℕ) → History [] (start_manager n) []
      round :
          {h : List Asked} {m : Manager} {out : List Sent}
          → History h m out
          → (r : Round) (go : Bool) (m' : Manager) (sent : List Sent)
          → run_round r m ≡ some (go, m', sent)
          → History (h ++ heard_in r m) m' (out ++ sent)
      thread :
          {h : List Asked} {m : Manager} {out : List Sent}
          → History h m out
          → (k i : ℕ) (m' : Manager) → work (run_job stof grammar fuel) k i m ≡ some m'
          → History h m' out

    -- The result of a command of the history, on some store
    pub record Outcome (h : List Asked) (r : JobResult) : Type 0 where
      pub asked : Asked
      pub is_in : In asked h
      pub same_number : asked.number ≡ r.job_number
      pub before : DataStore
      pub later : DataStore
      pub ran : run_job stof grammar fuel asked.number asked.command before ≡ some (r, later)

    -- A result that is sent answers a command that the same connection sent.
    pub record Answers (h : List Asked) (x : Sent) : Type 0 where
      pub outcome : Outcome h x.job
      pub to_asker : outcome.asked.connection ≡ x.connection

    -- A job in a queue, and an entry of the map of connections
    pub record Queued (h : List Asked) (j : Job) : Type 0 where
      pub asked : Asked
      pub is_in : In asked h
      pub same_number : asked.number ≡ j.number
      pub same_command : asked.command ≡ j.command

    pub record Known (h : List Asked) (e : ℕ × Connection) : Type 0 where
      pub asked : Asked
      pub is_in : In asked h
      pub same_number : asked.number ≡ e.0
      pub same_connection : asked.connection ≡ e.1

    -- Every job, connection and result belongs to a command of the history, and none has two.
    pub record Routed (out : List Sent) (h : List Asked) (m : Manager) : Type 0 where
      pub numbered : Numbered 0 h
      pub counted : m.job_number ≡ length h
      pub jobs : All (All (Queued h)) m.queues
      pub known : All (Known h) m.job_to_connection
      pub done : All (Outcome h) m.finished
      pub once : (n : ℕ) → total n m out ≤ 1
      pub fresh : (n : ℕ) → m.job_number < n → total n m out ≡ 0
