-- ===== src/Manager.antt =====
-- WorkManager of database/source/workmanager/work_manager.cc with the loop of the work threads,
-- WorkThread::Run of database/source/workmanager/work_thread.cc. A manager's step and a job run one
-- after the other, in any order; what the system calls return is an argument. `none` is undefined
-- behaviour or an exception, such as that of a job, which `get` throws again in the manager. Of the
-- queue of jobs, which is Tervel's, no order is assumed: it gives back jobs that were put into it.
pub mod Counting
pub mod Answering
pub mod Start
pub mod Routing
use open_mem_db.Prelude.{
  ℕ, zero, suc, ◌+◌, ◌%◌, ◌^◌, Bool, true, false, Option, none, some, List, [], ◌∷◌, ◌++◌, ◌==◌,
  if◌then◌else◌, get_elem?, set, erase_idx, String, replicate,
}
use open_mem_db.Tervel.{Tervel}
use open_mem_db.Store.{DataStore, empty_store}
use open_mem_db.Wire.{Memory}
use open_mem_db.Wire.Server.{
  SysSend, Delivery, send_result, connection_send, d_send_part, SendStatus, d_send_full, e_send,
}
use open_mem_db.Client.Request.{
  ServerRecv, connection_recv, d_recv_full, d_recv_part, e_recv, e_close, RecvStatus, got,
  command_buffer, command_message,
}
use open_mem_db.Engine.Job.{JobResult}

-- class Connection: its socket is a number.
pub record Connection : Type 0 where
  pub is_valid : Bool
  pub socket_fd : ℕ

-- A Job in a queue: its number and its command
pub record Job : Type 0 where
  pub number : ℕ
  pub command : List ℕ

-- What the manager sends: where, for which job, the result, and what SendResult returns.
pub record Sent : Type 0 where
  pub connection : Connection
  pub job : JobResult
  pub delivery : Delivery

-- A command that came in: what the manager was asked.
pub record Asked : Type 0 where
  pub connection : Connection
  pub number : ℕ
  pub command : List ℕ

-- What AcceptConnection returns: a socket, none waiting, or an error
pub data Accepted : Type 0 where
  socket : ℕ → Accepted
  no_socket : Accepted
  accept_error : ℕ → Accepted

-- The system's answers in one round of the loop of Run: `net` and `memory` are those of a job's two
-- packets, and `greetings` those of the packet to a new connection, one for each try.
pub record Round : Type 0 where
  pub incoming : Accepted
  pub greetings : List SysSend
  pub buffer : Memory
  pub recvs : ℕ → ServerRecv
  pub net : ℕ → SysSend × SysSend
  pub memory : ℕ → Memory × Memory

abbrev pub bytes_of : ServerRecv → List ℕ
bytes_of (got bs) = bs
bytes_of r = []

-- The loop that sends the connection packet: none where the tries do not end.
unfoldable pub greet : List SysSend → Option (List SysSend)
greet [] = none
greet (r ∷ rs) = elim (connection_send true r) [ d_send_part ↦ greet rs | _ ↦ some rs ]

-- m_job_to_connection.find
unfoldable pub find_connection : ℕ → List (ℕ × Connection) → Option Connection
find_connection n [] = none
find_connection n ((k, conn) ∷ rest) = if k == n then some conn else find_connection n rest

-- A future's result, if it is ready, and the results of the others
unfoldable pub extract : ℕ → List JobResult → Option (JobResult × List JobResult)
extract n [] = none
extract n (r ∷ rs) = elim (r.job_number == n) [
  | true ↦ some (r, rs)
  | false ↦ elim (extract n rs) [ none ↦ none | some (found, rest) ↦ some (found, r ∷ rest) ]
]

-- What check_future_result leaves: the futures that wait, the results of those that are ready, and
-- the results that no future here is for.
pub record Polled : Type 0 where
  pub waiting : List ℕ
  pub results : List JobResult
  pub finished : List JobResult

-- The erase of the futures that are ready
unfoldable pub poll : List ℕ → List JobResult → Polled
poll [] finished = record { waiting = []; results = []; finished = finished }
poll (n ∷ ns) finished = elim (extract n finished) [
  | none ↦ (let p = poll ns finished in record p { waiting = n ∷ p.waiting })
  | some (r, rest) ↦ (let p = poll ns rest in record p { results = r ∷ p.results })
]

module _ (round : Round) where
  -- The loop over the results: one without a connection is passed over.
  unfoldable pub send_all : List (ℕ × Connection) → List JobResult → Option (List Sent)
  send_all known [] = some []
  send_all known (r ∷ rs) = elim (find_connection r.job_number known) [
    | none ↦ send_all known rs
    | some conn ↦
        elim (send_result conn.is_valid (round.net r.job_number).0 (round.net r.job_number).1
          (round.memory r.job_number).0 (round.memory r.job_number).1 r.result) [
            | none ↦ none
            | some d ↦ elim (send_all known rs) [
              | none ↦ none
              | some rest ↦ some (record { connection = conn; job = r; delivery = d } ∷ rest)
            ]
          ]
  ]

module _ ⦃t : Tervel⦄ where
  -- class WorkManager, with the static variables of ReceiveCommand and GetAvailableThread. A future
  -- in `thread_results` is the number of its job, and `finished` holds what the ready ones give.
  pub record Manager : Type 0 where
    pub queues : List (List Job)
    pub thread_results : List ℕ
    pub finished : List JobResult
    pub connections : List Connection
    pub job_to_connection : List (ℕ × Connection)
    pub job_number : ℕ
    pub idx : ℕ
    pub data_store : DataStore

  -- WorkManager(num_threads) after Initialize
  unfoldable pub start_manager : ℕ → Manager
  start_manager num_threads = record {
    queues = replicate num_threads [];
    thread_results = [];
    finished = [];
    connections = [];
    job_to_connection = [];
    job_number = 0;
    idx = 0;
    data_store = empty_store;
  }

  -- GetAvailableThread
  unfoldable pub get_available_thread : Manager → ℕ × Manager
  get_available_thread m = let idx = (m.idx + 1) % 8 in (idx, record m { idx = idx })

  -- The push of a job onto a thread's queue; no such thread is undefined.
  unfoldable pub enqueue : ℕ → Job → Manager → Option Manager
  enqueue k job m = elim (get_elem? m.queues k) [
    | none ↦ none
    | some q ↦ some (record m { queues = set m.queues k (q ++ job ∷ []) })
  ]

  -- The branch of ReceiveCommand for a message that came
  unfoldable pub accept_command : Connection → List ℕ → Manager → Option Manager
  accept_command conn command m =
      let n = (m.job_number + 1) % 2 ^ 32 in
      let m1 = record m {
        job_number = n;
        thread_results = m.thread_results ++ n ∷ [];
        job_to_connection = (n, conn) ∷ m.job_to_connection;
      } in
      let (k, m2) = get_available_thread m1 in
      enqueue k (record { number = n; command = command }) m2

  -- ReceiveCommand: whether the connection is to be removed
  unfoldable pub receive_command :
      Memory → Connection → ServerRecv → Manager → Option (Bool × Manager)
  receive_command buffer conn r m = elim (connection_recv conn.is_valid r) [
    | d_recv_full ↦ elim (command_message (command_buffer buffer (bytes_of r))) [
      | none ↦ none
      | some command ↦ elim (accept_command conn command m) [
        | none ↦ none
        | some m' ↦ some (false, m')
      ]
    ]
    | d_recv_part ↦ some (false, m)
    | e_recv ↦ some (true, m)
    | e_close ↦ some (true, m)
  ]

  -- The erase of the connections that receive_command removes
  unfoldable pub receive_all :
      Memory → (ℕ → ServerRecv) → List Connection → Manager → Option (List Connection × Manager)
  receive_all buffer recvs [] m = some ([], m)
  receive_all buffer recvs (conn ∷ conns) m =
      elim (receive_command buffer conn (recvs conn.socket_fd) m) [
        | none ↦ none
        | some (gone, m') ↦ elim (receive_all buffer recvs conns m') [
          | none ↦ none
          | some (rest, m'') ↦ some ((if gone then rest else conn ∷ rest), m'')
        ]
      ]

  -- The part of a round of Run that takes a new connection in: a connection is valid.
  unfoldable pub take_connection : Round → ℕ → Manager → Option Manager
  take_connection round fd m = elim (fd == 0) [
    | true ↦ some m
    | false ↦ elim (greet round.greetings) [
      | none ↦ none
      | some rest ↦ some (record m {
        connections = m.connections ++ record { is_valid = true; socket_fd = fd } ∷ [];
      })
    ]
  ]

  -- The rest of a round: commands in, futures polled, results out
  unfoldable pub serve : Round → Manager → Option (Manager × List Sent)
  serve round m = elim (receive_all round.buffer round.recvs m.connections m) [
    | none ↦ none
    | some (conns, m1) ↦
        (let p = poll m1.thread_results m1.finished in
          let m2 = record m1 {
            connections = conns;
            thread_results = p.waiting;
            finished = p.finished;
          } in
          elim (send_all round m2.job_to_connection p.results) [
            | none ↦ none
            | some sent ↦ some (m2, sent)
          ])
  ]

  -- A round of the loop of Run: whether it goes on, and what it sent
  unfoldable pub run_round : Round → Manager → Option (Bool × Manager × List Sent)
  run_round round m = elim round.incoming [
    | accept_error e ↦ some (false, m, [])
    | no_socket ↦ elim (serve round m) [ none ↦ none | some (m', sent) ↦ some (true, m', sent) ]
    | socket fd ↦ elim (take_connection round fd m) [
      | none ↦ none
      | some m1 ↦ elim (serve round m1) [ none ↦ none | some (m', sent) ↦ some (true, m', sent) ]
    ]
  ]

  -- A round of the loop of WorkThread::Run: `k` is the thread, and `i` says which of the jobs that it
  -- holds the queue gives back. Where it gives none, the round ends.
  module _ (execute : ℕ → List ℕ → DataStore → Option (JobResult × DataStore)) where
    unfoldable pub work : ℕ → ℕ → Manager → Option Manager
    work k i m = elim (get_elem? m.queues k) [
      | none ↦ none
      | some q ↦ elim (get_elem? q i) [
        | none ↦ some m
        | some job ↦ elim (execute job.number job.command m.data_store) [
          | none ↦ none
          | some (r, s) ↦ some (record m {
            queues = set m.queues k (erase_idx q i);
            finished = m.finished ++ r ∷ [];
            data_store = s;
          })
        ]
      ]
    ]
