-- ===== src/Manager/Answering.antt =====
-- A command from the client and back to it: database/libomdb/connection.cc with WorkManager::Run of
-- database/source/workmanager/work_manager.cc and WorkThread::Run, in two rounds and one job.
use open_mem_db.Prelude.{
  ℕ, ◌+◌, ◌%◌, ◌^◌, ◌<◌, ◌≤◌, ◌≡◌, refl, ap, Bool, true, false, Option, some, List, [], ◌∷◌, ◌==◌,
  ==_self, ==_iff, All, length, get_elem?, get_elem?-set, set,
}
use open_mem_db.Result.{ManipResult}
use open_mem_db.Tervel.{Tervel}
use open_mem_db.Store.{DataStore}
use open_mem_db.Engine.{of_command}
use open_mem_db.Engine.Job.{JobResult}
use open_mem_db.Wire.{Memory, le}
use open_mem_db.Wire.Server.{SysSend, accepted, connection_send, send_result, Delivery}
use open_mem_db.Client.{ResultHolder, parse_command_result, send_message, bytes}
use open_mem_db.Client.Rows.{IsChar}
use open_mem_db.Client.Request.{
  CommandType, CommandPacket, build_packet, serialize_command_packet, command_message,
  command_buffer, command_message-build_packet, connection_recv, got, again,
}
use open_mem_db.Client.RoundTrip.Command.{answer_of, parse_command_result-send_result}
use open_mem_db.Manager.{
  Connection, Job, Sent, no_socket, socket, Round, Manager, Polled, take_connection, greet,
  get_available_thread, enqueue, accept_command, receive_command, receive_all, find_connection,
  extract, poll, send_all, serve, run_round, work,
}

-- A round in which a client connects at a socket, and the greeting and its packet go through
abbrev pub arriving : Memory → ℕ → List ℕ → Round
arriving buffer fd packet = record {
  incoming = socket fd;
  greetings = accepted 52 ∷ [];
  buffer = buffer;
  recvs = λ i. got packet;
  net = λ n. (accepted 552, accepted 10);
  memory = λ n. (buffer, buffer);
}

-- A round in which nobody connects and nothing comes in
abbrev pub leaving : Memory → SysSend → SysSend → Round
leaving heap r1 r2 = record {
  incoming = no_socket;
  greetings = [];
  buffer = heap;
  recvs = λ i. again;
  net = λ n. (r1, r2);
  memory = λ n. (heap, heap);
}

module _ ⦃t : Tervel⦄ where
  -- A manager without connections and futures
  abbrev pub idle : List (List Job) → List (ℕ × Connection) → ℕ → ℕ → DataStore → Manager
  idle queues known n i s = record {
    queues = queues;
    thread_results = [];
    finished = [];
    connections = [];
    job_to_connection = known;
    job_number = n;
    idx = i;
    data_store = s;
  }

  module _ (queues : List (List Job)) (known : List (ℕ × Connection)) (n i fd : ℕ) (s : DataStore)
      (free : get_elem? queues ((i + 1) % 8) ≡ some []) (there : (fd == 0) ≡ false)
      (command : List ℕ) where
    abbrev conn : Connection
    conn = record { is_valid = true; socket_fd = fd }

    abbrev number : ℕ
    number = (n + 1) % 2 ^ 32

    abbrev job : Job
    job = record { number = number; command = command }

    abbrev busy : List (List Job) → List ℕ → List JobResult → DataStore → Manager
    busy qs waiting done s' = record {
      queues = qs;
      thread_results = waiting;
      finished = done;
      connections = conn ∷ [];
      job_to_connection = (number, conn) ∷ known;
      job_number = number;
      idx = (i + 1) % 8;
      data_store = s';
    }

    abbrev queues1 : List (List Job)
    queues1 = set queues ((i + 1) % 8) (job ∷ [])

    arrived :
        (buffer : Memory) (b : ℕ) (bs : List ℕ)
        → command_message (command_buffer buffer (b ∷ bs)) ≡ some command
        → run_round (arriving buffer fd (b ∷ bs)) (idle queues known n i s)
          ≡ some (true, busy queues1 (number ∷ []) [] s, [])
    unfolding run_round take_connection greet connection_send serve receive_all receive_command
        connection_recv accept_command get_available_thread enqueue poll extract send_all
    arrived buffer b bs came =
        rw (run_round, take_connection, there)
          (rw (serve, receive_all, receive_command, came)
            (rw (accept_command, enqueue, get_available_thread, free) refl))

    queues2 : List (List Job)
    queues2 = set queues1 ((i + 1) % 8) []

    worked :
        (execute : ℕ → List ℕ → DataStore → Option (JobResult × DataStore)) (r : JobResult)
        (s' : DataStore)
        → execute number command s ≡ some (r, s')
        → work execute ((i + 1) % 8) 0 (busy queues1 (number ∷ []) [] s)
          ≡ some (busy queues2 (number ∷ []) (r ∷ []) s')
    unfolding work queues2
    worked execute r s' ran =
        rw (work, get_elem?-set queues ((i + 1) % 8) [] (job ∷ []) free) (rw (work, ran) refl)

    ready :
        (r : JobResult)
        → r.job_number ≡ number
        → poll (number ∷ []) (r ∷ []) ≡ record { waiting = []; results = r ∷ []; finished = [] }
    unfolding poll extract
    ready r same =
        let here : (r.job_number == number) ≡ true = (==_iff r.job_number number).1 same in
        rw (poll, extract, here) refl

    left :
        (heap : Memory) (r1 r2 : SysSend) (qs : List (List Job)) (s' : DataStore) (r : ManipResult)
        (d : Delivery)
        → send_result true r1 r2 heap heap (of_command r) ≡ some d
        → run_round
            (leaving heap r1 r2)
            (busy qs (number ∷ []) (record { job_number = number; result = of_command r } ∷ []) s')
          ≡ some (
            true,
            busy qs [] [] s',
            record {
              connection = conn;
              job = record { job_number = number; result = of_command r };
              delivery = d;
            }
                ∷ [],
          )
    unfolding run_round serve receive_all receive_command connection_recv send_all find_connection
    left heap r1 r2 qs s' r d went =
        let done : JobResult = record { job_number = number; result = of_command r } in
        let out : List Sent = record { connection = conn; job = done; delivery = d } ∷ [] in
        let after : Polled → Option (Bool × Manager × List Sent) =
          λ p. some (true, busy qs p.waiting p.finished s', out) in
        let last = ap after (ready done refl) in
        rw (run_round, serve, receive_all, receive_command, ready done refl)
          (rw (send_all, find_connection, ==_self number) (rw (send_all, went) last))

    -- The way of a command whose job gives `r`, from the client's packet to the client's result
    abbrev pub Answered :
        CommandType
        → List ℕ
        → Memory
        → Memory
        → Memory
        → (ℕ → List ℕ → DataStore → Option (JobResult × DataStore))
        → ManipResult
        → ℕ
        → ℕ
        → ℕ
        → Type 0
    Answered kind fresh heap m1 m2 execute r n1 n2 k =
        (p : CommandPacket) × (asked : Manager) × (done : Manager) × (answered : Manager)
        × (b1 : List ℕ) × (b2 : List ℕ) × (holder : ResultHolder) × (build_packet kind command fresh
            ≡ some p)
        × (run_round (arriving heap fd (serialize_command_packet p)) (idle queues known n i s)
            ≡ some (true, asked, []))
        × (work execute ((i + 1) % 8) 0 asked ≡ some done)
        × (run_round (leaving heap (accepted n1) (accepted n2)) done
            ≡ some (
              true,
              answered,
              record {
                connection = conn;
                job = record { job_number = number; result = of_command r };
                delivery = record { returned = true; sent = b1 ∷ b2 ∷ [] };
              }
                  ∷ [],
            ))
        × (send_message (accepted k) (bytes b1) (λ size. bytes b2) m1 m2 ≡ some holder)
        × (parse_command_result holder ≡ answer_of r)

    -- A command of fewer than 300 characters, none of them zero, that a client sends to a manager
    -- without connections or futures, whose next thread is there and has no job: the client connects
    -- and the command goes into the thread's queue; if its job ends with the result of a command that
    -- affected fewer than 2^32 rows, the next round sends this result to the client. The client gets
    -- its status and no rows affected if the command affected none; else it copies bytes from past the
    -- end of the packet, which is undefined. The system takes every packet whole.
    pub command-Answered :
        (kind : CommandType) (fresh : List ℕ) (heap m1 m2 : Memory)
        (execute : ℕ → List ℕ → DataStore → Option (JobResult × DataStore)) (r : ManipResult)
        (s' : DataStore) (n1 n2 k : ℕ)
        → length command < 300
        → All IsChar command
        → length fresh ≡ 300
        → execute number command s
          ≡ some (record { job_number = number; result = of_command r }, s')
        → r.rows_affected < 2 ^ 32
        → 552 ≤ n1
        → 10 ≤ n2
        → Answered kind fresh heap m1 m2 execute r n1 n2 k
    unfolding serialize_command_packet le
    command-Answered kind fresh heap m1 m2 execute r s' n1 n2 k short chars room ran few e1 e2 =
        let (p, built, long, came) =
          command_message-build_packet kind command fresh heap short chars room in
        let (b1, b2, holder, went, got_it, parsed) =
          parse_command_result-send_result r few n1 n2 k heap heap m1 m2 e1 e2 in
        (
          p,
          busy queues1 (number ∷ []) [] s,
          busy queues2 (number ∷ []) (record { job_number = number; result = of_command r } ∷ [])
              s',
          busy queues2 [] [] s',
          b1,
          b2,
          holder,
          built,
          arrived heap _ _ came,
          worked execute (record { job_number = number; result = of_command r }) s' ran,
          left heap (accepted n1) (accepted n2) queues2 s' r _ went,
          got_it,
          parsed,
        )
