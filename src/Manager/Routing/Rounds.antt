-- ===== src/Manager/Routing/Rounds.antt =====
-- The invariant of Manager.Routing through the rounds of WorkManager::Run and WorkThread::Run, and
-- what it says of the results that are sent.
use open_mem_db.Prelude.{
  ℕ, ◌+◌, ◌^◌, ◌<◌, ◌≤◌, ◌≡◌, refl, inl, inr, Bool, true, Bool-cases, Option, none, some, List, [],
  ◌∷◌, ◌++◌, ◌==◌, arith, String, All, All-append, All-map, length, append-nil, length-append,
  Option-cases, Every,
}
use open_mem_db.Tervel.{Tervel}
use open_mem_db.Store.{DataStore}
use open_mem_db.Builder.{StatementBuilder}
use open_mem_db.Sql.Token.{TokenPair}
use open_mem_db.Manager.Counting.{finished, sent, count-append, poll-finished, send_all-sent}
use open_mem_db.Manager.{
  Connection, Sent, Asked, Accepted, accept_error, no_socket, socket, Round, Manager, poll,
  send_all, receive_all, take_connection, greet, serve, run_round,
}
use open_mem_db.Manager.Routing.{
  heard, heard_in, Outcome, Answers, Routed, History, begin, round, thread,
}
use open_mem_db.Manager.Routing.Results.{poll-All, work-Routed, Answers-append, send_all-Answers}
use open_mem_db.Manager.Routing.Accepting.{start_manager-Routed}
use open_mem_db.Manager.Routing.Receiving.{receive_all-Routed}

module _ ⦃t : Tervel⦄ (stof : String → Option ℕ)
    (grammar : DataStore → List TokenPair → StatementBuilder → Option StatementBuilder)
    (fuel : ℕ) where
  -- What a round keeps, with the commands that came in it.
  abbrev Kept : List Sent → List Asked → Manager × List Sent → Type 0
  Kept out h p = Routed stof grammar fuel (out ++ p.1) h p.0 × All (Answers stof grammar fuel h) p.1

  -- Results move from the futures to what is sent.
  served_total :
      (c : ℕ) (r : Round) (m : Manager) (out new : List Sent)
      → send_all r m.job_to_connection (poll m.thread_results m.finished).results ≡ some new
      → finished c (poll m.thread_results m.finished).finished + sent c (out ++ new)
        ≤ finished c m.finished + sent c out
  served_total c r m out new e =
      let p = poll m.thread_results m.finished in
      let h = send_all-sent c r m.job_to_connection p.results in
      let few = rw (e) at h in
      omega (
        arith,
        poll-finished c m.thread_results m.finished,
        few,
        count-append (λ (x : Sent). x.job.job_number) c out new,
      )

  serve-Kept :
      (out : List Sent) (h : List Asked) (m : Manager) (r : Round)
      → Routed stof grammar fuel out h m
      → length h + length (heard r.buffer r.recvs m.connections m.job_number) < 2 ^ 32
      → Every (Kept out (h ++ heard r.buffer r.recvs m.connections m.job_number)) (serve r m)
  unfolding serve
  serve-Kept out h m r ok few =
      let g = h ++ heard r.buffer r.recvs m.connections m.job_number in
      let first =
        receive_all-Routed stof grammar fuel out r.buffer r.recvs m.connections h m ok few in
      elim (Option-cases (receive_all r.buffer r.recvs m.connections m)) [
        | inl e ↦ rw (serve, e) tt
        | inr ((conns, m1), e) ↦
            (let ok1 : Routed stof grammar fuel out g m1 = rw (e) at first in
              let polled =
                poll-All (Outcome stof grammar fuel g) m1.thread_results m1.finished ok1.done in
              let p = poll m1.thread_results m1.finished in
              let answers =
                send_all-Answers stof grammar fuel g r m1.job_to_connection p.results ok1.numbered
                  ok1.known polled.0 in
              elim (Option-cases (send_all r m1.job_to_connection p.results)) [
                | inl f ↦ rw (serve, e, f) tt
                | inr (sent, f) ↦
                    rw (serve, e, f)
                      (
                        record {
                          numbered = ok1.numbered;
                          counted = ok1.counted;
                          jobs = ok1.jobs;
                          known = ok1.known;
                          done = polled.1;
                          once = λ c. omega (arith, served_total c r m1 out sent f, ok1.once c);
                          fresh = λ c past.
                              omega (arith, served_total c r m1 out sent f, ok1.fresh c past);
                        },
                        rw (f) at answers,
                      )
              ])
      ]

  with_connections :
      (out : List Sent) (h : List Asked) (m : Manager) (conns : List Connection)
      → Routed stof grammar fuel out h m
      → Routed stof grammar fuel out h (record m { connections = conns })
  with_connections out h m conns ok = record {
    numbered = ok.numbered;
    counted = ok.counted;
    jobs = ok.jobs;
    known = ok.known;
    done = ok.done;
    once = ok.once;
    fresh = ok.fresh;
  }

  abbrev KeptOn : List Sent → List Asked → Bool × Manager × List Sent → Type 0
  KeptOn out h p = Kept out h (p.1, p.2)

  served :
      (out : List Sent) (h : List Asked) (m : Manager) (r : Round)
      → Every (Kept out h) (serve r m)
      → Every
          (KeptOn out h)
          (elim (serve r m) [ none ↦ none | some (m', sent) ↦ some (true, m', sent) ])
  served out h m r k = elim (Option-cases (serve r m)) [
    | inl e ↦ rw (e) tt
    | inr (p, e) ↦ rw (e) (rw (e) at k)
  ]

  run_round-Kept :
      (out : List Sent) (h : List Asked) (m : Manager) (r : Round)
      → Routed stof grammar fuel out h m
      → length h + length (heard_in r m) < 2 ^ 32
      → Every (KeptOn out (h ++ heard_in r m)) (run_round r m)
  unfolding run_round take_connection
  run_round-Kept out h m r ok few = incoming r.incoming refl
    where
      incoming :
          (i : Accepted) → r.incoming ≡ i → Every (KeptOn out (h ++ heard_in r m)) (run_round r m)
      incoming (accept_error n) e =
          rw (run_round, heard_in, e, append-nil h, append-nil out) (ok, tt)
      incoming no_socket e =
          rw (run_round, heard_in, e)
            (served out _ m r (serve-Kept out h m r ok (rw (heard_in, e) at few)))
      incoming (socket fd) e = elim (Bool-cases (fd == 0)) [
        | inl f ↦
            rw (run_round, heard_in, take_connection, e, f)
              (served out _ m r (serve-Kept out h m r ok (rw (heard_in, e, f) at few)))
        | inr f ↦ elim (Option-cases (greet r.greetings)) [
          | inl g ↦ rw (run_round, take_connection, e, f, g) tt
          | inr (rest, g) ↦
              (let m1 = record m {
                connections = m.connections ++ record { is_valid = true; socket_fd = fd } ∷ [];
              } in
                rw (run_round, heard_in, take_connection, e, f, g)
                  (served out _ m1 r (
                    serve-Kept out h m1 r (with_connections out h m _ ok)
                      (rw (heard_in, e, f) at few))))
        ]
      ]

  history_lem :
      (h : List Asked) (m : Manager) (out : List Sent)
      → History stof grammar fuel h m out
      → length h < 2 ^ 32
      → Routed stof grammar fuel out h m × All (Answers stof grammar fuel h) out
  history_lem h m out (begin n) few = (start_manager-Routed stof grammar fuel n, tt)
  history_lem h m out (round {h = h0} {m = m0} {out = out0} past r go m' sent e) few =
      let size = length-append h0 (heard_in r m0) in
      let (ok, answered) = history_lem h0 m0 out0 past (omega (arith, few, size)) in
      let kept = run_round-Kept out0 h0 m0 r ok (omega (arith, few, size)) in
      let k = rw (e) at kept in
      (
        k.0,
        All-append _ out0 sent
            (All-map (Answers-append stof grammar fuel h0 (heard_in r m0)) out0 answered) k.1,
      )
  history_lem h m out (thread {m = m0} past k i m' e) few =
      let (ok, answered) = history_lem h m0 out past few in
      let kept = work-Routed stof grammar fuel out h m0 k i ok in (rw (e) at kept, answered)

  -- What the manager sends, over any history from its start in which fewer than 2^32 commands come
  -- in, whatever order the rounds and the jobs have: each result goes to the socket number of the
  -- command that has the result's job number, and is that of running this command's text on some
  -- store.
  pub sent-Answers :
      (h : List Asked) (m : Manager) (out : List Sent)
      → History stof grammar fuel h m out
      → length h < 2 ^ 32
      → All (Answers stof grammar fuel h) out
  sent-Answers h m out past few = (history_lem h m out past few).1

  -- Over any history from the manager's start in which fewer than 2^32 commands come in, whatever
  -- order the rounds and the jobs have, no job number is sent a result twice.
  pub sent_once :
      (h : List Asked) (m : Manager) (out : List Sent) (n : ℕ)
      → History stof grammar fuel h m out
      → length h < 2 ^ 32
      → sent n out ≤ 1
  sent_once h m out n past few = omega (arith, (history_lem h m out past few).0.once n)
