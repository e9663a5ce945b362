-- ===== src/Manager/Routing/Results.antt =====
-- The results of jobs in Manager.Routing's invariant: the work of the threads, the futures, and
-- SendResult's loop in WorkManager::Run.
use mathlib.Core.Path.{subst}
use mathlib.Core.Option.{some-injective}
use open_mem_db.Prelude.{
  ℕ, ◌+◌, ◌≡◌, sym, ap, ◌∙◌, inl, inr, Bool-cases, Option, some, List, [], ◌∷◌, ◌++◌, ◌==◌, ==_iff,
  arith, String, All, All-append, get_elem?, erase_idx, set, Option-cases, get_elem?-All, set-All,
  erase_idx-All, Every,
}
use open_mem_db.Tervel.{Tervel}
use open_mem_db.Store.{DataStore}
use open_mem_db.Wire.Server.{send_result, Delivery}
use open_mem_db.Builder.{StatementBuilder}
use open_mem_db.Sql.Token.{TokenPair}
use open_mem_db.Engine.Job.{JobResult, run_job, run_statement, parse, text_of}
use open_mem_db.Manager.Counting.{one, queued, finished, queued-set, count-erase_idx, count-append}
use open_mem_db.Manager.{
  Connection, Job, Sent, Asked, Round, Manager, find_connection, extract, poll, send_all, work,
}
use open_mem_db.Manager.Routing.{
  In-append, In-unique, Numbered, Outcome, Answers, Queued, Known, Routed,
}

module _ {ℓ} (P : JobResult → Type ℓ) where
  extract-All :
      (n : ℕ) (done : List JobResult)
      → All P done
      → Every (λ (x : JobResult × List JobResult). P x.0 × All P x.1) (extract n done)
  unfolding extract
  extract-All n [] h = tt
  extract-All n (r ∷ rs) h = elim (Bool-cases (r.job_number == n)) [
    | inl e ↦ rw (extract, e) (h.0, h.1)
    | inr e ↦
        (let k = extract-All n rs h.1 in
          elim (Option-cases (extract n rs)) [
            | inl f ↦ rw (extract, e, f) tt
            | inr (x, f) ↦ (let k' = rw (f) at k in rw (extract, e, f) (k'.0, (h.0, k'.1)))
          ])
  ]

  -- Polling loses no result and makes none up.
  pub poll-All :
      (waiting : List ℕ) (done : List JobResult)
      → All P done
      → All P (poll waiting done).results × All P (poll waiting done).finished
  unfolding poll
  poll-All [] done h = (tt, h)
  poll-All (n ∷ ns) done h =
      let k = extract-All n done h in
      elim (Option-cases (extract n done)) [
        | inl f ↦ rw (poll, f) (poll-All ns done h)
        | inr (x, f) ↦
            (let k' = rw (f) at k in
              let rest = poll-All ns x.1 k'.1 in rw (poll, f) ((k'.0, rest.0), rest.1))
      ]

find_connection-All {ℓ} :
    (P : ℕ × Connection → Type ℓ) (n : ℕ) (known : List (ℕ × Connection)) (conn : Connection)
    → All P known
    → find_connection n known ≡ some conn
    → P (n, conn)
unfolding find_connection
find_connection-All P n [] conn h e = absurd (cc e)
find_connection-All P n ((k, c) ∷ rest) conn h e = elim (Bool-cases (k == n)) [
  | inl f ↦
      (let same = some-injective _ _ (rw (find_connection, f) at e) in
        subst P (ap (λ i. (i, c)) ((==_iff k n).0 f) ∙ ap (λ x. (n, x)) same) h.0)
  | inr f ↦ find_connection-All P n rest conn h.1 (rw (find_connection, f) at e)
]

module _ ⦃t : Tervel⦄ (stof : String → Option ℕ)
    (grammar : DataStore → List TokenPair → StatementBuilder → Option StatementBuilder)
    (fuel : ℕ) where
  run_job-job_number :
      (n : ℕ) (command : List ℕ) (s s' : DataStore) (r : JobResult)
      → run_job stof grammar fuel n command s ≡ some (r, s')
      → r.job_number ≡ n
  unfolding run_job
  run_job-job_number n command s s' r e =
      elim (Option-cases (parse stof grammar (text_of command) s)) [
        | inl f ↦ absurd (cc (rw (run_job, f) at e))
        | inr (p, f) ↦ elim (Option-cases (run_statement stof grammar fuel p s)) [
          | inl g ↦ absurd (cc (rw (run_job, f, g) at e))
          | inr (x, g) ↦ sym (
              ap (λ (y : JobResult × DataStore). y.0.job_number)
                (some-injective _ _ (rw (run_job, f, g) at e)))
        ]
      ]

  outcome_of :
      (h : List Asked) (job : Job) (s s' : DataStore) (r : JobResult)
      → Queued stof grammar fuel h job
      → run_job stof grammar fuel job.number job.command s ≡ some (r, s')
      → Outcome stof grammar fuel h r
  outcome_of h job s s' r q e = record {
    asked = q.asked;
    is_in = q.is_in;
    same_number = q.same_number ∙ sym (run_job-job_number job.number job.command s s' r e);
    before = s;
    later = s';
    ran = rw (q.same_number, q.same_command) e;
  }

  -- A job that is run moves from its queue to the results.
  worked :
      (c : ℕ) (m : Manager) (k i : ℕ) (q : List Job) (job : Job) (s' : DataStore) (r : JobResult)
      → get_elem? m.queues k ≡ some q
      → get_elem? q i ≡ some job
      → run_job stof grammar fuel job.number job.command m.data_store ≡ some (r, s')
      → queued c (set m.queues k (erase_idx q i)) + finished c (m.finished ++ r ∷ [])
        ≡ queued c m.queues + finished c m.finished
  worked c m k i q job s' r e f g =
      let same = run_job-job_number job.number job.command m.data_store s' r g in
      omega (
        arith,
        queued-set c m.queues k q (erase_idx q i) e,
        count-erase_idx (λ (j : Job). j.number) c q i job f,
        count-append (λ (x : JobResult). x.job_number) c m.finished (r ∷ []),
        ap (λ x. one (x == c)) same,
      )

  -- A job that is run has the result of the command it was made for.
  pub work-Routed :
      (out : List Sent) (h : List Asked) (m : Manager) (k i : ℕ)
      → Routed stof grammar fuel out h m
      → Every (Routed stof grammar fuel out h) (work (run_job stof grammar fuel) k i m)
  unfolding work
  work-Routed out h m k i ok = elim (Option-cases (get_elem? m.queues k)) [
    | inl e ↦ rw (work, e) tt
    | inr (q, e) ↦ elim (Option-cases (get_elem? q i)) [
      | inl f ↦ rw (work, e, f) ok
      | inr (job, f) ↦
          elim (Option-cases (run_job stof grammar fuel job.number job.command m.data_store)) [
            | inl g ↦ rw (work, e, f, g) tt
            | inr ((r, s), g) ↦
                (let mine = get_elem?-All _ m.queues k q ok.jobs e in
                  let asked = get_elem?-All _ q i job mine f in
                  rw (work, e, f, g)
                    record {
                      numbered = ok.numbered;
                      counted = ok.counted;
                      jobs =
                          set-All _ m.queues k (erase_idx q i) ok.jobs (erase_idx-All _ q i mine);
                      known = ok.known;
                      done =
                          All-append _ m.finished _ ok.done
                            (outcome_of h job m.data_store s r asked g, tt);
                      once = λ c. omega (arith, worked c m k i q job s r e f g, ok.once c);
                      fresh =
                          λ c past. omega (arith, worked c m k i q job s r e f g, ok.fresh c past);
                    })
          ]
    ]
  ]

  pub Answers-append :
      (h g : List Asked) (x : Sent)
      → Answers stof grammar fuel h x
      → Answers stof grammar fuel (h ++ g) x
  Answers-append h g x a = record {
    outcome = record {
      asked = a.outcome.asked;
      is_in = In-append a.outcome.asked h g a.outcome.is_in;
      same_number = a.outcome.same_number;
      before = a.outcome.before;
      later = a.outcome.later;
      ran = a.outcome.ran;
    };
    to_asker = a.to_asker;
  }

  answer :
      (h : List Asked) (x : JobResult) (conn : Connection) (d : Delivery)
      → Numbered 0 h
      → Outcome stof grammar fuel h x
      → Known stof grammar fuel h (x.job_number, conn)
      → Answers stof grammar fuel h (record { connection = conn; job = x; delivery = d })
  answer h x conn d n o k =
      let same : k.asked ≡ o.asked =
        In-unique 0 h k.asked o.asked n k.is_in o.is_in (k.same_number ∙ sym o.same_number) in
      record {
        outcome = o;
        to_asker = sym (ap (λ (a : Asked). a.connection) same) ∙ k.same_connection;
      }

  pub send_all-Answers :
      (h : List Asked) (r : Round) (known : List (ℕ × Connection)) (results : List JobResult)
      → Numbered 0 h
      → All (Known stof grammar fuel h) known
      → All (Outcome stof grammar fuel h) results
      → Every (All (Answers stof grammar fuel h)) (send_all r known results)
  unfolding send_all
  send_all-Answers h r known [] n k o = tt
  send_all-Answers h r known (x ∷ xs) n k o =
      let rest = send_all-Answers h r known xs n k o.1 in
      elim (Option-cases (find_connection x.job_number known)) [
        | inl e ↦ rw (send_all, e) rest
        | inr (conn, e) ↦
            elim (Option-cases (
              send_result conn.is_valid (r.net x.job_number).0 (r.net x.job_number).1
                (r.memory x.job_number).0 (r.memory x.job_number).1 x.result)) [
                  | inl f ↦ rw (send_all, e, f) tt
                  | inr (d, f) ↦ elim (Option-cases (send_all r known xs)) [
                    | inl g ↦ rw (send_all, e, f, g) tt
                    | inr (out, g) ↦
                        rw (send_all, e, f, g)
                          (
                            answer h x conn d n o.0
                                (find_connection-All _ x.job_number known conn k e),
                            rw (g) at rest,
                          )
                  ]
                ]
      ]
