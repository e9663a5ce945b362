-- ===== src/Manager/Routing/Accepting.antt =====
-- The invariant of Manager.Routing at the start, and through the branch of ReceiveCommand that queues
-- a job.
use open_mem_db.Prelude.{
  ℕ, suc, ◌+◌, ◌%◌, ◌^◌, ◌<◌, ◌≤◌, ◌≡◌, refl, sym, ap, ◌∙◌, inl, inr, Option, some, List, [], ◌∷◌,
  ◌++◌, arith, String, All-append, All-map, length, length-snoc, get_elem?, set, Option-cases,
  get_elem?-All, set-All, replicate-All, Bool-cases, ◌==◌, ==_iff, Every,
}
use open_mem_db.Tervel.{Tervel}
use open_mem_db.Store.{DataStore}
use open_mem_db.Builder.{StatementBuilder}
use open_mem_db.Sql.Token.{TokenPair}
use open_mem_db.Engine.Job.{JobResult}
use open_mem_db.Manager.Counting.{
  finished, sent, one, queued, queued-set, queued-replicate, count-append,
}
use open_mem_db.Manager.{
  Sent, Connection, Job, Asked, Manager, start_manager, get_available_thread, enqueue,
  accept_command,
}
use open_mem_db.Manager.Routing.{In-append, In-snoc, Numbered-snoc, Outcome, Queued, Known, Routed}

module _ ⦃t : Tervel⦄ (stof : String → Option ℕ)
    (grammar : DataStore → List TokenPair → StatementBuilder → Option StatementBuilder)
    (fuel : ℕ) where
  pub Outcome-append :
      (h g : List Asked) (r : JobResult)
      → Outcome stof grammar fuel h r
      → Outcome stof grammar fuel (h ++ g) r
  Outcome-append h g r o = record {
    asked = o.asked;
    is_in = In-append o.asked h g o.is_in;
    same_number = o.same_number;
    before = o.before;
    later = o.later;
    ran = o.ran;
  }

  Queued-append :
      (h g : List Asked) (j : Job)
      → Queued stof grammar fuel h j
      → Queued stof grammar fuel (h ++ g) j
  Queued-append h g j q = record {
    asked = q.asked;
    is_in = In-append q.asked h g q.is_in;
    same_number = q.same_number;
    same_command = q.same_command;
  }

  Known-append :
      (h g : List Asked) (e : ℕ × Connection)
      → Known stof grammar fuel h e
      → Known stof grammar fuel (h ++ g) e
  Known-append h g e k = record {
    asked = k.asked;
    is_in = In-append k.asked h g k.is_in;
    same_number = k.same_number;
    same_connection = k.same_connection;
  }

  pub start_manager-Routed : (n : ℕ) → Routed stof grammar fuel [] [] (start_manager n)
  unfolding start_manager
  start_manager-Routed n = record {
    numbered = tt;
    counted = refl;
    jobs = replicate-All _ n [] tt;
    known = tt;
    done = tt;
    once = λ k. omega (arith, queued-replicate k n);
    fresh = λ k _. omega (arith, queued-replicate k n);
  }

  module _ (out : List Sent) where
    module _ (h : List Asked) (m : Manager) (ok : Routed stof grammar fuel out h m) where
      abbrev pub asked_next : Connection → List ℕ → Asked
      asked_next conn command = record {
        connection = conn;
        number = (m.job_number + 1) % 2 ^ 32;
        command = command;
      }

      -- The count of a number when a job is queued
      queued_next :
          (c k : ℕ) (q : List Job) (job : Job)
          → get_elem? m.queues k ≡ some q
          → queued c (set m.queues k (q ++ job ∷ [])) ≡ queued c m.queues + one (job.number == c)
      queued_next c k q job e = omega (
        arith,
        queued-set c m.queues k q (q ++ job ∷ []) e,
        count-append (λ (j : Job). j.number) c q (job ∷ []),
      )

      once_more :
          (k : ℕ) (q : List Job) (job : Job) (c : ℕ)
          → job.number ≡ suc m.job_number
          → get_elem? m.queues k ≡ some q
          → queued c (set m.queues k (q ++ job ∷ [])) + finished c m.finished + sent c out ≤ 1
      once_more k q job c next e = elim (Bool-cases (job.number == c)) [
        | inl same ↦
            (let here = (==_iff job.number c).0 same in
              omega (
                arith,
                queued_next c k q job e,
                ap one same,
                ok.fresh c (omega (arith, here, next)),
              ))
        | inr other ↦ omega (arith, queued_next c k q job e, ap one other, ok.once c)
      ]

      fresh_still :
          (k : ℕ) (q : List Job) (job : Job) (c : ℕ)
          → job.number ≡ suc m.job_number
          → get_elem? m.queues k ≡ some q
          → job.number < c
          → queued c (set m.queues k (q ++ job ∷ [])) + finished c m.finished + sent c out ≡ 0
      fresh_still k q job c next e past = elim (Bool-cases (job.number == c)) [
        | inl same ↦ absurd (omega (arith, (==_iff job.number c).0 same, past))
        | inr other ↦
            omega
              (arith, queued_next c k q job e, ap one other, ok.fresh c (omega (arith, next, past)))
      ]

      pub accept_command-Routed :
          (conn : Connection) (command : List ℕ)
          → suc (length h) < 2 ^ 32
          → Every
              (Routed stof grammar fuel out (h ++ asked_next conn command ∷ []))
              (accept_command conn command m)
      unfolding accept_command get_available_thread enqueue
      accept_command-Routed conn command few =
          let g = asked_next conn command ∷ [] in
          let n : (m.job_number + 1) % 2 ^ 32 ≡ suc (length h) = omega (arith, ok.counted, few) in
          let i = In-snoc (asked_next conn command) h in
          elim (Option-cases (get_elem? m.queues ((m.idx + 1) % 8))) [
            | inl e ↦ rw (e) tt
            | inr (q, e) ↦
                (let old =
                    All-map (λ (js : List Job). All-map (Queued-append h g) js) m.queues ok.jobs in
                  rw (e) record {
                    numbered =
                        Numbered-snoc 0 h (asked_next conn command) ok.numbered (omega (arith, n));
                    counted = n ∙ sym (length-snoc h (asked_next conn command));
                    jobs = set-All _ m.queues ((m.idx + 1) % 8) _ old (
                        All-append _ q _ (get_elem?-All _ m.queues ((m.idx + 1) % 8) q old e) (
                          record { asked = _; is_in = i; same_number = refl; same_command = refl },
                          tt,
                        ));
                    known = (
                      record { asked = _; is_in = i; same_number = refl; same_connection = refl },
                      All-map (Known-append h g) m.job_to_connection ok.known,
                    );
                    done = All-map (Outcome-append h g) m.finished ok.done;
                    once = λ c. once_more _ q _ c (n ∙ ap suc (sym ok.counted)) e;
                    fresh = λ c past. fresh_still _ q _ c (n ∙ ap suc (sym ok.counted)) e past;
                  })
          ]
