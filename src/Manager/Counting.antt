-- ===== src/Manager/Counting.antt =====
-- How often a job number stands in the queues, among the results, and in what is sent, of the manager
-- of database/source/workmanager/work_manager.cc.
use open_mem_db.Prelude.{
  ℕ, zero, suc, ◌+◌, ◌≤◌, ◌≡◌, refl, ap, inl, inr, Bool, true, false, Bool-cases, some, List, [],
  ◌∷◌, ◌++◌, ◌==◌, arith, get_elem?, set, erase_idx, replicate, Option-cases, Every,
}
use mathlib.Core.Option.{some-injective}
use open_mem_db.Tervel.{Tervel}
use open_mem_db.Wire.Server.{send_result}
use open_mem_db.Engine.Job.{JobResult}
use open_mem_db.Manager.{
  Connection, Job, Sent, Round, Manager, find_connection, extract, poll, send_all,
}

abbrev pub one : Bool → ℕ
one true = 1
one false = 0

module _ {ℓ} {A : Type ℓ} (f : A → ℕ) (n : ℕ) where
  abbrev pub count : List A → ℕ
  count [] = 0
  count (x ∷ xs) = one (f x == n) + count xs

  pub count-append : (xs ys : List A) → count (xs ++ ys) ≡ count xs + count ys
  count-append [] ys = omega arith
  count-append (x ∷ xs) ys = omega (arith, count-append xs ys)

  pub count-erase_idx :
      (xs : List A) (i : ℕ) (a : A)
      → get_elem? xs i ≡ some a
      → count (erase_idx xs i) + one (f a == n) ≡ count xs
  count-erase_idx [] i a e = absurd (cc e)
  count-erase_idx (x ∷ xs) zero a e =
      let same = ap (λ y. one (f y == n)) (some-injective _ _ e) in omega (arith, same)
  count-erase_idx (x ∷ xs) (suc i) a e = omega (arith, count-erase_idx xs i a e)

abbrev pub queued : ℕ → List (List Job) → ℕ
queued n [] = 0
queued n (q ∷ qs) = count (λ (j : Job). j.number) n q + queued n qs

abbrev pub finished : ℕ → List JobResult → ℕ
finished n rs = count (λ (r : JobResult). r.job_number) n rs

abbrev pub sent : ℕ → List Sent → ℕ
sent n xs = count (λ (x : Sent). x.job.job_number) n xs

pub queued-set :
    (n : ℕ) (qs : List (List Job)) (k : ℕ) (q q' : List Job)
    → get_elem? qs k ≡ some q
    → queued n (set qs k q') + count (λ (j : Job). j.number) n q
      ≡ queued n qs + count (λ (j : Job). j.number) n q'
queued-set n [] k q q' e = absurd (cc e)
queued-set n (x ∷ qs) zero q q' e =
    let same = ap (count (λ (j : Job). j.number) n) (some-injective _ _ e) in omega (arith, same)
queued-set n (x ∷ qs) (suc k) q q' e = omega (arith, queued-set n qs k q q' e)

pub queued-replicate : (n k : ℕ) → queued n (replicate k []) ≡ 0
queued-replicate n zero = refl
queued-replicate n (suc k) = omega (arith, queued-replicate n k)

extract-finished :
    (n k : ℕ) (done : List JobResult)
    → Every
        (λ (x : JobResult × List JobResult).
          one (x.0.job_number == n) + finished n x.1 ≡ finished n done)
        (extract k done)
unfolding extract
extract-finished n k [] = tt
extract-finished n k (r ∷ rs) = elim (Bool-cases (r.job_number == k)) [
  | inl e ↦ rw (extract, e) refl
  | inr e ↦
      (let h = extract-finished n k rs in
        elim (Option-cases (extract k rs)) [
          | inl f ↦ rw (extract, e, f) tt
          | inr (x, f) ↦ (let h' = rw (f) at h in rw (extract, e, f) (omega (arith, h')))
        ])
]

-- Polling moves results, and neither loses nor doubles one.
pub poll-finished :
    (n : ℕ) (waiting : List ℕ) (done : List JobResult)
    → finished n (poll waiting done).results + finished n (poll waiting done).finished
      ≡ finished n done
unfolding poll
poll-finished n [] done = omega arith
poll-finished n (k ∷ ks) done =
    let h = extract-finished n k done in
    elim (Option-cases (extract k done)) [
      | inl f ↦ rw (poll, f) (poll-finished n ks done)
      | inr (x, f) ↦
          (let h' = rw (f) at h in rw (poll, f) (omega (arith, h', poll-finished n ks x.1)))
    ]

pub send_all-sent :
    (n : ℕ) (r : Round) (known : List (ℕ × Connection)) (results : List JobResult)
    → Every (λ out. sent n out ≤ finished n results) (send_all r known results)
unfolding send_all
send_all-sent n r known [] = omega arith
send_all-sent n r known (x ∷ xs) =
    let rest = send_all-sent n r known xs in
    elim (Option-cases (find_connection x.job_number known)) [
      | inl e ↦ elim (Option-cases (send_all r known xs)) [
        | inl g ↦ rw (send_all, e, g) tt
        | inr (out, g) ↦ (let rest' = rw (g) at rest in rw (send_all, e, g) (omega (arith, rest')))
      ]
      | inr (conn, e) ↦
          elim (Option-cases (
            send_result conn.is_valid (r.net x.job_number).0 (r.net x.job_number).1
              (r.memory x.job_number).0 (r.memory x.job_number).1 x.result)) [
                | inl f ↦ rw (send_all, e, f) tt
                | inr (d, f) ↦ elim (Option-cases (send_all r known xs)) [
                  | inl g ↦ rw (send_all, e, f, g) tt
                  | inr (out, g) ↦
                      (let rest' = rw (g) at rest in rw (send_all, e, f, g) (omega (arith, rest')))
                ]
              ]
    ]

module _ ⦃t : Tervel⦄ where
  -- How often the manager and what it sent have a job's number.
  abbrev pub total : ℕ → Manager → List Sent → ℕ
  total n m out = queued n m.queues + finished n m.finished + sent n out
