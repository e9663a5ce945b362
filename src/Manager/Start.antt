-- ===== src/Manager/Start.antt =====
-- Initialize of database/source/workmanager/work_manager.cc: a notifier for each thread, and the
-- socket. What ListenToPort returns is an argument, and the threads themselves are those that
-- Manager.start_manager has queues for.
use open_mem_db.Prelude.{
  ℕ, zero, suc, ◌<◌, ◌≤◌, ◌≡◌, refl, Bool, true, false, Option, none, some, List, [], ◌∷◌, arith,
  replicate, inl, inr, ◌⊎◌, Bool-cases, if◌then◌else◌,
}

-- WorkManager::Errors, those that Initialize returns
pub data Errors : Type 0 where
  e_none e_net_err e_other_err : Errors

-- MAX_NUM_MUTEXES
abbrev pub max_num_mutexes : ℕ
max_num_mutexes = 64

-- The first notifier that is not used, by its `used` flag, taken for a thread
unfoldable pub use_notifier : List Bool → Option (List Bool)
use_notifier [] = none
use_notifier (false ∷ rest) = some (true ∷ rest)
use_notifier (true ∷ rest) = elim (use_notifier rest) [
  | none ↦ none
  | some rest' ↦ some (true ∷ rest')
]

-- The loop over the threads
unfoldable pub use_notifiers : ℕ → List Bool → Option (List Bool)
use_notifiers zero used = some used
use_notifiers (suc n) used = elim (use_notifier used) [
  | none ↦ none
  | some used' ↦ use_notifiers n used'
]

-- Initialize, where the port can be listened to or not
unfoldable pub initialize : ℕ → Bool → Errors
initialize num_threads listening =
    elim (use_notifiers num_threads (replicate max_num_mutexes false)) [
      | none ↦ e_other_err
      | some used ↦ if listening then e_none else e_net_err
    ]

free : List Bool → ℕ
free [] = 0
free (false ∷ rest) = suc (free rest)
free (true ∷ rest) = free rest

use_notifier-free :
    (used : List Bool)
    → ((use_notifier used ≡ none) × (free used ≡ 0))
      ⊎ ((u : List Bool) × (use_notifier used ≡ some u) × (free used ≡ suc (free u)))
unfolding use_notifier free
use_notifier-free [] = inl (refl, refl)
use_notifier-free (false ∷ rest) = inr (true ∷ rest, refl, refl)
use_notifier-free (true ∷ rest) = elim (use_notifier-free rest) [
  | inl (e, f) ↦ inl (rw (e) refl, f)
  | inr (u, e, f) ↦ inr (true ∷ u, rw (e) refl, f)
]

use_notifiers-free :
    (n : ℕ) (used : List Bool)
    → ((use_notifiers n used ≡ none) × (free used < n))
      ⊎ ((u : List Bool) × (use_notifiers n used ≡ some u) × (n ≤ free used))
unfolding use_notifiers
use_notifiers-free zero used = inr (used, refl, omega arith)
use_notifiers-free (suc n) used = elim (use_notifier-free used) [
  | inl (e, f) ↦ inl (rw (use_notifiers, e) refl, omega (arith, f))
  | inr (u, e, f) ↦ elim (use_notifiers-free n u) [
    | inl (g, few) ↦ inl (rw (use_notifiers, e) g, omega (arith, f, few))
    | inr (u', g, enough) ↦ inr (u', rw (use_notifiers, e) g, omega (arith, f, enough))
  ]
]

all_free : free (replicate max_num_mutexes false) ≡ 64
unfolding free
all_free = refl

-- The manager starts exactly when at most 64 threads are asked for and the port can be listened to;
-- for more threads Initialize gives E_OTHER_ERR, and for a port that cannot be listened to
-- E_NET_ERR.
pub initialize_lem :
    (num_threads : ℕ) (listening : Bool)
    → ((initialize num_threads listening ≡ e_other_err) × (64 < num_threads))
      ⊎ ((num_threads ≤ 64) × (listening ≡ false) × (initialize num_threads listening ≡ e_net_err))
      ⊎ ((num_threads ≤ 64) × (listening ≡ true) × (initialize num_threads listening ≡ e_none))
unfolding initialize
initialize_lem n listening =
    let start = replicate max_num_mutexes false in
    elim (use_notifiers-free n start) [
      | inl (e, few) ↦ inl (rw (initialize, e) refl, omega (arith, all_free, few))
      | inr (u, e, enough) ↦
          (let small : n ≤ 64 = omega (arith, all_free, enough) in
            elim (Bool-cases listening) [
              | inl t ↦ inr (inr (small, t, rw (initialize, e, t) refl))
              | inr f ↦ inr (inl (small, f, rw (initialize, e, f) refl))
            ])
    ]
