-- ===== src/Tests/Runs.antt =====
-- A sequence of calls on the store of the tests.
use open_mem_db.Prelude.{ℕ, ◌^◌, ◌<◌, ◌≡◌, refl, some, List, [], ◌∷◌, arith}
use open_mem_db.Types.{Fits, big_int, integer, null_data, pack}
use open_mem_db.Predicate.{op_eq, evaluate_operation}
use open_mem_db.Sql.Boolean.{is_true}
use open_mem_db.Store.Search.{satisfies}
use open_mem_db.Store.{DataStore}
use open_mem_db.Store.Search.Laws.{recs}
use open_mem_db.Store.Refinement.{Table, Call, insert, update, delete}
use open_mem_db.Store.Refinement.Runs.{after_all, answers, AllAllowed, run, Refines, run-Refines}
use open_mem_db.Tervel.Listed.{listed}
use open_mem_db.Tests.{cell, cell-Fits, schema, rows, store, store-Shows, v_is_10, v_is_20}

integer_cell-Fits : (v : ℕ) → v < 2 ^ 57 → Fits (cell integer v)
integer_cell-Fits v h = record {
  status_fits = omega arith;
  type_fits = omega arith;
  value_fits = h;
}

blank-Fits : Fits null_data
blank-Fits = record { status_fits = omega arith; type_fits = omega arith; value_fits = omega arith }

abbrev table : Table
table = record { counter = 2; entries = recs rows }

-- INSERT of a row, UPDATE of the rows with v = 10, DELETE of those with v = 20, and an INSERT that is
-- refused
abbrev calls : List Call
calls =
    insert (null_data ∷ cell big_int 30 ∷ [])
    ∷ update v_is_10 (null_data ∷ cell big_int 40 ∷ [])
    ∷ delete v_is_20
    ∷ insert (cell big_int 30 ∷ [])
    ∷ []

store-Refines : Refines store "t" schema table
store-Refines = record {
  rows = rows;
  shown = store-Shows;
  same = refl;
  well_formed = (
    record {
      long = refl;
      cells_fit = (integer_cell-Fits 1 (omega arith), (cell-Fits 10 (omega arith), tt));
      id_fits = omega arith;
    },
    (
      record {
        long = refl;
        cells_fit = (integer_cell-Fits 2 (omega arith), (cell-Fits 20 (omega arith), tt));
        id_fits = omega arith;
      },
      tt,
    ),
  );
}

calls-AllAllowed : AllAllowed schema.columns calls table
unfolding satisfies evaluate_operation op_eq is_true pack
calls-AllAllowed = (
  λ h. (integer_cell-Fits 3 (omega arith), (cell-Fits 30 (omega arith), tt)),
  (
    (
      omega arith,
      refl,
      (
        record { fits = blank-Fits; clear = refl },
        (record { fits = cell-Fits 40 (omega arith); clear = refl }, tt),
      ),
      (λ h. refl, (λ h. absurd (cc h), (λ h. absurd (cc h), tt))),
      omega arith,
    ),
    ((omega arith, omega arith), (λ h. absurd (cc h), tt)),
  ),
)

run-Refines_example :
    (s : DataStore) × (run "t" calls store ≡ some (answers schema.columns calls table, s))
    × Refines s "t" schema (after_all schema.columns calls table)
run-Refines_example = run-Refines "t" schema calls store table store-Refines calls-AllAllowed
