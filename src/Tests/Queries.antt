-- ===== src/Tests/Queries.antt =====
-- A SELECT statement run on the store of the tests.
use open_mem_db.Prelude.{◌≡◌, refl, some, List, [], ◌∷◌, arith, length}
use open_mem_db.Types.{integer, big_int}
use open_mem_db.Schema.{ColumnReference}
use open_mem_db.Predicate.{nullptr}
use open_mem_db.Tervel.Listed.{listed}
use open_mem_db.Builder.{select_query}
use open_mem_db.Engine.{QueryData, of_query, execute_statement}
use open_mem_db.Engine.Select.{execute_statement_select}
use open_mem_db.Tests.{cell, schema, row, store, store-Shows}

-- SELECT v, id, v FROM t
abbrev columns : List ColumnReference
columns =
    record { table = "t"; column_idx = 1 }
    ∷ record { table = "t"; column_idx = 0 }
    ∷ record { table = "t"; column_idx = 1 }
    ∷ []

execute_statement_select_example :
    (d : QueryData) × (execute_statement 0
        (select_query (record {
          source_columns = columns;
          tables = "t" ∷ [];
          output_columns = "v" ∷ "id" ∷ "again" ∷ [];
          predicate = nullptr;
        }))
        store
      ≡ some (of_query d, store))
    × (d.records
        ≡ (cell big_int 10 ∷ cell integer 1 ∷ cell big_int 10 ∷ [])
          ∷ (cell big_int 20 ∷ cell integer 2 ∷ cell big_int 20 ∷ [])
          ∷ [])
    × (length d.metadata ≡ 3)
execute_statement_select_example =
    execute_statement_select store "t" schema 2 (row 2 0 10) (row 3 1 20 ∷ []) store-Shows 0 columns
      [] ("v" ∷ "id" ∷ "again" ∷ []) refl
      (
        (omega arith, (omega arith, (omega arith, tt))),
        ((omega arith, (omega arith, (omega arith, tt))), tt),
      )
