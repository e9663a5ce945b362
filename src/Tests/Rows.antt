-- ===== src/Tests/Rows.antt =====
-- Rows of the store: insertion, selection, update and deletion at concrete inputs.
use open_mem_db.Prelude.{
  ◌%◌, true, filter_by, none, ℕ, ◌+◌, ◌<◌, ◌^◌, ◌≡◌, refl, inr, some, List, [], ◌∷◌, arith, All,
  ◌&&◌, ◌||◌,
}
use open_mem_db.Types.{Fits, integer, big_int, null_data, pack}
use open_mem_db.Result.{RecordData, manip, success, failure, done, kept, err_failed_constraint}
use open_mem_db.Expr.{and, or}
use open_mem_db.Predicate.{nested, nullptr, value, op_eq, evaluate_operation}
use open_mem_db.Sql.Boolean.{is_true}
use open_mem_db.Tervel.Listed.{listed}
use open_mem_db.Store.{DataStore}
use open_mem_db.Store.Records.{copy_record, update_record}
use open_mem_db.Store.Records.Laws.{Storable, copy-update_record}
use open_mem_db.Store.Constraints.{schema_checker}
use open_mem_db.Store.Constraints.Laws.{fill, schema_checker_lem}
use open_mem_db.Store.Search.{RecordReference, satisfies}
use open_mem_db.Store.Search.Laws.{matches, IsWide}
use open_mem_db.Store.Join.{found, join_sets, search_tables_for_refs}
use open_mem_db.Store.Join.Sets.{has_key, join_sets_and, join_sets_or}
use open_mem_db.Store.Contents.{Shows}
use open_mem_db.Store.Insert.{insert_record}
use open_mem_db.Store.Insert.Branches.{
  insert_record_accepted, insert_record_refused, get_records-insert_record,
}
use open_mem_db.Store.Select.{get_records}
use open_mem_db.Store.Select.Laws.{get_records_where}
use open_mem_db.Store.Change.{update_records, delete_records}
use open_mem_db.Store.Change.Finish.{affected}
use open_mem_db.Store.Change.Delete.{delete_records_lem}
use open_mem_db.Store.Change.Replace.{IsUpdatable}
use open_mem_db.Store.Change.Update.{update_records_lem}
use open_mem_db.Store.Insert.Frame.{insert_record-other}
use open_mem_db.Store.Join.Refs.{hit, ids, search_tables_for_refs_lem}
use open_mem_db.Store.Select.Nested.{get_records_nested_unmatched}
use open_mem_db.Tests.{
  two_tables, t-Shows, u-Shows, v_is_10, v_is_30, cell, cell-Fits, schema, row, rows, store,
  store-Shows, v_is_20,
}

integer-Fits : (v : ℕ) → v < 2 ^ 57 → Fits (cell integer v)
integer-Fits v h = record { status_fits = omega arith; type_fits = omega arith; value_fits = h }

null-Fits : Fits null_data
null-Fits = record { status_fits = omega arith; type_fits = omega arith; value_fits = omega arith }

rows-IsWide : All (IsWide v_is_20) rows
rows-IsWide = (omega arith, (omega arith, tt))

-- The row that the tests insert: the identifier is left to AUTO_INCREMENT.
abbrev new_row : RecordData
new_row = null_data ∷ cell big_int 30 ∷ []

-- The cells that the tests update with: the identifier stays.
abbrev new_cells : RecordData
new_cells = null_data ∷ cell big_int 40 ∷ []

new_row-Fits : All Fits (fill 2 schema.columns new_row)
new_row-Fits = (integer-Fits 3 (omega arith), (cell-Fits 30 (omega arith), tt))

delete_records_lem_example :
    (s' : DataStore) × (delete_records store (value v_is_20) "t" ≡ some (affected 1, s'))
    × Shows s' "t" schema 2 (row 2 0 10 ∷ [])
unfolding satisfies evaluate_operation op_eq is_true pack
delete_records_lem_example =
    delete_records_lem store "t" schema 2 rows v_is_20 store-Shows rows-IsWide (omega arith)

updatable :
    (ptr id v : ℕ) → id < 2 ^ 20 → v < 2 ^ 57 → id % 8 ≡ 0 → IsUpdatable new_cells (row ptr id v)
updatable ptr id v hi hv clear = record {
  short = omega arith;
  cells_fit = (integer-Fits (id + 1) (omega arith), (cell-Fits v hv, tt));
  id_fits = omega arith;
  id_clear = clear;
}

rows-IsUpdatable : All (λ r. matches v_is_10 r ≡ true → IsUpdatable new_cells r) rows
unfolding satisfies evaluate_operation op_eq is_true pack
rows-IsUpdatable =
    (λ hit. updatable 2 0 10 (omega arith) (omega arith) refl, (λ hit. absurd (cc hit), tt))

new_cells-Storable : All Storable new_cells
new_cells-Storable = (
  record { fits = null-Fits; clear = refl },
  (record { fits = cell-Fits 40 (omega arith); clear = refl }, tt),
)

update_records_lem_example :
    (s' : DataStore) × (update_records store (value v_is_10) "t" new_cells ≡ some (affected 1, s'))
    × Shows s' "t" schema 2 (
        record {
          ptr = 4;
          rec = record { id = 0; data_cells = cell integer 1 ∷ cell big_int 40 ∷ [] };
        }
        ∷ row 3 1 20
        ∷ [])
unfolding satisfies evaluate_operation op_eq is_true pack
update_records_lem_example =
    update_records_lem store "t" schema 2 rows v_is_10 new_cells store-Shows rows-IsWide
      rows-IsUpdatable new_cells-Storable (omega arith)

insert_record_accepted_example :
    (s' : DataStore) × (insert_record store "t" new_row ≡ (manip success done, s'))
    × Shows s' "t" schema 3 (row 2 0 10 ∷ row 3 1 20 ∷ row 4 2 30 ∷ [])
insert_record_accepted_example =
    insert_record_accepted store "t" schema 2 rows store-Shows new_row refl refl new_row-Fits

insert_record_refused_example :
    insert_record store "t" (null_data ∷ null_data ∷ [])
    ≡ (manip failure err_failed_constraint, store)
insert_record_refused_example =
    insert_record_refused store "t" schema 2 rows store-Shows (null_data ∷ null_data ∷ [])
      (inr refl)

get_records-insert_record_example :
    get_records (insert_record store "t" new_row).1 nullptr "t"
    ≡ some (record {
      status = success;
      result =
          (cell integer 1 ∷ cell big_int 10 ∷ [])
          ∷ (cell integer 2 ∷ cell big_int 20 ∷ [])
          ∷ (cell integer 3 ∷ cell big_int 30 ∷ [])
          ∷ [];
    })
get_records-insert_record_example =
    get_records-insert_record store "t" schema 2 rows store-Shows new_row refl refl new_row-Fits

get_records_where_example :
    get_records store (value v_is_20) "t"
    ≡ some (record { status = success; result = (cell integer 2 ∷ cell big_int 20 ∷ []) ∷ [] })
unfolding satisfies evaluate_operation op_eq is_true pack
get_records_where_example =
    get_records_where store "t" schema 2 rows store-Shows v_is_20 refl rows-IsWide

schema_checker_lem_example :
    schema_checker schema 2 new_row ≡ (kept, cell integer 3 ∷ cell big_int 30 ∷ [])
schema_checker_lem_example = schema_checker_lem schema 2 new_row

copy-update_record_example :
    (rec : List ℕ) × (update_record (row 2 200 10).rec new_cells ≡ some rec)
    × (copy_record rec
        ≡ some (record { id = 1; data_cells = cell integer 201 ∷ cell big_int 40 ∷ [] }))
copy-update_record_example =
    copy-update_record (row 2 200 10).rec new_cells (omega arith)
      (integer-Fits 201 (omega arith), (cell-Fits 10 (omega arith), tt)) new_cells-Storable
      (omega arith) refl

-- References by identifier, the joins' operands.
abbrev refs : List ℕ → List RecordReference
refs [] = []
refs (i ∷ is) = record { id = i; ptr = i + 10 } ∷ refs is

join_sets_and_example :
    (j : List RecordReference) × (join_sets (λ r. r.id) and (refs (3 ∷ 1 ∷ [])) (refs (2 ∷ 3 ∷ []))
      ≡ some j)
    × ((k : ℕ)
        → has_key (λ r. r.id) k j ≡ (
            has_key (λ r. r.id) k (refs (3 ∷ 1 ∷ [])) && has_key (λ r. r.id) k (refs (2 ∷ 3 ∷ []))))
join_sets_and_example = join_sets_and (λ r. r.id) (refs (3 ∷ 1 ∷ [])) (refs (2 ∷ 3 ∷ []))

join_sets_or_example :
    (j : List RecordReference) × (join_sets (λ r. r.id) or (refs (3 ∷ 1 ∷ [])) (refs (2 ∷ 3 ∷ []))
      ≡ some j)
    × ((k : ℕ)
        → has_key (λ r. r.id) k j ≡ (
            has_key (λ r. r.id) k (refs (3 ∷ 1 ∷ [])) || has_key (λ r. r.id) k (refs (2 ∷ 3 ∷ []))))
join_sets_or_example = join_sets_or (λ r. r.id) (refs (3 ∷ 1 ∷ [])) (refs (2 ∷ 3 ∷ []))

insert_record-other_example : Shows (insert_record two_tables "u" new_row).1 "t" schema 2 rows
insert_record-other_example =
    insert_record-other two_tables "t" schema 2 rows t-Shows "u" schema 0 [] u-Shows new_row
      (λ e. absurd (omega (arith, e)))

search_tables_for_refs_lem_example :
    ((j : List RecordReference) × (search_tables_for_refs store
          (nested and (value v_is_20) (value v_is_10))
        ≡ found j)
      × ((k : ℕ) → ids k j ≡ (hit v_is_20 rows k && hit v_is_10 rows k)))
    × ((j : List RecordReference) × (search_tables_for_refs store
            (nested or (value v_is_20) (value v_is_10))
          ≡ found j)
        × ((k : ℕ) → ids k j ≡ (hit v_is_20 rows k || hit v_is_10 rows k)))
search_tables_for_refs_lem_example =
    search_tables_for_refs_lem store "t" schema 2 rows store-Shows v_is_20 v_is_10 refl refl
      rows-IsWide (omega arith, (omega arith, tt))

no_row_is_30 : filter_by (matches v_is_30) rows ≡ []
unfolding satisfies evaluate_operation op_eq is_true pack
no_row_is_30 = refl

get_records_nested_unmatched_example :
    get_records store (nested and (value v_is_30) (value v_is_10)) "t" ≡ none
get_records_nested_unmatched_example =
    get_records_nested_unmatched store "t" schema 2 rows store-Shows v_is_30 v_is_10 refl refl
      (omega arith, (omega arith, tt)) (omega arith, (omega arith, tt)) no_row_is_30
