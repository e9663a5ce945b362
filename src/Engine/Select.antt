-- ===== src/Engine/Select.antt =====
-- What a SELECT statement sends back.
use open_mem_db.Prelude.{
  ℕ, suc, ◌<◌, ◌≡◌, refl, ap, String, Option, none, some, List, [], ◌∷◌, map, arith, length,
  get_elem?, get_elem?_below, All,
}
use open_mem_db.Types.{TervelData, zeroed}
use open_mem_db.Schema.{ColumnReference, TableSchema}
use open_mem_db.Result.{RecordData}
use open_mem_db.Predicate.{nullptr}
use open_mem_db.Tervel.{Tervel}
use open_mem_db.Store.{DataStore}
use open_mem_db.Store.Search.Laws.{Row}
use open_mem_db.Store.Contents.{Shows}
use open_mem_db.Store.Select.Laws.{cells, get_records_all}
use open_mem_db.Builder.{select_query}
use open_mem_db.Engine.{
  ResultColumn, fit_name, QueryData, of_query, record_metadata, filter_record, filter_records,
  query_data, execute_query, run_query, queried, execute_statement,
}

-- The columns are in the row.
abbrev pub HasColumns : List ColumnReference → RecordData → Type 0
HasColumns cs row = All (λ c. c.column_idx < length row) cs

abbrev pub cell_or_zero : Option TervelData → TervelData
cell_or_zero none = zeroed
cell_or_zero (some d) = d

-- The cells of a row that the statement asks for, in its order.
abbrev pub picked : List ColumnReference → RecordData → RecordData
picked cs row = map (λ c. cell_or_zero (get_elem? row c.column_idx)) cs

filter_record_lem :
    (cs : List ColumnReference) (row : RecordData)
    → HasColumns cs row
    → filter_record cs row ≡ some (picked cs row)
unfolding filter_record
filter_record_lem [] row h = refl
filter_record_lem (c ∷ cs) row h =
    let (d, e) = get_elem?_below row c.column_idx h.0 in
    rw (e, filter_record) (rw (filter_record_lem cs row h.1, filter_record))

filter_records_lem :
    (cs : List ColumnReference) (rows : List RecordData)
    → All (HasColumns cs) rows
    → filter_records cs rows ≡ some (map (picked cs) rows)
unfolding filter_records
filter_records_lem cs [] h = refl
filter_records_lem cs (row ∷ rows) h =
    rw (filter_record_lem cs row h.0, filter_records)
      (rw (filter_records_lem cs rows h.1, filter_records))

record_metadata_lem :
    (row : RecordData) (cs : List ColumnReference) (names : List String)
    → HasColumns cs row
    → length names ≡ length cs
    → (ms : List ResultColumn) × (record_metadata row cs names ≡ some ms) × (length ms ≡ length cs)
unfolding record_metadata
record_metadata_lem row [] names h e = ([], refl, refl)
record_metadata_lem row (c ∷ cs) [] h e = absurd (omega (arith, e))
record_metadata_lem row (c ∷ cs) (s ∷ names) h e =
    let (d, here) = get_elem?_below row c.column_idx h.0 in
    let (ms, ran, long) = record_metadata_lem row cs names h.1 (omega (arith, e)) in
    (
      record { name = fit_name s; type = d.type } ∷ ms,
      rw (here, record_metadata) (rw (ran, record_metadata)),
      ap suc long,
    )

module _ ⦃t : Tervel⦄ (s : DataStore) (name : String) (schema : TableSchema) (counter : ℕ) (r : Row)
    (rs : List Row) (h : Shows s name schema counter (r ∷ rs)) where
  -- A SELECT statement without a predicate on a table that is not empty, whose columns every row
  -- has, and with one output name for each column, succeeds and leaves the store: it sends the cells
  -- asked for of every row, in table order, and the description of as many columns.
  pub execute_statement_select :
      (fuel : ℕ) (columns : List ColumnReference) (more output_names : List String)
      → length output_names ≡ length columns
      → All (HasColumns columns) (cells (r ∷ rs))
      → (d : QueryData) × (execute_statement fuel
            (select_query (record {
              source_columns = columns;
              tables = name ∷ more;
              output_columns = output_names;
              predicate = nullptr;
            }))
            s
          ≡ some (of_query d, s))
        × (d.records ≡ map (picked columns) (cells (r ∷ rs)))
        × (length d.metadata ≡ length columns)
  unfolding execute_statement run_query queried execute_query query_data
  execute_statement_select fuel columns more output_names same wide =
      let (ms, described, long) =
        record_metadata_lem r.rec.data_cells columns output_names wide.0 same in
      (
        record { metadata = ms; records = map (picked columns) (cells (r ∷ rs)) },
        rw (get_records_all s name schema counter (r ∷ rs) h, run_query)
            (rw (described, query_data)
              (rw (filter_records_lem columns (cells (r ∷ rs)) wide, query_data))),
        refl,
        long,
      )
