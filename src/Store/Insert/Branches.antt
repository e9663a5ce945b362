-- ===== src/Store/Insert/Branches.antt =====
-- Every branch of insertRecord, and what a selection finds after it.
use open_mem_db.Prelude.{
  ℕ, ◌+◌, ◌%◌, ◌^◌, ◌≡◌, ◌≢◌, refl, ◌∙◌, ◌⊎◌, inl, inr, String, true, false, none, some, List, [],
  ◌∷◌, ◌++◌, map, ◌==◌, ==_iff, length, All, Bool-cases,
}
use mathlib.Core.List.{map-append}
use open_mem_db.Types.{Fits}
use open_mem_db.Schema.{TableSchema}
use open_mem_db.Result.{
  RecordData, err_null, err_row_len, manip, success, failure, done, err_failed_constraint,
  err_table_not_exist,
}
use open_mem_db.Predicate.{nullptr}
use open_mem_db.Tervel.{Tervel}
use open_mem_db.Store.{DataStore, get_table_pair}
use open_mem_db.Store.Records.{clear_status}
use open_mem_db.Store.Constraints.{schema_checker}
use open_mem_db.Store.Constraints.Laws.{lacks, fill, schema_checker_lem}
use open_mem_db.Store.Search.Laws.{Row}
use open_mem_db.Store.Contents.{Shows, get_table_pair_lem}
use open_mem_db.Store.Insert.{insert_record}
use open_mem_db.Store.Insert.Laws.{inserted, insert_record_lem}
use open_mem_db.Store.Select.{get_records}
use open_mem_db.Store.Select.Laws.{cells, get_records_all}

module _ ⦃t : Tervel⦄ (s : DataStore) (name : String) (schema : TableSchema) (counter : ℕ)
    (rs : List Row) (h : Shows s name schema counter rs) where
  -- A row of the schema's length, with no null cell under a NOT NULL column, is put behind the
  -- others with its cells filled in, under the counter as its identifier; the counter goes up.
  pub insert_record_accepted :
      (row : RecordData)
      → length row ≡ length schema.columns
      → lacks schema.columns row ≡ false
      → All Fits (fill counter schema.columns row)
      → (s' : DataStore) × (insert_record s name row ≡ (manip success done, s'))
        × Shows s' name schema
            ((counter + 1) % 2 ^ 64)
            (rs ++ inserted s.next counter (fill counter schema.columns row) ∷ [])
  insert_record_accepted row long whole fits =
      insert_record_lem s name schema counter rs h (fill counter schema.columns row) fits row
        (schema_checker_lem schema counter row ∙ rw ((==_iff _ _).1 long, whole) refl)

  checker_refuses :
      (row : RecordData)
      → (length row ≢ length schema.columns) ⊎ (lacks schema.columns row ≡ true)
      → (schema_checker schema counter row ≡ (err_row_len, row))
        ⊎ (schema_checker schema counter row ≡ (err_null, row))
  checker_refuses row bad = elim (Bool-cases (length row == length schema.columns)) [
    | inr other ↦ inl (schema_checker_lem schema counter row ∙ rw other refl)
    | inl same ↦ elim bad [
      | inl differ ↦ absurd (differ ((==_iff _ _).0 same))
      | inr null ↦ inr (schema_checker_lem schema counter row ∙ rw (same, null) refl)
    ]
  ]

  -- A row of another length, or with a null cell under a NOT NULL column, is refused, and the
  -- store is the one before.
  pub insert_record_refused :
      (row : RecordData)
      → (length row ≢ length schema.columns) ⊎ (lacks schema.columns row ≡ true)
      → insert_record s name row ≡ (manip failure err_failed_constraint, s)
  unfolding insert_record
  insert_record_refused row bad =
      rw (get_table_pair_lem s name schema counter rs h, insert_record)
        (rw (h.schema_is, h.counter_is)
          (elim (checker_refuses row bad) [
            | inl e ↦ rw (e, insert_record)
            | inr e ↦ rw (e, insert_record)
          ]))

  -- After an insertion, a selection without a predicate gives the rows as before and the new row,
  -- filled in and with its status bits cleared, at the end.
  pub get_records-insert_record :
      (row : RecordData)
      → length row ≡ length schema.columns
      → lacks schema.columns row ≡ false
      → All Fits (fill counter schema.columns row)
      → get_records (insert_record s name row).1 nullptr name
        ≡ some (record {
          status = success;
          result = cells rs ++ map clear_status (fill counter schema.columns row) ∷ [];
        })
  get_records-insert_record row long whole fits =
      let (s', ran, shown) = insert_record_accepted row long whole fits in
      rw ran (get_records_all s' name schema ((counter + 1) % 2 ^ 64) _ shown ∙ rw map-append refl)

-- The insertion into a table that is not there.
pub insert_record_absent :
    ⦃t : Tervel⦄ (s : DataStore) (name : String) (row : RecordData)
    → get_table_pair s name ≡ none
    → insert_record s name row ≡ (manip failure err_table_not_exist, s)
unfolding insert_record
insert_record_absent s name row absent = rw (absent, insert_record)
