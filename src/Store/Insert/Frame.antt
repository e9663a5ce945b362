-- ===== src/Store/Insert/Frame.antt =====
-- The other tables during an insertion.
use open_mem_db.Prelude.{ℕ, ◌≢◌, String, List, arith}
use open_mem_db.Schema.{TableSchema}
use open_mem_db.Result.{RecordData, ConstraintStatus, kept, err_null, err_row_len}
use open_mem_db.Tervel.{Tervel}
use open_mem_db.Store.{DataStore, SchemaTablePair}
use open_mem_db.Store.Records.{new_record}
use open_mem_db.Store.Constraints.{schema_checker}
use open_mem_db.Store.Search.Laws.{Row, ptrs}
use open_mem_db.Store.Contents.{Shows, Below-suc, get_table_pair_lem}
use open_mem_db.Store.Insert.{append_row, insert_record, insert_checked}
use open_mem_db.Store.Insert.Laws.{contents_update}

module _ ⦃t : Tervel⦄ (s : DataStore) (name : String) (schema : TableSchema) (counter : ℕ)
    (rs : List Row) (h : Shows s name schema counter rs) where
  append_row-other :
      (p : ℕ) (pair : SchemaTablePair) (row : RecordData)
      → p ≢ h.address
      → Shows (append_row s p pair row) name schema counter rs
  unfolding append_row
  append_row-other p pair row apart = record {
    address = h.address;
    pair = h.pair;
    mapped = h.mapped;
    stored = ground (arith, apart, h.stored);
    schema_is = h.schema_is;
    counter_is = h.counter_is;
    holds = record {
      pointers = h.holds.pointers;
      contents =
          contents_update s.rows s.next (new_record row pair.table.record_counter) rs h.in_use
            h.holds.contents;
    };
    distinct = h.distinct;
    in_use = Below-suc s.next (ptrs rs) h.in_use;
    address_in_use = omega (arith, h.address_in_use);
  }

  insert_checked-other :
      (p : ℕ) (pair : SchemaTablePair) (checked : ConstraintStatus × RecordData)
      → p ≢ h.address
      → Shows (insert_checked s p pair checked).1 name schema counter rs
  unfolding insert_checked
  insert_checked-other p pair (kept, row) apart = append_row-other p pair row apart
  insert_checked-other p pair (err_null, row) apart = h
  insert_checked-other p pair (err_row_len, row) apart = h

  -- An insertion into a table at another address, whether it succeeds or not, leaves this table as it is: its
  -- schema, its counter and its rows.
  pub insert_record-other :
      (other : String) (schema' : TableSchema) (counter' : ℕ) (rs' : List Row)
      (h' : Shows s other schema' counter' rs') (row : RecordData)
      → h'.address ≢ h.address
      → Shows (insert_record s other row).1 name schema counter rs
  unfolding insert_record
  insert_record-other other schema' counter' rs' h' row apart =
      rw (get_table_pair_lem s other schema' counter' rs' h', insert_record)
        (insert_checked-other h'.address h'.pair
          (schema_checker h'.pair.schema h'.pair.table.record_counter row) apart)
