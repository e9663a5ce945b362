-- ===== src/Store/Insert.antt =====
-- insertRecord of data_store.cc.
pub mod Laws
pub mod Branches
pub mod Frame
use open_mem_db.Prelude.{ℕ, suc, ◌+◌, ◌%◌, ◌^◌, String, Option, none, some}
use open_mem_db.Result.{
  ManipResult, manip, RecordData, ConstraintStatus, kept, success, failure, done,
  err_table_not_exist, err_failed_constraint,
}
use open_mem_db.Tervel.{Tervel}
use open_mem_db.Store.{DataStore, DataTable, SchemaTablePair, update, get_table_pair}
use open_mem_db.Store.Constraints.{schema_checker}
use open_mem_db.Store.Records.{new_record}

module _ ⦃t : Tervel⦄ where
  -- The part after the checks: build the record, take a number, publish the pointer.
  unfoldable pub append_row : DataStore → ℕ → SchemaTablePair → RecordData → DataStore
  append_row s p pair row = record s {
    rows = update s.rows s.next (new_record row pair.table.record_counter);
    pairs = update s.pairs p (record pair {
      table = record {
        records = t.push_back_w_ra pair.table.records s.next;
        record_counter = (pair.table.record_counter + 1) % 2 ^ 64;
      };
    });
    next = suc s.next;
  }

  insert_checked :
      DataStore → ℕ → SchemaTablePair → ConstraintStatus × RecordData → ManipResult × DataStore
  insert_checked s p pair (kept, row) = (manip success done, append_row s p pair row)
  insert_checked s p pair (_, row) = (manip failure err_failed_constraint, s)

  unfoldable pub insert_record : DataStore → String → RecordData → ManipResult × DataStore
  unfolding insert_checked
  insert_record s table_name row = elim (get_table_pair s table_name) [
    | none ↦ (manip failure err_table_not_exist, s)
    | some (p, pair) ↦
        insert_checked s p pair (schema_checker pair.schema pair.table.record_counter row)
  ]
