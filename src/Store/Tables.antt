-- ===== src/Store/Tables.antt =====
-- createTable, deleteTable, getTableSchema and getColumnIndex of data_store.cc. An allocation
-- never fails here.
pub mod Laws
use open_mem_db.Prelude.{
  ℕ, zero, suc, ◌+◌, String, Bool, true, false, Option, none, some, List, [], ◌∷◌, str_eq,
  if◌then◌else◌,
}
use open_mem_db.Schema.{SqlColumn, TableSchema}
use open_mem_db.Result.{
  ManipResult, manip, UintResult, ResultStatus, success, failure, done, err, err_table_not_exist,
  err_table_cmd_invalid,
}
use open_mem_db.Tervel.{Tervel}
use open_mem_db.Store.{DataStore, DataTable, SchemaTablePair, update, free, get_table_pair}

-- struct CreateTableCommand of sql/statements/data_definition.h
pub record CreateTableCommand : Type 0 where
  pub table_name : String
  pub columns : List SqlColumn

-- SchemaResult
pub record SchemaResult : Type 0 where
  pub status : ResultStatus
  pub result : TableSchema

-- The loop of getColumnIndex
index_loop : String → ℕ → List SqlColumn → Option ℕ
index_loop name itr [] = none
index_loop name itr (c ∷ cs) = if str_eq c.name name then some itr else index_loop name (suc itr) cs

index_result : Option ℕ → UintResult
index_result none = record { status = failure; result = 0 }
index_result (some i) = record { status = success; result = i }

module _ ⦃t : Tervel⦄ where
  -- The tail of createTable, after its check of the columns.
  insert_pair : DataStore → CreateTableCommand → ManipResult × DataStore
  insert_pair s cmd =
      let pair : SchemaTablePair = record {
        table = record { records = t.empty; record_counter = 0 };
        schema = record { columns = cmd.columns };
      } in
      let s' = record s { pairs = update s.pairs s.next pair; next = suc s.next } in
      let (inserted, m) = t.insert s.table_name_mapping (t.hash cmd.table_name) s.next in
      if inserted
      then (manip success done, record s' { table_name_mapping = m })
      else (manip failure err, record s' { table_name_mapping = m })

  unfoldable pub create_table : DataStore → CreateTableCommand → ManipResult × DataStore
  unfolding insert_pair
  create_table s cmd = elim cmd.columns [
    | [] ↦ (manip failure err_table_cmd_invalid, s)
    | c ∷ cs ↦ insert_pair s cmd
  ]

  -- `while(!table_name_mapping.remove(key)) {}` on fuel: `none` if it is still running.
  remove_loop : ℕ → t.Map → ℕ → Option t.Map
  remove_loop zero m key = none
  remove_loop (suc fuel) m key =
      let (removed, m') = t.remove m key in
      let again = remove_loop fuel m' key in if removed then some m' else again

  -- deleteTable: the pair and its schema are freed, and the table goes with its last owner.
  unfoldable pub delete_table : ℕ → DataStore → String → Option (ManipResult × DataStore)
  unfolding remove_loop
  delete_table fuel s table_name = elim (get_table_pair s table_name) [
    | none ↦ some (manip failure err_table_not_exist, s)
    | some (p, pair) ↦ elim (remove_loop fuel s.table_name_mapping (t.hash table_name)) [
      | none ↦ none
      | some m ↦
          some (manip success done, record s { table_name_mapping = m; pairs = free s.pairs p })
    ]
  ]

  unfoldable pub get_table_schema : DataStore → String → SchemaResult
  get_table_schema s table_name = elim (get_table_pair s table_name) [
    | none ↦ record { status = failure; result = record { columns = [] } }
    | some (p, pair) ↦ record { status = success; result = pair.schema }
  ]

  unfoldable pub get_column_index : DataStore → String → String → UintResult
  unfolding index_loop index_result
  get_column_index s table_name column_name = elim (get_table_pair s table_name) [
    | none ↦ record { status = failure; result = 0 }
    | some (p, pair) ↦ index_result (index_loop column_name 0 pair.schema.columns)
  ]
