-- ===== src/Engine.antt =====
-- ExecuteStatement, ExecuteCommand and ExecuteQuery of
-- database/source/workmanager/work_thread.cc: a parsed statement run on the data store. `none` is an
-- exception, a failed assertion or undefined behaviour.
pub mod Select
pub mod Job
use Prim.Native.String.{String}
use open_mem_db.Prelude.{
  ℕ, zero, suc, ◌+◌, leb, Bool, true, false, Option, none, some, List, [], ◌∷◌, if◌then◌else◌,
  get_elem?,
}
use open_mem_db.Types.{integer, type_code, TervelData}
use open_mem_db.Schema.{ColumnReference}
use open_mem_db.Result.{
  ManipResult, manip, RecordData, MultiRecordResult, ResultStatus, success, failure,
  err_table_not_exist, err_unknown_statement,
}
use open_mem_db.Tervel.{Tervel}
use open_mem_db.Store.{DataStore}
use open_mem_db.Store.Tables.{create_table, delete_table}
use open_mem_db.Store.Insert.{insert_record}
use open_mem_db.Store.Select.{get_records}
use open_mem_db.Store.Change.{update_records, delete_records}
use open_mem_db.Builder.{
  ParsedStatement, create_table_command, drop_table_command, select_query, insert_command,
  update_command, delete_command, SelectQuery,
}

-- ResultColumn
pub record ResultColumn : Type 0 where
  pub name : String
  pub type : ℕ

-- QueryData
pub record QueryData : Type 0 where
  pub metadata : List ResultColumn
  pub records : List RecordData

-- JointResult: of a command, or of a successful query
pub data JointResult : Type 0 where
  of_command : ManipResult → JointResult
  of_query : QueryData → JointResult

abbrev pub col_name_len : ℕ
col_name_len = 25

-- The length in characters of one byte.
abbrev pub size : String → ℕ
size String.[] = 0
size (String.◌∷◌ c s) = suc (size s)

-- The first characters of a name.
abbrev pub truncate : ℕ → String → String
truncate zero s = String.[]
truncate (suc n) String.[] = String.[]
truncate (suc n) (String.◌∷◌ c s) = String.◌∷◌ c (truncate n s)

-- The name of a column with a record to describe it: truncated where it is too long.
abbrev pub fit_name : String → String
fit_name s = if leb (size s + 1) col_name_len then s else truncate (24) s

-- The metadata without a record: `strcpy` into the array, with no check of the length.
unfoldable pub plain_metadata : List String → Option (List ResultColumn)
plain_metadata [] = some []
plain_metadata (s ∷ names) = elim (leb (size s + 1) col_name_len) [
  | false ↦ none
  | true ↦ elim (plain_metadata names) [
    | none ↦ none
    | some cs ↦ some (record { name = s; type = type_code integer } ∷ cs)
  ]
]

-- The metadata from the first record.
unfoldable pub record_metadata :
    RecordData → List ColumnReference → List String → Option (List ResultColumn)
record_metadata row [] names = some []
record_metadata row (c ∷ cs) [] = none
record_metadata row (c ∷ cs) (s ∷ names) = elim (get_elem? row c.column_idx) [
  | none ↦ none
  | some cell ↦ elim (record_metadata row cs names) [
    | none ↦ none
    | some ms ↦ some (record { name = fit_name s; type = cell.type } ∷ ms)
  ]
]

-- query_filter, on one record
unfoldable pub filter_record : List ColumnReference → RecordData → Option RecordData
filter_record [] row = some []
filter_record (c ∷ cs) row = elim (get_elem? row c.column_idx) [
  | none ↦ none
  | some cell ↦ elim (filter_record cs row) [ none ↦ none | some cells ↦ some (cell ∷ cells) ]
]

-- The std::for_each with it
unfoldable pub filter_records : List ColumnReference → List RecordData → Option (List RecordData)
filter_records cs [] = some []
filter_records cs (row ∷ rows) = elim (filter_record cs row) [
  | none ↦ none
  | some cells ↦ elim (filter_records cs rows) [ none ↦ none | some rest ↦ some (cells ∷ rest) ]
]

-- The data that a successful query sends.
unfoldable pub query_data : SelectQuery → List RecordData → Option QueryData
query_data q [] = elim (plain_metadata q.output_columns) [
  | none ↦ none
  | some ms ↦ some (record { metadata = ms; records = [] })
]
query_data q (row ∷ rows) = elim (record_metadata row q.source_columns q.output_columns) [
  | none ↦ none
  | some ms ↦ elim (filter_records q.source_columns (row ∷ rows)) [
    | none ↦ none
    | some rs ↦ some (record { metadata = ms; records = rs })
  ]
]

module _ ⦃t : Tervel⦄ where
  -- ExecuteQuery, on a SELECT statement; `front` of no table is undefined.
  unfoldable pub execute_query : SelectQuery → DataStore → Option MultiRecordResult
  execute_query q s = elim q.tables [ [] ↦ none | name ∷ names ↦ get_records s q.predicate name ]

  -- The SELECT branch of ExecuteStatement: a failed query is a failed assertion.
  pub run_query : SelectQuery → DataStore → Option QueryData
  run_query q s = elim (execute_query q s) [
    | none ↦ none
    | some r ↦ elim r.status [ success ↦ query_data q r.result | _ ↦ none ]
  ]

  -- ExecuteCommand; `fuel` is for the loop of deleteTable. A SELECT does not come here.
  unfoldable pub execute_command :
      ℕ → ParsedStatement → DataStore → Option (ManipResult × DataStore)
  execute_command fuel (create_table_command cmd) s = some (create_table s cmd)
  execute_command fuel (drop_table_command name) s = delete_table fuel s name
  execute_command fuel (update_command cmd) s =
      if cmd.runnable
      then update_records s cmd.predicate cmd.table cmd.full_record
      else some (manip failure err_table_not_exist, s)
  execute_command fuel (insert_command cmd) s = some (insert_record s cmd.table cmd.data_items)
  execute_command fuel (delete_command cmd) s = delete_records s cmd.predicate cmd.table
  execute_command fuel (select_query q) s = some (manip failure err_unknown_statement, s)

  pub joint : Option (ManipResult × DataStore) → Option (JointResult × DataStore)
  joint none = none
  joint (some (r, s)) = some (of_command r, s)

  queried : DataStore → Option QueryData → Option (JointResult × DataStore)
  queried s none = none
  queried s (some d) = some (of_query d, s)

  -- ExecuteStatement
  unfoldable pub execute_statement :
      ℕ → ParsedStatement → DataStore → Option (JointResult × DataStore)
  unfolding run_query joint queried
  execute_statement fuel (select_query q) s = queried s (run_query q s)
  execute_statement fuel st s = joint (execute_command fuel st s)
