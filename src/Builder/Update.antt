-- ===== src/Builder/Update.antt =====
-- The builder's functions for UPDATE, and the table name that INSERT, UPDATE and DELETE take.
pub mod Laws
use open_mem_db.Prelude.{
  ℕ, zero, suc, ltb, String, Bool, true, false, not, ◌&&◌, ◌||◌, Option, none, some, List, [], ◌∷◌,
  ◌++◌, if◌then◌else◌, length, set,
}
use open_mem_db.Types.{TervelData, null_data}
use open_mem_db.Schema.{ColumnUpdate, SqlColumn, TableSchema}
use open_mem_db.Result.{RecordData, ResultStatus, UintResult, success}
use open_mem_db.Expr.{TokenData, ExpressionOperation, equals}
use open_mem_db.Tervel.{Tervel}
use open_mem_db.Store.{DataStore}
use open_mem_db.Store.Tables.{get_table_schema, get_column_index, SchemaResult}
use open_mem_db.Builder.{
  StatementBuilder, ParsedStatement, create_table_command, drop_table_command, select_query,
  insert_command, update_command, delete_command, UpdateCommand,
}
use open_mem_db.Builder.Select.{index_or}

abbrev pub is_equals : ExpressionOperation → Bool
is_equals equals = true
is_equals _ = false

-- vector::resize
unfoldable pub resize {ℓ} : {A : Type ℓ} → ℕ → A → List A → List A
resize zero a xs = []
resize (suc n) a [] = a ∷ resize n a []
resize (suc n) a (x ∷ xs) = x ∷ resize n a xs

-- The loop that writes the updated columns; an index out of range is undefined.
unfoldable pub write_columns : List ColumnUpdate → RecordData → Option RecordData
write_columns [] row = some row
write_columns (u ∷ us) row = elim (ltb u.column_idx (length row)) [
  | true ↦ write_columns us (set row u.column_idx u.new_data)
  | false ↦ none
]

-- The end of builderFinishUpdateCommand, with a schema at hand.
fill_record : UpdateCommand → Option UpdateCommand
fill_record cmd =
    elim (write_columns cmd.columns
      (resize (length cmd.table_schema.columns) null_data cmd.full_record)) [
        | none ↦ none
        | some row ↦ some (record cmd { full_record = row; runnable = true })
      ]

-- The command of the builder's statement, as the casts read it.
pub update_of : StatementBuilder → Option UpdateCommand
update_of b = elim b.statement [
  | none ↦ none
  | some st ↦ elim st [
    | update_command cmd ↦ some cmd
    | create_table_command _ ↦ none
    | drop_table_command _ ↦ none
    | select_query _ ↦ none
    | insert_command _ ↦ none
    | delete_command _ ↦ none
  ]
]

module _ ⦃t : Tervel⦄ (s : DataStore) where
  -- The lookup when the command has no schema yet.
  finish_command : UpdateCommand → Option UpdateCommand
  unfolding fill_record
  finish_command cmd = elim cmd.table_schema.columns [
    | c ∷ cs ↦ fill_record cmd
    | [] ↦
        let r = get_table_schema s cmd.table in
        elim r.status [
          | success ↦ fill_record (record cmd { table_schema = r.result })
          | _ ↦ some (record cmd { runnable = false })
        ]
  ]

  -- builderFinishUpdateCommand
  unfoldable pub finish_update_command : StatementBuilder → Option StatementBuilder
  unfolding finish_command
  finish_update_command b =
      if b.started && b.valid
      then elim (update_of b) [
        | none ↦ none
        | some cmd ↦ elim (finish_command cmd) [
          | none ↦ none
          | some cmd' ↦ some (record b { statement = some (update_command cmd') })
        ]
      ]
      else some b

  -- builderAddUpdateExpr. `unset` and `unset_data` are what the members hold where the code does
  -- not set them.
  unfoldable pub add_update_expr :
      ℕ
      → TervelData
      → StatementBuilder
      → TokenData
      → TokenData
      → TokenData
      → Option StatementBuilder
  unfolding update_of
  add_update_expr unset unset_data b operation left right =
      if not b.started || (not operation.is_operation || not (is_equals operation.operation))
      then some b
      else elim (update_of b) [
        | none ↦ none
        | some cmd ↦ some (record b {
          statement = some (
              update_command (record cmd {
                table_schema = (get_table_schema s cmd.table).result;
                columns =
                    cmd.columns
                    ++ record {
                      column_idx = index_or unset (get_column_index s cmd.table left.text);
                      new_data = if right.is_value then right.value else unset_data;
                    }
                      ∷ [];
              }));
        })
      ]

  abbrev schema_or : TableSchema → SchemaResult → TableSchema
  schema_or old r = elim r.status [ success ↦ r.result | _ ↦ old ]

  -- builderAddTableName
  unfoldable pub add_table_name : StatementBuilder → TokenData → Option StatementBuilder
  add_table_name b name =
      if b.started
      then elim b.statement [
        | none ↦ none
        | some st ↦ elim st [
          | insert_command cmd ↦
              some
                (record b { statement = some (insert_command (record cmd { table = name.text })) })
          | update_command cmd ↦ some (record b {
            statement = some (
                update_command (record cmd {
                  table = name.text;
                  table_schema = schema_or cmd.table_schema (get_table_schema s name.text);
                }));
          })
          | delete_command cmd ↦
              some
                (record b { statement = some (delete_command (record cmd { table = name.text })) })
          | create_table_command _ ↦ some b
          | drop_table_command _ ↦ some b
          | select_query _ ↦ some b
        ]
      ]
      else some b
