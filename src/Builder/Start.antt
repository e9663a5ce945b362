-- ===== src/Builder/Start.antt =====
-- The starts of the statements, and the statements that create a table or insert a row.
pub mod Laws
use open_mem_db.Prelude.{
  ℕ, String, Bool, true, false, not, Option, none, some, List, [], ◌∷◌, ◌++◌, str_eq, if◌then◌else◌,
}
use open_mem_db.Types.{
  DataType, untyped, boolean, small_int, integer, big_int, date, time, TervelData, zeroed,
}
use open_mem_db.Schema.{SqlConstraint, SqlConstraintType, SqlColumn}
use open_mem_db.Expr.{TokenData}
use open_mem_db.Predicate.{Predicate, nullptr}
use open_mem_db.Store.Tables.{CreateTableCommand}
use open_mem_db.Builder.{
  StatementBuilder, ParsedStatement, create_table_command, drop_table_command, select_query,
  insert_command, update_command, delete_command, InsertCommand, begin,
}

-- builderStartCreateTable
unfoldable pub start_create_table : StatementBuilder → TokenData → StatementBuilder
start_create_table b table_name =
    begin b (create_table_command (record { table_name = table_name.text; columns = [] }))

-- builderStartDropTable
unfoldable pub start_drop_table : StatementBuilder → TokenData → StatementBuilder
start_drop_table b table_name = begin b (drop_table_command table_name.text)

-- builderStartSelectQuery
unfoldable pub start_select_query : StatementBuilder → StatementBuilder
start_select_query b = begin b (
    select_query
      (record { source_columns = []; tables = []; output_columns = []; predicate = nullptr }))

-- builderStartInsertCommand
unfoldable pub start_insert_command : StatementBuilder → StatementBuilder
start_insert_command b = begin b (insert_command (record { data_items = []; table = "" }))

-- builderStartUpdateCommand
unfoldable pub start_update_command : StatementBuilder → StatementBuilder
start_update_command b = begin b (
    update_command (record {
      table = "";
      table_schema = record { columns = [] };
      columns = [];
      full_record = [];
      predicate = nullptr;
      runnable = false;
    }))

-- builderStartDeleteCommand
unfoldable pub start_delete_command : StatementBuilder → StatementBuilder
start_delete_command b = begin b (delete_command (record { table = ""; predicate = nullptr }))

token_value : TervelData → Option TokenData → TervelData
token_value unset none = unset
token_value unset (some tok) = if tok.is_value then tok.value else unset

-- builderAddColumnConstraint: without a value token the constraint's value stays as its memory was,
-- `unset`.
unfoldable pub add_column_constraint :
    StatementBuilder → SqlConstraintType → Option TokenData → TervelData → StatementBuilder
unfolding token_value
add_column_constraint b type v unset = record b {
  temp_constraints = b.temp_constraints ++ record { type = type; value = token_value unset v } ∷ [];
}

-- getSQLType
unfoldable pub get_sql_type : String → DataType
get_sql_type s =
    if str_eq s "INTEGER"
    then integer
    else if str_eq s "SMALLINT"
    then small_int
    else if str_eq s "BIGINT"
    then big_int
    else if str_eq s "BOOLEAN"
    then boolean
    else if str_eq s "DATE"
    then date
    else if str_eq s "TIME"
    then time
    else untyped

-- builderAddColumn; the builder need not be started.
unfoldable pub add_column : StatementBuilder → TokenData → TokenData → Option StatementBuilder
unfolding get_sql_type
add_column b name type = elim b.statement [
  | none ↦ none
  | some s ↦ elim s [
    | create_table_command cmd ↦
        let c : SqlColumn = record {
          name = name.text;
          type = get_sql_type type.text;
          constraint = b.temp_constraints;
        } in
        some (record b {
          temp_constraints = [];
          statement = some (create_table_command (record cmd { columns = cmd.columns ++ c ∷ [] }));
        })
    | drop_table_command _ ↦ some b
    | select_query _ ↦ some b
    | insert_command _ ↦ some b
    | update_command _ ↦ some b
    | delete_command _ ↦ some b
  ]
]

-- builderAddDataItem
unfoldable pub add_data_item : StatementBuilder → TokenData → Option StatementBuilder
add_data_item b tok =
    if not tok.is_value then some b else if not b.started then some b else elim b.statement [
      | none ↦ none
      | some s ↦ elim s [
        | insert_command cmd ↦ some (record b {
          statement =
              some (insert_command (record cmd { data_items = cmd.data_items ++ tok.value ∷ [] }));
        })
        | create_table_command _ ↦ none
        | drop_table_command _ ↦ none
        | select_query _ ↦ none
        | update_command _ ↦ none
        | delete_command _ ↦ none
      ]
    ]

-- builderClean
unfoldable pub clean : StatementBuilder → StatementBuilder
clean b = record b { statement = none; started = false }
