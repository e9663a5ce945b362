-- ===== src/Builder/Select.antt =====
-- The builder's functions for a SELECT statement.
pub mod Laws
use open_mem_db.Prelude.{
  ℕ, suc, String, Bool, true, false, Option, none, some, List, [], ◌∷◌, ◌++◌, map, str_eq,
  if◌then◌else◌,
}
use open_mem_db.Schema.{ColumnReference, SqlColumn}
use open_mem_db.Result.{ResultStatus, UintResult, success}
use open_mem_db.Expr.{TokenData}
use open_mem_db.Tervel.{Tervel}
use open_mem_db.Store.{DataStore}
use open_mem_db.Store.Tables.{get_table_schema, get_column_index}
use open_mem_db.Builder.{
  StatementBuilder, ParsedStatement, create_table_command, drop_table_command, select_query,
  insert_command, update_command, delete_command, SelectQuery,
}
use open_mem_db.Builder.Start.{start_select_query}

-- References to all columns of a table, from an index on.
abbrev pub all_columns : String → ℕ → List SqlColumn → List ColumnReference
all_columns table i [] = []
all_columns table i (c ∷ cs) =
    record { table = table; column_idx = i } ∷ all_columns table (suc i) cs

-- An index that a lookup gives, or the integer that was there before.
abbrev pub index_or : ℕ → UintResult → ℕ
index_or unset r = elim r.status [ success ↦ r.result | _ ↦ unset ]

-- std::find on strings
abbrev pub contains : List String → String → Bool
contains [] s = false
contains (x ∷ xs) s = if str_eq x s then true else contains xs s

-- The loop of builderFinishSelectQuery
unfoldable pub collect_tables : List ColumnReference → List String → List String
collect_tables [] tables = tables
collect_tables (c ∷ cs) tables =
    collect_tables cs (if contains tables c.table then tables else tables ++ c.table ∷ [])

module _ ⦃t : Tervel⦄ (s : DataStore) where
  select_all : StatementBuilder → TokenData → Option StatementBuilder
  select_all b table = elim b.statement [
    | none ↦ none
    | some st ↦ elim st [
      | select_query q ↦
          let columns = (get_table_schema s table.text).result.columns in
          some (record b {
            statement = some (
                select_query (record q {
                  source_columns = q.source_columns ++ all_columns table.text 0 columns;
                  output_columns = q.output_columns ++ map (λ c. c.name) columns;
                }));
          })
      | create_table_command _ ↦ some b
      | drop_table_command _ ↦ some b
      | insert_command _ ↦ some b
      | update_command _ ↦ some b
      | delete_command _ ↦ some b
    ]
  ]

  -- builderAddSelectAllColumns
  unfoldable pub add_select_all_columns : StatementBuilder → TokenData → Option StatementBuilder
  unfolding select_all
  add_select_all_columns b table =
      if b.started then select_all b table else select_all (start_select_query b) table

  select_one : ℕ → StatementBuilder → TokenData → TokenData → String → Option StatementBuilder
  select_one unset b table source output = elim b.statement [
    | none ↦ none
    | some st ↦ elim st [
      | select_query q ↦
          let i = index_or unset (get_column_index s table.text source.text) in
          some (record b {
            statement = some (
                select_query (record q {
                  source_columns =
                      q.source_columns ++ record { table = table.text; column_idx = i } ∷ [];
                  output_columns = q.output_columns ++ output ∷ [];
                }));
          })
      | create_table_command _ ↦ none
      | drop_table_command _ ↦ none
      | insert_command _ ↦ none
      | update_command _ ↦ none
      | delete_command _ ↦ none
    ]
  ]

  output_name : TokenData → Option TokenData → String
  output_name source none = source.text
  output_name source (some tok) = tok.text

  -- builderAddQualifiedSelectColumn. `unset` is the integer that the reference keeps where the
  -- column is not found.
  unfoldable pub add_qualified_select_column :
      ℕ → StatementBuilder → TokenData → TokenData → Option TokenData → Option StatementBuilder
  unfolding select_one output_name
  add_qualified_select_column unset b table source output =
      if b.started
      then select_one unset b table source (output_name source output)
      else select_one unset (start_select_query b) table source (output_name source output)

-- builderFinishSelectQuery
unfoldable pub finish_select_query : StatementBuilder → Option StatementBuilder
finish_select_query b =
    if b.started
    then elim b.statement [
      | none ↦ none
      | some st ↦ elim st [
        | select_query q ↦ some (record b {
          statement =
              some (select_query (record q { tables = collect_tables q.source_columns q.tables }));
        })
        | create_table_command _ ↦ some b
        | drop_table_command _ ↦ some b
        | insert_command _ ↦ some b
        | update_command _ ↦ some b
        | delete_command _ ↦ some b
      ]
    ]
    else some b
