-- ===== src/Tests/Statements.antt =====
-- Statements as the builder makes them, and their predicates.
use open_mem_db.Prelude.{ℕ, ◌≡◌, refl, String, true, ◌||◌, none, some, List, [], ◌∷◌}
use open_mem_db.Types.{TervelData, integer, big_int}
use open_mem_db.Schema.{
  ColumnReference, ColumnUpdate, SqlConstraintType, default, not_null, auto_increment,
}
use open_mem_db.Expr.{
  TokenData, blank_token, equals, token_of_column, token_of_value, token_of_text, create_expression,
  info_of_token, is_expr_flag_contained,
}
use open_mem_db.Predicate.{value}
use open_mem_db.Predicate.Make.{make_predicate}
use open_mem_db.Predicate.Make.Sound.{Sound, make_predicate-Sound}
use open_mem_db.Tervel.Listed.{listed}
use open_mem_db.Store.{get_table_pair}
use open_mem_db.Store.Tables.{get_table_schema, get_column_index}
use open_mem_db.Builder.{new_builder}
use open_mem_db.Builder.Start.{start_create_table}
use open_mem_db.Builder.Start.Laws.{
  ConstraintText, ColumnText, add_columns, creating, add_columns-start_create_table,
}
use open_mem_db.Builder.Select.{contains, collect_tables}
use open_mem_db.Builder.Select.Laws.{Unique, refers_to, collect_tables_lem}
use open_mem_db.Builder.Where.Laws.{
  Comparison, comparisons, expression_of, add_all, comparisons-add_all,
}
use open_mem_db.Tests.{cell, store, v_is_20}

abbrev equals_token : TokenData
equals_token = record blank_token { text = "="; is_operation = true; operation = equals }

abbrev v_token : TokenData
unfolding token_of_column
v_token = token_of_column "t.v" "t" "v"

abbrev twenty : TokenData
unfolding token_of_value
twenty = token_of_value "20" big_int 20

abbrev v_equals_20 : Comparison
v_equals_20 = record { operation = equals_token; left = v_token; right = twenty }

made : make_predicate store (expression_of v_equals_20) ≡ some (value v_is_20)
unfolding make_predicate create_expression info_of_token is_expr_flag_contained get_column_index
    get_table_schema get_table_pair v_token twenty
made = refl

make_predicate-Sound_example : Sound store (value v_is_20)
make_predicate-Sound_example =
    make_predicate-Sound store (expression_of v_equals_20) (value v_is_20) made

comparisons-add_all_example :
    comparisons (add_all new_builder (v_equals_20 ∷ v_equals_20 ∷ [])).expr
    ≡ expression_of v_equals_20 ∷ expression_of v_equals_20 ∷ []
comparisons-add_all_example = comparisons-add_all new_builder (v_equals_20 ∷ v_equals_20 ∷ [])

abbrev text : String → TokenData
unfolding token_of_text
text s = token_of_text s

abbrev junk : TervelData
junk = cell integer 5

abbrev plain : SqlConstraintType → ConstraintText
plain type = record { type = type; token = none; unset = junk }

abbrev default_20 : ConstraintText
default_20 = record { type = default; token = some twenty; unset = junk }

abbrev column_texts : List ColumnText
column_texts =
    record { name = text "id"; type = integer; constraints = plain auto_increment ∷ [] }
    ∷ record { name = text "v"; type = big_int; constraints = plain not_null ∷ default_20 ∷ [] }
    ∷ []

add_columns-start_create_table_example :
    add_columns (start_create_table new_builder (text "t")) column_texts
    ≡ some (
        creating new_builder "t" (
          record {
            name = "id";
            type = integer;
            constraint = record { type = auto_increment; value = junk } ∷ [];
          }
          ∷ record {
            name = "v";
            type = big_int;
            constraint =
                record { type = not_null; value = junk }
                ∷ record { type = default; value = cell big_int 20 }
                ∷ [];
          }
          ∷ []))
unfolding text twenty
add_columns-start_create_table_example =
    add_columns-start_create_table new_builder (text "t") column_texts refl

abbrev column_at : String → ColumnReference
column_at table = record { table = table; column_idx = 0 }

collect_tables_lem_example :
    Unique (collect_tables (column_at "t" ∷ column_at "u" ∷ column_at "t" ∷ []) [])
    × ((x : String)
        → contains (collect_tables (column_at "t" ∷ column_at "u" ∷ column_at "t" ∷ []) []) x
          ≡ (contains [] x || refers_to (column_at "t" ∷ column_at "u" ∷ column_at "t" ∷ []) x))
collect_tables_lem_example =
    collect_tables_lem (column_at "t" ∷ column_at "u" ∷ column_at "t" ∷ []) [] tt

abbrev update_to : ℕ → ColumnUpdate
update_to v = record { column_idx = 1; new_data = cell big_int v }
