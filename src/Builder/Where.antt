-- ===== src/Builder/Where.antt =====
-- The builder's functions for a WHERE clause, and setupStatement of predicate.cc.
pub mod Laws
use Prim.Native.Nat.{bit_or}
use open_mem_db.Prelude.{ℕ, Bool, true, false, Option, none, some, List, [], ◌∷◌, if◌then◌else◌}
use open_mem_db.Expr.{
  TokenData, Expression, nullptr, node, ExprInfo, blank_info, create_expression,
  is_expr_flag_contained, flag_nested, flag_empty,
}
use open_mem_db.Predicate.{Predicate}
use open_mem_db.Predicate.Make.{make_predicate}
use open_mem_db.Tervel.{Tervel}
use open_mem_db.Store.{DataStore}
use open_mem_db.Builder.{
  StatementBuilder, ParsedStatement, create_table_command, drop_table_command, select_query,
  insert_command, update_command, delete_command,
}

-- builderStartNestedExpr
unfoldable pub start_nested_expr : StatementBuilder → TokenData → Option StatementBuilder
start_nested_expr b operation = elim b.expr [
  | nullptr ↦ none
  | node i l r ↦
      if is_expr_flag_contained i.flags flag_nested
      then some (record b {
        expr = node (record i { op = operation.operation; flags = flag_nested }) l r;
      })
      else some b
]

-- The tree with one more comparison: the tree before becomes the left child of a nested node.
unfoldable pub grow : Expression → TokenData → TokenData → TokenData → Expression
grow nullptr operation left right = create_expression operation left right
grow (node i l r) operation left right =
    node (record blank_info { flags = bit_or flag_nested flag_empty }) (node i l r)
      (create_expression operation left right)

-- builderAddValueExpr
unfoldable pub add_value_expr :
    StatementBuilder → TokenData → TokenData → TokenData → StatementBuilder
unfolding grow
add_value_expr b operation left right = record b { expr = grow b.expr operation left right }

module _ ⦃t : Tervel⦄ (s : DataStore) where
  with_predicate : ParsedStatement → Predicate → ParsedStatement
  with_predicate (select_query q) p = select_query (record q { predicate = p })
  with_predicate (update_command c) p = update_command (record c { predicate = p })
  with_predicate (delete_command c) p = delete_command (record c { predicate = p })
  with_predicate st p = st

  -- The statements that setupStatement makes a predicate for.
  abbrev takes_predicate : ParsedStatement → Bool
  takes_predicate (select_query _) = true
  takes_predicate (update_command _) = true
  takes_predicate (delete_command _) = true
  takes_predicate _ = false

  -- setupStatement, for a statement that is there
  unfoldable pub setup_statement : ParsedStatement → Expression → Option ParsedStatement
  unfolding with_predicate
  setup_statement st nullptr = some st
  setup_statement st (node i l r) =
      if takes_predicate st
      then elim (make_predicate s (node i l r)) [
        | none ↦ none
        | some p ↦ some (with_predicate st p)
      ]
      else some st
