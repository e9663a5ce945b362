-- ===== src/Predicate/Make.antt =====
-- makePredicateFromExpression of predicate.cc: the predicate tree of an expression tree, its
-- columns looked up and its types compared. `none` is an exception or undefined behaviour: a null
-- operand, a column that is not there under `at`, an index that was never set.
pub mod Comparable
pub mod Sound
use open_mem_db.Prelude.{
  ℕ, suc, String, Bool, true, false, ◌&&◌, ◌||◌, Option, none, some, List, [], ◌∷◌, leb, ◌==◌,
  if◌then◌else◌, get_elem?,
}
use open_mem_db.Types.{DataType, TervelData, rank}
use open_mem_db.Schema.{SqlColumn, ColumnReference}
use open_mem_db.Result.{ResultStatus, UintResult, success}
use open_mem_db.Expr.{
  ExprInfo, ExpressionOperation, Expression, is_expr_flag_contained, flag_nested, flag_operation,
  flag_column, flag_value,
}
use open_mem_db.Expr.Expression.{nullptr as no_expr, node}
use open_mem_db.Predicate.{Predicate, ValuePredicate, nullptr, nested, value, column, single}
use open_mem_db.Tervel.{Tervel}
use open_mem_db.Store.{DataStore}
use open_mem_db.Store.Tables.{get_table_schema, get_column_index}

-- The enumerators SMALL_INT to BIG_INT, on their values plus one.
abbrev pub is_integral : ℕ → Bool
is_integral r = leb 2 r && leb r 4

-- The test on the types of two columns.
abbrev pub columns_comparable : DataType → DataType → Bool
columns_comparable l r = rank l == rank r || (is_integral (rank l) && is_integral (rank r))

-- The test on the type bits of a value and the type of a column. Its last comparison reads the
-- value's type again.
abbrev pub value_comparable : ℕ → DataType → Bool
value_comparable v col =
    suc v == rank col || (is_integral (suc v) && (leb 2 (rank col) && leb (suc v) 4))

abbrev pub is_null : Predicate → Bool
is_null nullptr = true
is_null _ = false

-- A node whose children were made: with a null child the other is deleted too.
pub nested_of : ExpressionOperation → Predicate → Predicate → Predicate
nested_of op l r = if is_null l || is_null r then nested op nullptr nullptr else nested op l r

abbrev pub found_index : UintResult → Option ℕ
found_index r = elim r.status [ success ↦ some r.result | _ ↦ none ]

module _ ⦃t : Tervel⦄ (s : DataStore) where
  -- A column reference, when the column is found.
  pub column_ref : String → String → Option ColumnReference
  column_ref table name = elim (found_index (get_column_index s table name)) [
    | none ↦ none
    | some i ↦ some (record { table = table; column_idx = i })
  ]

  -- getTableSchema(table).result.columns.at(column_idx).type
  pub column_type : ColumnReference → Option DataType
  column_type ref = elim (get_elem? (get_table_schema s ref.table).result.columns ref.column_idx) [
    | none ↦ none
    | some c ↦ some c.type
  ]

  -- The check of the types of two columns
  pub compare_columns : ColumnReference → ColumnReference → Option Predicate
  compare_columns l r = elim (column_type l) [
    | none ↦ none
    | some ltype ↦ elim (column_type r) [
      | none ↦ none
      | some rtype ↦ some (if columns_comparable ltype rtype then column l r else nullptr)
    ]
  ]

  -- Two columns
  pub make_column : ExprInfo → ExprInfo → Option Predicate
  make_column l r = elim (column_ref l.table_name l.table_column) [
    | none ↦ none
    | some lref ↦ elim (column_ref r.table_name r.table_column) [
      | none ↦ none
      | some rref ↦ compare_columns lref rref
    ]
  ]

  -- A column and a value; a column that is not found gives a null predicate.
  pub make_value : ExpressionOperation → ExprInfo → TervelData → Option Predicate
  make_value op col v = elim (column_ref col.table_name col.table_column) [
    | none ↦ some nullptr
    | some ref ↦ elim (column_type ref) [
      | none ↦ none
      | some type ↦ some (
          if value_comparable v.type type
          then value (record { op = op; column = ref; expected_value = single v })
          else nullptr)
    ]
  ]

  -- The part for OPERATION: both operands are read.
  pub make_operation : ExprInfo → Expression → Expression → Option Predicate
  unfolding column_ref column_type compare_columns make_column make_value
  make_operation i no_expr r = none
  make_operation i (node l ll lr) no_expr = none
  make_operation i (node l ll lr) (node r rl rr) =
      if is_expr_flag_contained l.flags flag_column && is_expr_flag_contained r.flags flag_column
      then make_column l r
      else if is_expr_flag_contained l.flags flag_value
      then make_value i.op r l.value
      else make_value i.op l r.value

  -- The two parts one after the other; OPERATION has the last word.
  pub make_node :
      ExprInfo → Expression → Expression → Option Predicate → Option Predicate → Option Predicate
  unfolding nested_of make_operation
  make_node i le re l r =
      if is_expr_flag_contained i.flags flag_nested
      then elim l [
        | none ↦ none
        | some lp ↦ elim r [
          | none ↦ none
          | some rp ↦
              if is_expr_flag_contained i.flags flag_operation
              then make_operation i le re
              else some (nested_of i.op lp rp)
        ]
      ]
      else if is_expr_flag_contained i.flags flag_operation
      then make_operation i le re
      else some nullptr

  unfoldable pub make_predicate : Expression → Option Predicate
  unfolding make_node
  make_predicate no_expr = some nullptr
  make_predicate (node i l r) = make_node i l r (make_predicate l) (make_predicate r)
