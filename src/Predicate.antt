-- ===== src/Predicate.antt =====
-- database/include/sql/predicate.h and the evaluation half of predicate.cc: predicate trees and
-- the comparison of a stored cell with the value that a predicate expects.
pub mod Compare
pub mod Make
use open_mem_db.Prelude.{ℕ, Bool, true, false, ◌||◌, ◌==◌, if◌then◌else◌}
use open_mem_db.Types.{TervelData, pack, zeroed}
use open_mem_db.Schema.{ColumnReference}
use open_mem_db.Expr.{ExpressionOperation, equals, not_equals}
use open_mem_db.Sql.Boolean.{SqlBoolean, of_value, sql_true, sql_false, sql_unknown, op_not}

-- class ExpressionValue
pub record ExpressionValue : Type 0 where
  pub is_range : Bool
  pub value : TervelData
  pub range_start : TervelData
  pub range_end : TervelData

-- ExpressionValue(value)
abbrev pub single : TervelData → ExpressionValue
single v = record { is_range = false; value = v; range_start = zeroed; range_end = zeroed }

pub record ValuePredicate : Type 0 where
  pub op : ExpressionOperation
  pub column : ColumnReference
  pub expected_value : ExpressionValue

-- Predicate behind a pointer, with its three subclasses
pub data Predicate : Type 0 where
  nullptr : Predicate
  nested : ExpressionOperation → Predicate → Predicate → Predicate
  value : ValuePredicate → Predicate
  column : ColumnReference → ColumnReference → Predicate

-- operator== on ExpressionValue
unfoldable pub op_eq : ExpressionValue → ExpressionValue → SqlBoolean
op_eq lhs rhs =
    if lhs.is_range || rhs.is_range
    then of_value sql_unknown
    else if lhs.value.null || rhs.value.null
    then of_value sql_unknown
    else if pack lhs.value == pack rhs.value
    then of_value sql_true
    else of_value sql_false

-- operator!= on ExpressionValue
unfoldable pub op_ne : ExpressionValue → ExpressionValue → SqlBoolean
unfolding op_eq op_not
op_ne lhs rhs = op_not (op_eq lhs rhs)

-- evaluateOperation
unfoldable pub evaluate_operation :
    ExpressionOperation → ExpressionValue → ExpressionValue → SqlBoolean
unfolding op_eq op_ne
evaluate_operation equals lhs rhs = op_eq lhs rhs
evaluate_operation not_equals lhs rhs = op_ne lhs rhs
evaluate_operation _ lhs rhs = of_value sql_false
