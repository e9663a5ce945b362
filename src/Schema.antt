-- ===== src/Schema.antt =====
-- database/include/sql/common.h and data/table.h: columns, their constraints and references.
use open_mem_db.Prelude.{ℕ, String, List}
use open_mem_db.Types.{DataType, TervelData}

pub data SqlConstraintType : Type 0 where
  no_constraint not_null default auto_increment : SqlConstraintType

-- The members that the program reads; the references to other tables are never set.
pub record SqlConstraint : Type 0 where
  pub type : SqlConstraintType
  pub value : TervelData

pub record SqlColumn : Type 0 where
  pub name : String
  pub type : DataType
  pub constraint : List SqlConstraint

pub record TableSchema : Type 0 where
  pub columns : List SqlColumn

pub record ColumnUpdate : Type 0 where
  pub column_idx : ℕ
  pub new_data : TervelData

pub record ColumnReference : Type 0 where
  pub table : String
  pub column_idx : ℕ

pub data SqlStatement : Type 0 where
  invalid create_table drop_table select update insert_into delete : SqlStatement
