-- ===== src/Builder.antt =====
-- database/source/sql/statements/builder.cc: the state that the parser fills in while it reads a
-- statement, and setupStatement of predicate.cc. `none` is undefined behaviour: a null statement, or
-- one of another kind under a cast. Allocations never fail; text that is printed is left out.
pub mod Start
pub mod Select
pub mod Update
pub mod Where
use open_mem_db.Prelude.{ℕ, String, Bool, true, false, Option, none, some, List, [], ◌∷◌}
use open_mem_db.Types.{TervelData}
use open_mem_db.Schema.{ColumnReference, ColumnUpdate, TableSchema, SqlConstraint}
use open_mem_db.Result.{RecordData}
use open_mem_db.Expr.{Expression}
use open_mem_db.Predicate.{Predicate, nullptr}
use open_mem_db.Store.Tables.{CreateTableCommand}

-- The structs of sql/statements/data_manipulation.h
pub record SelectQuery : Type 0 where
  pub source_columns : List ColumnReference
  pub tables : List String
  pub output_columns : List String
  pub predicate : Predicate

pub record InsertCommand : Type 0 where
  pub data_items : RecordData
  pub table : String

-- The members `predicate` and `runnable` are unset at first in the source: null and false here.
pub record UpdateCommand : Type 0 where
  pub table : String
  pub table_schema : TableSchema
  pub columns : List ColumnUpdate
  pub full_record : RecordData
  pub predicate : Predicate
  pub runnable : Bool

pub record DeleteCommand : Type 0 where
  pub table : String
  pub predicate : Predicate

-- ParsedStatement with its subclasses
pub data ParsedStatement : Type 0 where
  create_table_command : CreateTableCommand → ParsedStatement
  drop_table_command : String → ParsedStatement
  select_query : SelectQuery → ParsedStatement
  insert_command : InsertCommand → ParsedStatement
  update_command : UpdateCommand → ParsedStatement
  delete_command : DeleteCommand → ParsedStatement

pub record StatementBuilder : Type 0 where
  pub started : Bool
  pub valid : Bool
  pub temp_constraints : List SqlConstraint
  pub statement : Option ParsedStatement
  pub expr : Expression

-- StatementBuilder()
abbrev pub new_builder : StatementBuilder
new_builder = record {
  started = false;
  valid = false;
  temp_constraints = [];
  statement = none;
  expr = Expression.nullptr;
}

-- What every start does.
abbrev pub begin : StatementBuilder → ParsedStatement → StatementBuilder
begin b s = record b { started = true; statement = some s; valid = true }
