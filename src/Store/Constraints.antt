-- ===== src/Store/Constraints.antt =====
-- schemaChecker of data_store.cc: the checks and the filling-in of a row before its insertion.
pub mod Laws
use open_mem_db.Prelude.{
  ℕ, suc, ◌+◌, ◌%◌, ◌^◌, Bool, true, false, Option, none, some, List, [], ◌∷◌, ◌==◌, if◌then◌else◌,
  length,
}
use open_mem_db.Types.{TervelData, DataType, integer, type_code}
use open_mem_db.Schema.{
  SqlConstraint, SqlColumn, TableSchema, no_constraint, not_null, default, auto_increment,
}
use open_mem_db.Result.{RecordData, ConstraintStatus, kept, err_null, err_row_len}

-- The value that AUTO_INCREMENT puts in.
abbrev pub next_number : ℕ → TervelData
next_number counter = record {
  tervel_status = 0;
  type = type_code integer;
  null = false;
  data_value = (counter + 1) % 2 ^ 57;
}

-- The inner loop, over the constraints of one column. `row_data` is the cell as it came; `cell` is
-- the row's cell, which the loop may write. `none` is the return with ERR_NULL.
unfoldable pub constraint_loop :
    ℕ → TervelData → List SqlConstraint → TervelData → Option TervelData
constraint_loop counter row_data [] cell = some cell
constraint_loop counter row_data (c ∷ cs) cell = elim c.type [
  | no_constraint ↦ constraint_loop counter row_data cs cell
  | not_null ↦ if row_data.null then none else constraint_loop counter row_data cs cell
  | auto_increment ↦ constraint_loop counter row_data cs (next_number counter)
  | default ↦ constraint_loop counter row_data cs (if row_data.null then c.value else cell)
]

-- The outer loop, over columns and cells together; the two have one length.
unfoldable pub row_loop : ℕ → List SqlColumn → RecordData → Option RecordData
unfolding constraint_loop
row_loop counter (col ∷ cols) (d ∷ ds) = elim (constraint_loop counter d col.constraint d) [
  | none ↦ none
  | some cell ↦ elim (row_loop counter cols ds) [ none ↦ none | some cells ↦ some (cell ∷ cells) ]
]
row_loop counter cols ds = some ds

-- schemaChecker: the status, and the row as it stands at the return. On a failure the caller
-- discards the row, which is given back as it came.
unfoldable pub schema_checker : TableSchema → ℕ → RecordData → ConstraintStatus × RecordData
unfolding row_loop
schema_checker schema counter row =
    if length row == length schema.columns
    then elim (row_loop counter schema.columns row) [
      | none ↦ (err_null, row)
      | some filled ↦ (kept, filled)
    ]
    else (err_row_len, row)
