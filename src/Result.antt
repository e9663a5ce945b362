-- ===== src/Result.antt =====
-- database/include/util/result.h: statuses, and the results that the data store returns.
use open_mem_db.Prelude.{ℕ, List}
use open_mem_db.Types.{TervelData}

pub data ResultStatus : Type 0 where
  success failure failure_db_unknown_state failure_out_memory failure_syntax : ResultStatus

-- A module of its own, since the two enumerations share enumerators.
pub data ManipStatus : Type 0 where
  done err err_unknown_statement err_no_memory err_table_not_exist err_table_cmd_invalid
        err_contention err_partial err_partial_contention err_failed_constraint :
      ManipStatus

pub data ConstraintStatus : Type 0 where
  kept err_null err_row_len : ConstraintStatus

pub data ResultType : Type 0 where
  query command other : ResultType

-- Result<ManipStatus> of data/types.h
pub record ManipResult : Type 0 where
  pub status : ResultStatus
  pub result : ManipStatus
  pub rows_affected : ℕ

-- ManipResult(status, result)
abbrev pub manip : ResultStatus → ManipStatus → ManipResult
manip s r = record { status = s; result = r; rows_affected = 0 }

-- RecordData of data/types.h
abbrev pub RecordData : Type 0
RecordData = List TervelData

-- Result<MultiRecordData> of data/types.h
pub record MultiRecordResult : Type 0 where
  pub status : ResultStatus
  pub result : List RecordData

-- UintResult
pub record UintResult : Type 0 where
  pub status : ResultStatus
  pub result : ℕ
