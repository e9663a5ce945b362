-- ===== src/Types.antt =====
-- database/include/util/types.h: the tagged 64-bit word of a column value, and the views of its
-- 57 data bits as a date or a time. A bit-field is the number of its bit pattern.
pub mod Layout
use open_mem_db.Prelude.{
  ℕ, ◌+◌, ◌*◌, ◌/◌, ◌%◌, ◌^◌, ◌<◌, ◌≡◌, Bool, true, false, ◌==◌, if◌then◌else◌,
}

-- enum DataType
pub data DataType : Type 0 where
  untyped boolean small_int integer big_int float date time : DataType

-- The enumeration's value plus one: NONE is -1 in the source.
abbrev pub rank : DataType → ℕ
rank untyped = 0
rank boolean = 1
rank small_int = 2
rank integer = 3
rank big_int = 4
rank float = 5
rank date = 6
rank time = 7

-- The code of an enumerator in a 3-bit field, where -1 becomes 7.
abbrev pub type_code : DataType → ℕ
type_code t = (rank t + 7) % 8

-- union TervelData, as its bit-fields
pub record TervelData : Type 0 where
  pub tervel_status : ℕ
  pub type : ℕ
  pub null : Bool
  pub data_value : ℕ

-- The fields are within their widths 3, 3 and 57.
pub record Fits (d : TervelData) : Type 0 where
  pub status_fits : d.tervel_status < 8
  pub type_fits : d.type < 8
  pub value_fits : d.data_value < 2 ^ 57

abbrev pub bit : Bool → ℕ
bit true = 1
bit false = 0

-- The union's member `value`: the word that the fields make up.
unfoldable pub pack : TervelData → ℕ
pack d = d.tervel_status + 8 * d.type + 64 * bit d.null + 128 * d.data_value

-- A word read back through the bit-fields.
unfoldable pub unpack : ℕ → TervelData
unpack w = record {
  tervel_status = w % 8;
  type = w / 8 % 8;
  null = w / 64 % 2 == 1;
  data_value = w / 128 % 2 ^ 57;
}

-- { .value = 0 }
abbrev pub zeroed : TervelData
zeroed = record { tervel_status = 0; type = 0; null = false; data_value = 0 }

-- `null_data`: only the null bit is set.
abbrev pub null_data : TervelData
null_data = record zeroed { null = true }

-- union DateData
pub record DateData : Type 0 where
  pub year : ℕ
  pub month : ℕ
  pub day : ℕ

unfoldable pub date_value : DateData → ℕ
date_value d = d.year + 2 ^ 16 * d.month + 2 ^ 24 * d.day

unfoldable pub date_fields : ℕ → DateData
date_fields w = record { year = w % 2 ^ 16; month = w / 2 ^ 16 % 2 ^ 8; day = w / 2 ^ 24 % 2 ^ 8 }

-- union TimeData, the two signed bytes as bit patterns
pub record TimeData : Type 0 where
  pub hour : ℕ
  pub minute : ℕ
  pub second : ℕ
  pub tz_hour : ℕ
  pub tz_minute : ℕ

unfoldable pub time_value : TimeData → ℕ
time_value t =
    t.hour + 2 ^ 8 * t.minute + 2 ^ 16 * t.second + 2 ^ 24 * t.tz_hour + 2 ^ 32 * t.tz_minute

unfoldable pub time_fields : ℕ → TimeData
time_fields w = record {
  hour = w % 2 ^ 8;
  minute = w / 2 ^ 8 % 2 ^ 8;
  second = w / 2 ^ 16 % 2 ^ 8;
  tz_hour = w / 2 ^ 24 % 2 ^ 8;
  tz_minute = w / 2 ^ 32 % 2 ^ 8;
}
