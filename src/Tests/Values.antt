-- ===== src/Tests/Values.antt =====
-- Words, dates, times and comparisons at concrete values.
use open_mem_db.Prelude.{◌≡◌, refl, true, false, arith}
use open_mem_db.Types.{big_int, DateData, TimeData}
use open_mem_db.Expr.{equals}
use open_mem_db.Predicate.{single, evaluate_operation}
use open_mem_db.Predicate.Compare.{evaluate_operation-holds}
use open_mem_db.Sql.Boolean.{
  SqlBoolean, of_bool, of_value, sql_unknown, sql_false, is_unknown, is_true,
}
use open_mem_db.Sql.Boolean as Tristate
use open_mem_db.Sql.Boolean.Laws.{connectives_strict}
use open_mem_db.Sql.Date as DateType
use open_mem_db.Sql.Date.Order.{comparisons_by_key}
use open_mem_db.Sql.Time as TimeType
use open_mem_db.Sql.Time.Order.{comparisons_by_seconds}
use open_mem_db.Tests.{cell, cell-Fits}

abbrev may_4 : DateData
may_4 = record { year = 2016; month = 5; day = 4 }

abbrev noon : TimeData
noon = record { hour = 12; minute = 0; second = 30; tz_hour = 5; tz_minute = 0 }

evaluate_operation-holds_example :
    is_true (evaluate_operation equals (single (cell big_int 20)) (single (cell big_int 20))) ≡ true
evaluate_operation-holds_example =
    evaluate_operation-holds equals (cell big_int 20) (cell big_int 20) (cell-Fits 20 (omega arith))
      (cell-Fits 20 (omega arith))

connectives_strict_example :
    (Tristate.op_or (of_bool true) (of_value sql_unknown) ≡ of_value sql_unknown)
    × (Tristate.op_and (of_bool true) (of_value sql_unknown) ≡ of_value sql_unknown)
unfolding is_unknown
connectives_strict_example =
    connectives_strict (of_bool true) (of_value sql_unknown)
      (record { not_null = refl; enumerator = omega arith })
      (record { not_null = refl; enumerator = omega arith })

abbrev christmas : DateType.SqlDate
christmas = DateType.of_ymd 2015 12 25 true

abbrev new_year : DateType.SqlDate
new_year = DateType.of_ymd 2016 1 1 true

comparisons_by_key_example :
    (DateType.op_eq christmas new_year ≡ of_bool false)
    × (DateType.op_ne christmas new_year ≡ of_bool true)
    × (DateType.op_lt christmas new_year ≡ of_bool true)
    × (DateType.op_le christmas new_year ≡ of_bool true)
    × (DateType.op_gt christmas new_year ≡ of_bool false)
    × (DateType.op_ge christmas new_year ≡ of_bool false)
comparisons_by_key_example =
    comparisons_by_key christmas new_year
      (record { month_byte = omega arith; day_byte = omega arith })
      (record { month_byte = omega arith; day_byte = omega arith })

abbrev blank_time : TimeType.SqlTime
blank_time = record {
  m_is_null = true;
  m_is_nullable = true;
  m_hour = 0;
  m_minute = 0;
  m_second = 0;
  m_tz_hour = 0;
  m_tz_minute = 0;
  m_with_timezone = false;
}

abbrev half_past : TimeType.SqlTime
half_past = TimeType.of_hms blank_time 11 30 59 true

abbrev midday : TimeType.SqlTime
midday = TimeType.of_hms blank_time 12 0 0 true

comparisons_by_seconds_example :
    (TimeType.op_eq half_past midday ≡ of_bool false)
    × (TimeType.op_ne half_past midday ≡ of_bool true)
    × (TimeType.op_lt half_past midday ≡ of_bool true)
    × (TimeType.op_le half_past midday ≡ of_bool true)
    × (TimeType.op_gt half_past midday ≡ of_bool false)
    × (TimeType.op_ge half_past midday ≡ of_bool false)
comparisons_by_seconds_example =
    comparisons_by_seconds half_past midday
      (record { no_zone = refl; minute_range = omega arith; second_range = omega arith })
      (record { no_zone = refl; minute_range = omega arith; second_range = omega arith })

-- Noon, one hour east of UTC.
abbrev noon_plus_1 : TimeType.SqlTime
noon_plus_1 = record midday { m_with_timezone = true; m_tz_hour = 1 }

-- It is not equal to itself.
whole_hour_zone : TimeType.op_eq noon_plus_1 noon_plus_1 ≡ of_value sql_false
unfolding TimeType.op_eq
whole_hour_zone = refl
