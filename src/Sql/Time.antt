-- ===== src/Sql/Time.antt =====
-- The class SQLTime of database/source/sql/types/datetime.cc. The two displacements are the bit
-- patterns of an int16_t.
pub mod Order
use open_mem_db.Prelude.{ℕ, ◌+◌, Bool, true, false, not, ◌&&◌, ◌||◌, ltb, ◌==◌, if◌then◌else◌}
use open_mem_db.Types.{TervelData, TimeData, time, time_fields, type_code}
use open_mem_db.Sql.Boolean.{SqlBoolean, of_value, sql_true, sql_false, sql_unknown, op_not, op_or}

pub record SqlTime : Type 0 where
  pub m_is_null : Bool
  pub m_is_nullable : Bool
  pub m_hour : ℕ
  pub m_minute : ℕ
  pub m_second : ℕ
  pub m_tz_hour : ℕ
  pub m_tz_minute : ℕ
  pub m_with_timezone : Bool

-- SQLTime(hour, minute, second, nullable): the displacements keep what their memory held.
abbrev pub of_hms : SqlTime → ℕ → ℕ → ℕ → Bool → SqlTime
of_hms junk h m s nullable = record junk {
  m_is_null = false;
  m_is_nullable = nullable;
  m_hour = h;
  m_minute = m;
  m_second = s;
  m_with_timezone = false;
}

-- int8_t to int16_t, on bit patterns
abbrev pub widen : ℕ → ℕ
widen b = if ltb b 128 then b else b + 65280

of_fields : SqlTime → TimeData → SqlTime
of_fields junk f =
    let t = record junk {
      m_is_null = false;
      m_is_nullable = true;
      m_hour = f.hour;
      m_minute = f.minute;
      m_second = f.second;
    } in
    if not (f.tz_hour == 0) || not (f.tz_minute == 0)
    then record t {
      m_with_timezone = true;
      m_tz_hour = widen f.tz_hour;
      m_tz_minute = widen f.tz_minute;
    }
    else t

-- SQLTime(TervelData): a member that is not written, `m_with_timezone` of a time with no
-- displacement among them, keeps what its memory held.
unfoldable pub of_tervel : SqlTime → TervelData → SqlTime
unfolding of_fields
of_tervel junk v =
    if v.null || not (v.type == type_code time)
    then record junk { m_is_null = true; m_is_nullable = true }
    else of_fields junk (time_fields v.data_value)

unfoldable pub set_time_zone_displacement : SqlTime → ℕ → ℕ → SqlTime
set_time_zone_displacement t hours minutes = record t {
  m_with_timezone = true;
  m_tz_hour = hours;
  m_tz_minute = minutes;
}

unfoldable pub is_valid : SqlTime → Bool
is_valid t = if t.m_is_null then false else true

-- The zone test of operator==: the minutes are only tested for being set.
zones_agree : SqlTime → SqlTime → SqlBoolean
zones_agree lhs rhs =
    if lhs.m_with_timezone && rhs.m_with_timezone
    then if lhs.m_tz_hour == rhs.m_tz_hour
        && not (lhs.m_tz_minute == 0)
        && not (rhs.m_tz_minute == 0)
      then of_value sql_true
      else of_value sql_false
    else if not lhs.m_with_timezone && not rhs.m_with_timezone
    then of_value sql_true
    else of_value sql_false

unfoldable pub op_eq : SqlTime → SqlTime → SqlBoolean
unfolding zones_agree
op_eq lhs rhs =
    if lhs.m_is_null || rhs.m_is_null
    then of_value sql_unknown
    else if lhs.m_hour == rhs.m_hour && lhs.m_minute == rhs.m_minute && lhs.m_second == rhs.m_second
    then zones_agree lhs rhs
    else of_value sql_false

unfoldable pub op_ne : SqlTime → SqlTime → SqlBoolean
unfolding op_eq op_not
op_ne lhs rhs = op_not (op_eq lhs rhs)

unfoldable pub op_lt : SqlTime → SqlTime → SqlBoolean
op_lt lhs rhs =
    if lhs.m_is_null || rhs.m_is_null
    then of_value sql_unknown
    else if ltb lhs.m_hour rhs.m_hour
    then of_value sql_true
    else if lhs.m_hour == rhs.m_hour && ltb lhs.m_minute rhs.m_minute
    then of_value sql_true
    else if lhs.m_hour == rhs.m_hour
        && lhs.m_minute == rhs.m_minute
        && ltb lhs.m_second rhs.m_second
    then of_value sql_true
    else of_value sql_false

unfoldable pub op_le : SqlTime → SqlTime → SqlBoolean
unfolding op_lt op_eq op_or
op_le lhs rhs = op_or (op_lt lhs rhs) (op_eq lhs rhs)

unfoldable pub op_gt : SqlTime → SqlTime → SqlBoolean
unfolding op_le op_not
op_gt lhs rhs = op_not (op_le lhs rhs)

unfoldable pub op_ge : SqlTime → SqlTime → SqlBoolean
unfolding op_lt op_not
op_ge lhs rhs = op_not (op_lt lhs rhs)
