-- ===== src/Sql/Date.antt =====
-- The class SQLDate of database/source/sql/types/datetime.cc.
pub mod Order
use open_mem_db.Prelude.{ℕ, Bool, true, false, not, ◌&&◌, ◌||◌, ltb, ◌==◌, if◌then◌else◌}
use open_mem_db.Types.{TervelData, DateData, date, date_fields, type_code}
use open_mem_db.Sql.Boolean.{SqlBoolean, of_value, sql_true, sql_false, sql_unknown, op_not, op_or}

pub record SqlDate : Type 0 where
  pub m_is_null : Bool
  pub m_is_nullable : Bool
  pub m_year : ℕ
  pub m_month : ℕ
  pub m_day : ℕ

-- SQLDate()
abbrev pub default : SqlDate
default = record { m_is_null = true; m_is_nullable = true; m_year = 0; m_month = 0; m_day = 0 }

-- SQLDate(year, month, day, nullable)
abbrev pub of_ymd : ℕ → ℕ → ℕ → Bool → SqlDate
of_ymd y m d nullable = record {
  m_is_null = false;
  m_is_nullable = nullable;
  m_year = y;
  m_month = m;
  m_day = d;
}

of_fields : DateData → SqlDate
of_fields f = of_ymd f.year f.month f.day true

-- SQLDate(TervelData). On the early return the three members keep what their memory held, those of
-- `junk`.
unfoldable pub of_tervel : SqlDate → TervelData → SqlDate
unfolding of_fields
of_tervel junk v =
    if v.null || not (v.type == type_code date)
    then record junk { m_is_null = true; m_is_nullable = true }
    else of_fields (date_fields v.data_value)

-- IsValid: the calendar itself is not checked.
unfoldable pub is_valid : SqlDate → Bool
is_valid d = if d.m_is_null then false else true

-- operator=
unfoldable pub assign : SqlDate → SqlDate → SqlDate
assign this other =
    if other.m_is_null
    then record this { m_is_nullable = true; m_is_null = true }
    else record this { m_year = other.m_year; m_month = other.m_month; m_day = other.m_day }

unfoldable pub op_eq : SqlDate → SqlDate → SqlBoolean
op_eq lhs rhs =
    if lhs.m_is_null || rhs.m_is_null
    then of_value sql_unknown
    else if lhs.m_year == rhs.m_year && lhs.m_month == rhs.m_month && lhs.m_day == rhs.m_day
    then of_value sql_true
    else of_value sql_false

unfoldable pub op_ne : SqlDate → SqlDate → SqlBoolean
unfolding op_eq op_not
op_ne lhs rhs = op_not (op_eq lhs rhs)

unfoldable pub op_lt : SqlDate → SqlDate → SqlBoolean
op_lt lhs rhs =
    if lhs.m_is_null || rhs.m_is_null
    then of_value sql_unknown
    else if ltb lhs.m_year rhs.m_year
        || (lhs.m_year == rhs.m_year && ltb lhs.m_month rhs.m_month)
        || (lhs.m_year == rhs.m_year && lhs.m_month == rhs.m_month && ltb lhs.m_day rhs.m_day)
    then of_value sql_true
    else of_value sql_false

unfoldable pub op_le : SqlDate → SqlDate → SqlBoolean
unfolding op_lt op_eq op_or
op_le lhs rhs = op_or (op_lt lhs rhs) (op_eq lhs rhs)

unfoldable pub op_gt : SqlDate → SqlDate → SqlBoolean
unfolding op_le op_not
op_gt lhs rhs = op_not (op_le lhs rhs)

unfoldable pub op_ge : SqlDate → SqlDate → SqlBoolean
unfolding op_lt op_not
op_ge lhs rhs = op_not (op_lt lhs rhs)
