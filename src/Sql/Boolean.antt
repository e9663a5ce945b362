-- ===== src/Sql/Boolean.antt =====
-- database/source/sql/types/boolean.cc: the tri-state Boolean. `m_value` is the byte of the
-- enumeration BooleanValue.
pub mod Laws
use open_mem_db.Prelude.{ℕ, ◌%◌, Bool, true, false, not, ◌&&◌, ◌||◌, ltb, ◌==◌, if◌then◌else◌}
use open_mem_db.Types.{TervelData, boolean, type_code}

-- SQLNullable of sql/common.h and its heir
pub record SqlBoolean : Type 0 where
  pub m_is_null : Bool
  pub m_is_nullable : Bool
  pub m_value : ℕ

abbrev pub sql_false : ℕ
sql_false = 0

abbrev pub sql_true : ℕ
sql_true = 1

abbrev pub sql_unknown : ℕ
sql_unknown = 2

-- SQLBoolean()
abbrev pub default : SqlBoolean
default = record { m_is_null = true; m_is_nullable = true; m_value = sql_unknown }

-- SQLBoolean(bool)
abbrev pub of_bool : Bool → SqlBoolean
of_bool b = record {
  m_is_null = false;
  m_is_nullable = true;
  m_value = if b then sql_true else sql_false;
}

-- SQLBoolean(BooleanValue)
abbrev pub of_value : ℕ → SqlBoolean
of_value v = record { m_is_null = false; m_is_nullable = true; m_value = v }

-- SQLBoolean(TervelData). On the early return `m_value` keeps whatever its memory held, `junk`.
unfoldable pub of_tervel : ℕ → TervelData → SqlBoolean
of_tervel junk d =
    if d.null || d.type == type_code boolean
    then record { m_is_null = true; m_is_nullable = true; m_value = junk }
    else record { m_is_null = false; m_is_nullable = true; m_value = d.data_value % 256 }

unfoldable pub is_unknown : SqlBoolean → Bool
is_unknown b = b.m_is_null || b.m_value == sql_unknown

unfoldable pub is_true : SqlBoolean → Bool
is_true b = not b.m_is_null && b.m_value == sql_true

-- operator=: the null flags of the target stay.
unfoldable pub assign : SqlBoolean → SqlBoolean → SqlBoolean
assign this other = record this { m_value = other.m_value }

-- operator!, on the byte
negate_value : ℕ → ℕ
negate_value v =
    if v == sql_false then sql_true else if v == sql_true then sql_false else sql_unknown

unfoldable pub op_not : SqlBoolean → SqlBoolean
unfolding negate_value
op_not b = of_value (negate_value b.m_value)

unfoldable pub op_or : SqlBoolean → SqlBoolean → SqlBoolean
unfolding is_unknown
op_or lhs rhs =
    if is_unknown lhs || is_unknown rhs
    then of_value sql_unknown
    else of_bool (lhs.m_value == sql_true || rhs.m_value == sql_true)

unfoldable pub op_and : SqlBoolean → SqlBoolean → SqlBoolean
unfolding op_not op_or
op_and lhs rhs = op_not (op_or (op_not lhs) (op_not rhs))

unfoldable pub op_eq : SqlBoolean → SqlBoolean → SqlBoolean
unfolding is_unknown
op_eq lhs rhs =
    if is_unknown lhs || is_unknown rhs
    then of_value sql_unknown
    else if lhs.m_value == rhs.m_value
    then of_value sql_true
    else of_value sql_false

unfoldable pub op_ne : SqlBoolean → SqlBoolean → SqlBoolean
unfolding op_not op_eq
op_ne lhs rhs = op_not (op_eq lhs rhs)

unfoldable pub op_lt : SqlBoolean → SqlBoolean → SqlBoolean
unfolding is_unknown
op_lt lhs rhs =
    if is_unknown lhs || is_unknown rhs
    then of_value sql_unknown
    else if ltb lhs.m_value rhs.m_value
    then of_value sql_true
    else of_value sql_false

unfoldable pub op_gt : SqlBoolean → SqlBoolean → SqlBoolean
unfolding op_lt
op_gt lhs rhs = op_lt rhs lhs

unfoldable pub op_le : SqlBoolean → SqlBoolean → SqlBoolean
unfolding op_not op_gt
op_le lhs rhs = op_not (op_gt lhs rhs)

unfoldable pub op_ge : SqlBoolean → SqlBoolean → SqlBoolean
unfolding op_not op_lt
op_ge lhs rhs = op_not (op_lt lhs rhs)
