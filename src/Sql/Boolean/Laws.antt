-- ===== src/Sql/Boolean/Laws.antt =====
-- The tri-state operators against the two-valued ones. `op_and` goes through `op_not`, which drops
-- the null flag, so its operands must not be null values with a known byte.
use open_mem_db.Prelude.{
  ◌<◌, ◌≡◌, Bool, false, not, ◌&&◌, ◌||◌, arith, ltb, leb, ◌==◌, if◌then◌else◌,
}
use open_mem_db.Sql.Boolean.{
  SqlBoolean, of_bool, of_value, sql_unknown, is_unknown, is_true, op_or, op_and, op_eq, op_ne,
  op_lt, op_gt, op_le, op_ge,
}

-- A proper value: not null, and one of the three enumerators.
pub record IsProper (b : SqlBoolean) : Type 0 where
  pub not_null : b.m_is_null ≡ false
  pub enumerator : b.m_value < 3

-- The two connectives on proper values: an unknown operand makes the result unknown, whatever the
-- other operand is; on known operands they are the Boolean connectives.
pub connectives_strict :
    (a b : SqlBoolean)
    → IsProper a
    → IsProper b
    → (op_or a b ≡ (
        if is_unknown a || is_unknown b
        then of_value sql_unknown
        else of_bool (is_true a || is_true b)))
      × (op_and a b ≡ (
          if is_unknown a || is_unknown b
          then of_value sql_unknown
          else of_bool (is_true a && is_true b)))
unfolding op_or op_and is_unknown is_true
connectives_strict a b ha hb = ground arith

-- On known values the six comparisons are those of the numbers 0 and 1; they are unknown as soon as
-- one side is.
pub comparisons_by_value :
    (a b : SqlBoolean)
    → let unknown_or =
        λ (t : Bool). if is_unknown a || is_unknown b then of_value sql_unknown else of_bool t in
      (op_eq a b ≡ unknown_or (a.m_value == b.m_value))
      × (op_ne a b ≡ unknown_or (not (a.m_value == b.m_value)))
      × (op_lt a b ≡ unknown_or (ltb a.m_value b.m_value))
      × (op_gt a b ≡ unknown_or (ltb b.m_value a.m_value))
      × (op_le a b ≡ unknown_or (leb a.m_value b.m_value))
      × (op_ge a b ≡ unknown_or (leb b.m_value a.m_value))
unfolding op_eq op_ne op_lt op_gt op_le op_ge is_unknown
comparisons_by_value a b =
    (ground arith, ground arith, ground arith, ground arith, ground arith, ground arith)
