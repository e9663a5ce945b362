-- ===== src/Sql/Time/Order.antt =====
-- The comparisons of times without a displacement.
use open_mem_db.Prelude.{
  ℕ, ◌+◌, ◌*◌, ◌<◌, ◌≡◌, Bool, true, false, not, ◌||◌, arith, ltb, leb, ◌==◌, if◌then◌else◌,
}
use open_mem_db.Sql.Boolean.{SqlBoolean, of_bool, of_value, sql_unknown, sql_false}
use open_mem_db.Sql.Time.{SqlTime, op_eq, op_ne, op_lt, op_le, op_gt, op_ge}

-- A time of day with no displacement, its minute and second within their ranges.
pub record IsLocal (t : SqlTime) : Type 0 where
  pub no_zone : t.m_with_timezone ≡ false
  pub minute_range : t.m_minute < 60
  pub second_range : t.m_second < 60

-- Seconds since midnight.
abbrev pub seconds : SqlTime → ℕ
seconds t = 3600 * t.m_hour + 60 * t.m_minute + t.m_second

-- A comparison of two times: unknown if one is null, else the given answer.
abbrev pub unless_null : SqlTime → SqlTime → Bool → SqlBoolean
unless_null a b answer = if a.m_is_null || b.m_is_null then of_value sql_unknown else of_bool answer

module _ (a b : SqlTime) (ha : IsLocal a) (hb : IsLocal b) where
  eq_by_seconds : op_eq a b ≡ unless_null a b (seconds a == seconds b)
  unfolding op_eq
  eq_by_seconds = ground arith

  lt_by_seconds : op_lt a b ≡ unless_null a b (ltb (seconds a) (seconds b))
  unfolding op_lt
  lt_by_seconds = ground arith

-- For times without a displacement, minute and second in range, each of the six comparisons is
-- that of the seconds since midnight, and is unknown exactly if one of the times is null.
pub comparisons_by_seconds :
    (a b : SqlTime)
    → IsLocal a
    → IsLocal b
    → (op_eq a b ≡ unless_null a b (seconds a == seconds b))
      × (op_ne a b ≡ unless_null a b (not (seconds a == seconds b)))
      × (op_lt a b ≡ unless_null a b (ltb (seconds a) (seconds b)))
      × (op_le a b ≡ unless_null a b (leb (seconds a) (seconds b)))
      × (op_gt a b ≡ unless_null a b (ltb (seconds b) (seconds a)))
      × (op_ge a b ≡ unless_null a b (leb (seconds b) (seconds a)))
unfolding op_ne op_le op_gt op_ge
comparisons_by_seconds a b ha hb =
    let eq = eq_by_seconds a b ha hb in
    let lt = lt_by_seconds a b ha hb in
    (
      eq,
      rw eq (ground arith),
      lt,
      rw (lt, eq) (ground arith),
      rw (lt, eq) (ground arith),
      rw lt (ground arith),
    )

-- A time that is not null and has a displacement by whole hours is not equal to itself, nor less
-- than or equal to itself.
pub whole_hour_zone_not_reflexive :
    (t : SqlTime)
    → t.m_is_null ≡ false
    → t.m_with_timezone ≡ true
    → t.m_tz_minute ≡ 0
    → (op_eq t t ≡ of_value sql_false) × (op_le t t ≡ of_value sql_false)
unfolding op_eq op_le
whole_hour_zone_not_reflexive t n z m = (ground arith, ground arith)
