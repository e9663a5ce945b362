-- ===== src/Sql/Date/Order.antt =====
-- The comparisons of dates are those of one number, the packed date.
use open_mem_db.Prelude.{
  ℕ, ◌+◌, ◌*◌, ◌<◌, ◌≡◌, Bool, not, ◌||◌, arith, ltb, leb, ◌==◌, if◌then◌else◌,
}
use open_mem_db.Sql.Boolean.{SqlBoolean, of_bool, of_value, sql_unknown}
use open_mem_db.Sql.Date.{SqlDate, op_eq, op_ne, op_lt, op_le, op_gt, op_ge}

-- The month and the day are bytes.
pub record InBytes (d : SqlDate) : Type 0 where
  pub month_byte : d.m_month < 256
  pub day_byte : d.m_day < 256

-- Year, month and day as one number, the year in front.
abbrev pub key : SqlDate → ℕ
key d = 65536 * d.m_year + 256 * d.m_month + d.m_day

-- A comparison of two dates: unknown if one is null, else the given answer.
abbrev pub unless_null : SqlDate → SqlDate → Bool → SqlBoolean
unless_null a b answer = if a.m_is_null || b.m_is_null then of_value sql_unknown else of_bool answer

module _ (a b : SqlDate) (ha : InBytes a) (hb : InBytes b) where
  eq_by_key : op_eq a b ≡ unless_null a b (key a == key b)
  unfolding op_eq
  eq_by_key = ground arith

  lt_by_key : op_lt a b ≡ unless_null a b (ltb (key a) (key b))
  unfolding op_lt
  lt_by_key = ground arith

-- For dates whose month and day are bytes, each of the six comparisons is that of the packed
-- dates, and is unknown exactly if one of the dates is null.
pub comparisons_by_key :
    (a b : SqlDate)
    → InBytes a
    → InBytes b
    → (op_eq a b ≡ unless_null a b (key a == key b))
      × (op_ne a b ≡ unless_null a b (not (key a == key b)))
      × (op_lt a b ≡ unless_null a b (ltb (key a) (key b)))
      × (op_le a b ≡ unless_null a b (leb (key a) (key b)))
      × (op_gt a b ≡ unless_null a b (ltb (key b) (key a)))
      × (op_ge a b ≡ unless_null a b (leb (key b) (key a)))
unfolding op_ne op_le op_gt op_ge
comparisons_by_key a b ha hb =
    let eq = eq_by_key a b ha hb in
    let lt = lt_by_key a b ha hb in
    (
      eq,
      rw eq (ground arith),
      lt,
      rw (lt, eq) (ground arith),
      rw (lt, eq) (ground arith),
      rw lt (ground arith),
    )
