-- ===== src/Sql/Exact.antt =====
-- database/include/sql/types/exact_numeric.h: the template SQLExactNumeric. `m_data` is the word of
-- its `width` bits, which stands for a signed number: 16, 32 or 64.
use open_mem_db.Prelude.{
  ℕ, ◌+◌, ◌-◌, ◌%◌, ◌^◌, ◌<◌, ◌≡◌, ◌↔◌, refl, ap, ◌⊎◌, inl, inr, Bool, true, false, Bool-cases,
  ◌||◌, ltb, ◌==◌, ==_iff, if◌then◌else◌, arith,
}
use open_mem_db.Types.{TervelData, small_int, integer, big_int, type_code}
use open_mem_db.Sql.Boolean.{
  SqlBoolean, of_value, sql_unknown, sql_true, sql_false, is_true, op_not,
}

pub record SqlExactNumeric : Type 0 where
  pub m_is_null : Bool
  pub m_is_nullable : Bool
  pub width : ℕ
  pub m_data : ℕ

-- SQLExactNumeric()
abbrev pub default : ℕ → SqlExactNumeric
default w = record { m_is_null = true; m_is_nullable = true; width = w; m_data = 0 }

-- The copy constructor: the copy of a null is not null.
abbrev pub copy : SqlExactNumeric → SqlExactNumeric
copy other = record other { m_is_null = false }

-- SQLExactNumeric(T, bool)
abbrev pub of_number : ℕ → ℕ → Bool → SqlExactNumeric
of_number w v nullable = record {
  m_is_null = false;
  m_is_nullable = nullable;
  width = w;
  m_data = v;
}

-- Whether the switch on the type of a cell accepts a template argument of `w` bits
unfoldable pub fits_type : ℕ → ℕ → Bool
fits_type w t =
    if t == type_code small_int
    then w == 16
    else if t == type_code integer
    then w == 32
    else if t == type_code big_int
    then w == 64
    else false

-- SQLExactNumeric(TervelData), which leaves `m_data` as its memory was, `junk`, for a null
unfoldable pub of_tervel : ℕ → ℕ → TervelData → SqlExactNumeric
of_tervel w junk d =
    if d.null
    then record { m_is_null = true; m_is_nullable = true; width = w; m_data = junk }
    else if fits_type w d.type
    then of_number w (d.data_value % 2 ^ w) true
    else record { m_is_null = true; m_is_nullable = true; width = w; m_data = junk }

-- operator=: the flags of the target stay.
abbrev pub assign : SqlExactNumeric → SqlExactNumeric → SqlExactNumeric
assign this other = record this { m_data = other.m_data }

-- The signed number of `w` bits, on 64 bits
unfoldable pub extend : ℕ → ℕ → ℕ
extend w v = if ltb v (2 ^ (w - 1)) then v else v + (2 ^ 64 - 2 ^ w)

-- operator==, after the conversion of both sides to the wider type
unfoldable pub op_eq : SqlExactNumeric → SqlExactNumeric → SqlBoolean
op_eq lhs rhs =
    if lhs.m_is_null || rhs.m_is_null
    then of_value sql_unknown
    else if extend lhs.width lhs.m_data == extend rhs.width rhs.m_data
    then of_value sql_true
    else of_value sql_false

-- operator!=
unfoldable pub op_ne : SqlExactNumeric → SqlExactNumeric → SqlBoolean
op_ne lhs rhs = op_not (op_eq lhs rhs)

extend_injective :
    (w a b : ℕ)
    → (w ≡ 16) ⊎ (w ≡ 32) ⊎ (w ≡ 64)
    → a < 2 ^ w
    → b < 2 ^ w
    → extend w a ≡ extend w b
    → a ≡ b
unfolding extend
extend_injective w a b (inl e) ha hb h = ground (arith, rw (e) at h, rw (e) at ha, rw (e) at hb)
extend_injective w a b (inr (inl e)) ha hb h =
    ground (arith, rw (e) at h, rw (e) at ha, rw (e) at hb)
extend_injective w a b (inr (inr e)) ha hb h =
    ground (arith, rw (e) at h, rw (e) at ha, rw (e) at hb)

-- Two numbers of one width are equal for operator== exactly when their words are.
pub op_eq-of_number :
    (w a b : ℕ)
    → (w ≡ 16) ⊎ (w ≡ 32) ⊎ (w ≡ 64)
    → a < 2 ^ w
    → b < 2 ^ w
    → (is_true (op_eq (of_number w a true) (of_number w b true)) ≡ true) ↔ (a ≡ b)
unfolding op_eq is_true
op_eq-of_number w a b width ha hb = elim (Bool-cases (extend w a == extend w b)) [
  | inl e ↦
      (let same = extend_injective w a b width ha hb ((==_iff (extend w a) (extend w b)).0 e) in
        (λ h. same, λ h. rw (op_eq, e) refl))
  | inr e ↦ (
    λ h. absurd (cc (rw (op_eq, e) at h)),
    λ h. absurd (cc (e, (==_iff (extend w a) (extend w b)).1 (ap (extend w) h))),
  )
]
