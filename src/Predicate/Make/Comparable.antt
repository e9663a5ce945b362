-- ===== src/Predicate/Make/Comparable.antt =====
-- The types that predicate.cc lets a predicate compare, listed, and its tests on their numbers.
use open_mem_db.Prelude.{
  ap, ◌==◌, ==_iff, ℕ, zero, suc, ◌≢◌, ◌⊎◌, ◌||◌, leb, arith, ◌≡◌, refl, sym, ◌∙◌, inl, inr, Bool,
  true, false, ◌&&◌, Bool-cases, if◌then◌else◌,
}
use open_mem_db.Types.{
  DataType, type_code, rank, untyped, boolean, small_int, integer, big_int, float, date, time,
}
use open_mem_db.Predicate.Make.{is_integral, columns_comparable, value_comparable}

-- The integer types
abbrev pub IsInteger : DataType → Type 0
IsInteger small_int = Unit
IsInteger integer = Unit
IsInteger big_int = Unit
IsInteger _ = ⊥

-- The types of two columns that are compared: one type, or two integer types
abbrev pub ColumnsMeet : DataType → DataType → Type 0
ColumnsMeet l r = (l ≡ r) ⊎ (IsInteger l × IsInteger r)

-- The types that stand after BOOLEAN in the enumeration
abbrev pub IsAfterBoolean : DataType → Type 0
IsAfterBoolean untyped = ⊥
IsAfterBoolean boolean = ⊥
IsAfterBoolean _ = Unit

-- A value's type code and the type of the column it is compared with: the value has the column's
-- type, or an integer is compared with a column of any type after BOOLEAN.
abbrev pub ValueMeets : ℕ → DataType → Type 0
ValueMeets v col =
    (type : DataType) × (v ≡ type_code type)
    × (type ≢ untyped)
    × ((type ≡ col) ⊎ (IsInteger type × IsAfterBoolean col))

or_left : (p q : Bool) → (p || q) ≡ true → p ≡ false → q ≡ true
or_left true q h e = absurd (cc e)
or_left false q h e = h

and_true : (p q : Bool) → (p && q) ≡ true → (p ≡ true) × (q ≡ true)
and_true true q h = (refl, h)
and_true false q h = absurd (cc h)

of_rank : ℕ → DataType
of_rank n =
    if n == 0
    then untyped
    else if n == 1
    then boolean
    else if n == 2
    then small_int
    else if n == 3
    then integer
    else if n == 4
    then big_int
    else if n == 5
    then float
    else if n == 6
    then date
    else time

of_rank-rank : (t : DataType) → of_rank (rank t) ≡ t
unfolding of_rank
of_rank-rank untyped = refl
of_rank-rank boolean = refl
of_rank-rank small_int = refl
of_rank-rank integer = refl
of_rank-rank big_int = refl
of_rank-rank float = refl
of_rank-rank date = refl
of_rank-rank time = refl

integral-IsInteger : (t : DataType) → is_integral (rank t) ≡ true → IsInteger t
integral-IsInteger untyped h = absurd (cc h)
integral-IsInteger boolean h = absurd (cc h)
integral-IsInteger small_int h = tt
integral-IsInteger integer h = tt
integral-IsInteger big_int h = tt
integral-IsInteger float h = absurd (cc h)
integral-IsInteger date h = absurd (cc h)
integral-IsInteger time h = absurd (cc h)

later-IsAfterBoolean : (t : DataType) → leb 2 (rank t) ≡ true → IsAfterBoolean t
later-IsAfterBoolean untyped h = absurd (cc h)
later-IsAfterBoolean boolean h = absurd (cc h)
later-IsAfterBoolean small_int h = tt
later-IsAfterBoolean integer h = tt
later-IsAfterBoolean big_int h = tt
later-IsAfterBoolean float h = tt
later-IsAfterBoolean date h = tt
later-IsAfterBoolean time h = tt

code_is : (v : ℕ) (t : DataType) → suc v ≡ rank t → (v ≡ type_code t) × (t ≢ untyped)
code_is v untyped h = absurd (omega (arith, h))
code_is v boolean h = (omega (arith, h), λ e. cc e)
code_is v small_int h = (omega (arith, h), λ e. cc e)
code_is v integer h = (omega (arith, h), λ e. cc e)
code_is v big_int h = (omega (arith, h), λ e. cc e)
code_is v float h = (omega (arith, h), λ e. cc e)
code_is v date h = (omega (arith, h), λ e. cc e)
code_is v time h = (omega (arith, h), λ e. cc e)

pub columns_comparable-ColumnsMeet :
    (l r : DataType) → columns_comparable l r ≡ true → ColumnsMeet l r
columns_comparable-ColumnsMeet l r h = elim (Bool-cases (rank l == rank r)) [
  | inl e ↦
      inl (sym (of_rank-rank l) ∙ (ap of_rank ((==_iff (rank l) (rank r)).0 e) ∙ of_rank-rank r))
  | inr e ↦
      (let both : (is_integral (rank l) && is_integral (rank r)) ≡ true =
          or_left (rank l == rank r) _ h e in
        let (il, ir) = and_true (is_integral (rank l)) (is_integral (rank r)) both in
        inr (integral-IsInteger l il, integral-IsInteger r ir))
]

integer_code :
    (v : ℕ)
    → is_integral (suc v) ≡ true
    → (type : DataType) × (v ≡ type_code type) × (type ≢ untyped) × IsInteger type
integer_code zero h = absurd (cc h)
integer_code (suc zero) h = (small_int, refl, (λ e. cc e), tt)
integer_code (suc (suc zero)) h = (integer, refl, (λ e. cc e), tt)
integer_code (suc (suc (suc zero))) h = (big_int, refl, (λ e. cc e), tt)
integer_code (suc (suc (suc (suc v)))) h = absurd (ground (arith, h))

pub value_comparable-ValueMeets :
    (v : ℕ) (col : DataType) → value_comparable v col ≡ true → ValueMeets v col
value_comparable-ValueMeets v col h = elim (Bool-cases (suc v == rank col)) [
  | inl e ↦
      (let (code, typed) = code_is v col ((==_iff (suc v) (rank col)).0 e) in
        (col, code, typed, inl refl))
  | inr e ↦
      (let rest : (is_integral (suc v) && (leb 2 (rank col) && leb (suc v) 4)) ≡ true =
          or_left (suc v == rank col) _ h e in
        let (integral, above) = and_true (is_integral (suc v)) _ rest in
        let (type, code, typed, int) = integer_code v integral in
        (
          type,
          code,
          typed,
          inr (int, later-IsAfterBoolean col (and_true (leb 2 (rank col)) (leb (suc v) 4) above).0),
        ))
]
