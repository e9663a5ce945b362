-- ===== src/Predicate/Make/Sound.antt =====
-- What a made predicate promises to the searches: its columns are there, its types can be compared,
-- and its inner nodes have both children or none.
use open_mem_db.Prelude.{
  ◌≡◌, refl, sym, ◌∙◌, inl, inr, Bool, true, false, ◌&&◌, Option, none, some, Bool-cases,
  Option-cases, if◌then◌else◌,
}
use open_mem_db.Types.{DataType, TervelData}
use open_mem_db.Expr.{
  ExprInfo, ExpressionOperation, Expression, is_expr_flag_contained, flag_nested, flag_operation,
  flag_column, flag_value,
}
use open_mem_db.Expr.Expression.{nullptr as no_expr, node}
use open_mem_db.Predicate.{Predicate, nullptr, nested, value, column}
use open_mem_db.Tervel.{Tervel}
use open_mem_db.Schema.{ColumnReference}
use open_mem_db.Store.{DataStore}
use open_mem_db.Predicate.Make.{
  columns_comparable, is_null, value_comparable, nested_of, column_ref, column_type,
  compare_columns, make_column, make_value, make_operation, make_node, make_predicate,
}
use open_mem_db.Predicate.Make.Comparable.{
  ColumnsMeet, ValueMeets, columns_comparable-ColumnsMeet, value_comparable-ValueMeets,
}

module _ ⦃t : Tervel⦄ (s : DataStore) where
  -- The predicate's columns exist in the store, with types that are compared.
  abbrev pub Sound : Predicate → Type 0
  Sound nullptr = Unit
  Sound (nested op l r) = (is_null l ≡ is_null r) × Sound l × Sound r
  Sound (value p) =
      (type : DataType) × (column_type s p.column ≡ some type)
      × ValueMeets p.expected_value.value.type type
  Sound (column l r) =
      (ltype : DataType) × (rtype : DataType) × (column_type s l ≡ some ltype)
      × (column_type s r ≡ some rtype)
      × ColumnsMeet ltype rtype

  -- A result, when there is one, is sound.
  Yields : Option Predicate → Type 0
  Yields none = Unit
  Yields (some p) = Sound p

  make_value-Yields :
      (op : ExpressionOperation) (c : ExprInfo) (v : TervelData) → Yields (make_value s op c v)
  unfolding make_value Yields
  make_value-Yields op c v = elim (Option-cases (column_ref s c.table_name c.table_column)) [
    | inl e ↦ rw (e, make_value) tt
    | inr (ref, e) ↦ elim (Option-cases (column_type s ref)) [
      | inl f ↦ rw (e, make_value) (rw (f, make_value) tt)
      | inr (type, f) ↦ elim (Bool-cases (value_comparable v.type type)) [
        | inl g ↦
            rw (e, make_value)
              (rw (f, make_value) (rw g (type, f, value_comparable-ValueMeets v.type type g)))
        | inr g ↦ rw (e, make_value) (rw (f, make_value) (rw g tt))
      ]
    ]
  ]

  compare_columns-Yields : (l r : ColumnReference) → Yields (compare_columns s l r)
  unfolding compare_columns Yields
  compare_columns-Yields l r = elim (Option-cases (column_type s l)) [
    | inl e ↦ rw (e, compare_columns) tt
    | inr (ltype, e) ↦ elim (Option-cases (column_type s r)) [
      | inl f ↦ rw (e, compare_columns) (rw (f, compare_columns) tt)
      | inr (rtype, f) ↦ elim (Bool-cases (columns_comparable ltype rtype)) [
        | inl g ↦
            rw (e, compare_columns)
              (rw (f, compare_columns)
                (rw g (ltype, rtype, e, f, columns_comparable-ColumnsMeet ltype rtype g)))
        | inr g ↦ rw (e, compare_columns) (rw (f, compare_columns) (rw g tt))
      ]
    ]
  ]

  make_column-Yields : (l r : ExprInfo) → Yields (make_column s l r)
  unfolding make_column Yields
  make_column-Yields l r = elim (Option-cases (column_ref s l.table_name l.table_column)) [
    | inl e ↦ rw (e, make_column) tt
    | inr (lref, e) ↦ elim (Option-cases (column_ref s r.table_name r.table_column)) [
      | inl f ↦ rw (e, make_column) (rw (f, make_column) tt)
      | inr (rref, f) ↦ rw (e, make_column) (rw (f, make_column) (compare_columns-Yields lref rref))
    ]
  ]

  if-Yields :
      (b : Bool) (x y : Option Predicate) → Yields x → Yields y → Yields (if b then x else y)
  if-Yields true x y hx hy = hx
  if-Yields false x y hx hy = hy

  make_operation-Yields : (i : ExprInfo) (l r : Expression) → Yields (make_operation s i l r)
  unfolding make_operation Yields
  make_operation-Yields i no_expr r = tt
  make_operation-Yields i (node l ll lr) no_expr = tt
  make_operation-Yields i (node l ll lr) (node r rl rr) =
      if-Yields
        (is_expr_flag_contained l.flags flag_column && is_expr_flag_contained r.flags flag_column)
        (make_column s l r) _ (make_column-Yields l r)
        (if-Yields (is_expr_flag_contained l.flags flag_value) (make_value s i.op r l.value)
          (make_value s i.op l r.value) (make_value-Yields i.op r l.value)
          (make_value-Yields i.op l r.value))

  nested_of-Sound :
      (op : ExpressionOperation) (l r : Predicate) → Sound l → Sound r → Sound (nested_of op l r)
  unfolding nested_of
  nested_of-Sound op l r hl hr = elim (Bool-cases (is_null l)) [
    | inl e ↦ rw e (refl, tt, tt)
    | inr e ↦ elim (Bool-cases (is_null r)) [
      | inl f ↦ rw (e, f) (refl, tt, tt)
      | inr f ↦ rw (e, f) (e ∙ sym f, hl, hr)
    ]
  ]

  alone-Yields :
      (i : ExprInfo) (le re : Expression)
      → Yields (
          if is_expr_flag_contained i.flags flag_operation
          then make_operation s i le re
          else some nullptr)
  unfolding Yields
  alone-Yields i le re =
      if-Yields (is_expr_flag_contained i.flags flag_operation) (make_operation s i le re)
        (some nullptr) (make_operation-Yields i le re) tt

  make_node-Yields :
      (i : ExprInfo) (le re : Expression) (l r : Option Predicate)
      → Yields l
      → Yields r
      → Yields (make_node s i le re l r)
  unfolding make_node Yields
  make_node-Yields i le re none r hl hr =
      if-Yields (is_expr_flag_contained i.flags flag_nested) none _ tt (alone-Yields i le re)
  make_node-Yields i le re (some l) none hl hr =
      if-Yields (is_expr_flag_contained i.flags flag_nested) none _ tt (alone-Yields i le re)
  make_node-Yields i le re (some l) (some r) hl hr =
      if-Yields (is_expr_flag_contained i.flags flag_nested) _ _
        (if-Yields (is_expr_flag_contained i.flags flag_operation) (make_operation s i le re)
          (some (nested_of i.op l r)) (make_operation-Yields i le re)
          (nested_of-Sound i.op l r hl hr))
        (alone-Yields i le re)

  make_predicate-Yields : (e : Expression) → Yields (make_predicate s e)
  unfolding make_predicate Yields
  make_predicate-Yields no_expr = tt
  make_predicate-Yields (node i l r) =
      make_node-Yields i l r (make_predicate s l) (make_predicate s r) (make_predicate-Yields l)
        (make_predicate-Yields r)

  -- Whatever the expression, a predicate that is made refers only to columns that the store has, at
  -- indices within their tables. It compares two columns only if they have one type or both have
  -- integer types, and a column with a value only if the value has the column's type, or is an integer
  -- and the column has a type after BOOLEAN. It has in each inner node two children or none.
  pub make_predicate-Sound :
      (e : Expression) (p : Predicate) → make_predicate s e ≡ some p → Sound p
  unfolding Yields
  make_predicate-Sound e p made = rw made at (make_predicate-Yields e)
