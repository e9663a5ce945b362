-- ===== src/Store/Constraints/Laws.antt =====
-- schemaChecker against a description of its result: which rows are refused, and what is filled in.
use open_mem_db.Prelude.{
  ℕ, suc, ◌≡◌, refl, ap, inl, inr, Bool, true, false, ◌&&◌, ◌||◌, Option, none, some, List, [], ◌∷◌,
  ◌==◌, if◌then◌else◌, length, Bool-cases,
}
use open_mem_db.Types.{TervelData}
use open_mem_db.Schema.{
  SqlConstraint, SqlColumn, TableSchema, SqlConstraintType, no_constraint, not_null, default,
  auto_increment,
}
use open_mem_db.Result.{RecordData, kept, err_null, err_row_len}
use open_mem_db.Store.Constraints.{next_number, constraint_loop, row_loop, schema_checker}

-- One of the constraints is NOT NULL.
abbrev pub requires_value : List SqlConstraint → Bool
requires_value [] = false
requires_value (c ∷ cs) = elim c.type [
  | not_null ↦ true
  | no_constraint ↦ requires_value cs
  | auto_increment ↦ requires_value cs
  | default ↦ requires_value cs
]

-- What a constraint puts in for the cell that came.
abbrev pub put_in : ℕ → TervelData → SqlConstraint → Option TervelData
put_in counter d c = elim c.type [
  | auto_increment ↦ some (next_number counter)
  | default ↦ if d.null then some c.value else none
  | no_constraint ↦ none
  | not_null ↦ none
]

abbrev pub or_else {ℓ} : {A : Type ℓ} → Option A → Option A → Option A
or_else none o = o
or_else (some a) o = some a

abbrev pub get_or {ℓ} : {A : Type ℓ} → Option A → A → A
get_or none a = a
get_or (some b) a = b

-- The last constraint that puts something in has its way.
abbrev pub last_put : ℕ → TervelData → List SqlConstraint → Option TervelData
last_put counter d [] = none
last_put counter d (c ∷ cs) = or_else (last_put counter d cs) (put_in counter d c)

-- A null cell stands under a column that requires a value.
abbrev pub lacks : List SqlColumn → RecordData → Bool
lacks (col ∷ cols) (d ∷ ds) = requires_value col.constraint && d.null || lacks cols ds
lacks _ _ = false

-- The row with its cells filled in.
abbrev pub fill : ℕ → List SqlColumn → RecordData → RecordData
fill counter (col ∷ cols) (d ∷ ds) =
    get_or (last_put counter d col.constraint) d ∷ fill counter cols ds
fill counter _ ds = ds

get_or-or_else-none {ℓ} :
    {A : Type ℓ} (o : Option A) (a : A) → get_or (or_else o none) a ≡ get_or o a
get_or-or_else-none none a = refl
get_or-or_else-none (some b) a = refl

get_or-or_else-some {ℓ} :
    {A : Type ℓ} (o : Option A) (b a : A) → get_or (or_else o (some b)) a ≡ get_or o b
get_or-or_else-some none b a = refl
get_or-or_else-some (some c) b a = refl

-- A NOT NULL constraint returns at once on a null cell, or leaves the rest as it is.
not_null_case {ℓ} :
    {A : Type ℓ} (b r : Bool) (rest : Option A) (a : A)
    → rest ≡ (if r && b then none else some a)
    → (if b then none else rest) ≡ (if b then none else some a)
not_null_case true r rest a h = refl
not_null_case false true rest a h = h
not_null_case false false rest a h = h

-- A DEFAULT constraint changes the cell that the rest begins with, if the cell that came is null.
default_case {ℓ} :
    {A : Type ℓ} (b r : Bool) (rest : A → Option A) (o : Option A) (v a : A)
    → ((c : A) → rest c ≡ (if r && b then none else some (get_or o c)))
    → rest (if b then v else a)
      ≡ (if r && b then none else some (get_or (or_else o (if b then some v else none)) a))
default_case true r rest o v a h = rw get_or-or_else-some (h v)
default_case false r rest o v a h = rw get_or-or_else-none (h a)

Agrees : ℕ → TervelData → List SqlConstraint → TervelData → Type 0
Agrees counter d cs cell =
    constraint_loop counter d cs cell
    ≡ (if requires_value cs && d.null then none else some (get_or (last_put counter d cs) cell))

Agrees-cons :
    (counter : ℕ) (d : TervelData) (type : SqlConstraintType) (v : TervelData)
    (cs : List SqlConstraint) (cell : TervelData)
    → ((cell' : TervelData) → Agrees counter d cs cell')
    → Agrees counter d (record { type = type; value = v } ∷ cs) cell
unfolding Agrees constraint_loop
Agrees-cons counter d no_constraint v cs cell rest = rw get_or-or_else-none (rest cell)
Agrees-cons counter d not_null v cs cell rest =
    rw get_or-or_else-none (not_null_case d.null (requires_value cs) _ _ (rest cell))
Agrees-cons counter d auto_increment v cs cell rest =
    rw get_or-or_else-some (rest (next_number counter))
Agrees-cons counter d default v cs cell rest =
    default_case d.null (requires_value cs) (constraint_loop counter d cs) (last_put counter d cs) v
      cell rest

constraint_loop_lem :
    (counter : ℕ) (d : TervelData) (cs : List SqlConstraint) (cell : TervelData)
    → Agrees counter d cs cell
unfolding Agrees constraint_loop
constraint_loop_lem counter d [] cell = refl
constraint_loop_lem counter d (c ∷ cs) cell =
    Agrees-cons counter d c.type c.value cs cell (λ cell'. constraint_loop_lem counter d cs cell')

row_loop_lem :
    (counter : ℕ) (cols : List SqlColumn) (ds : RecordData)
    → row_loop counter cols ds ≡ (if lacks cols ds then none else some (fill counter cols ds))
unfolding row_loop Agrees
row_loop_lem counter [] ds = refl
row_loop_lem counter (col ∷ cols) [] = refl
row_loop_lem counter (col ∷ cols) (d ∷ ds) =
    rw (constraint_loop_lem counter d col.constraint d, row_loop)
      (elim (Bool-cases (requires_value col.constraint && d.null)) [
        | inl e ↦ rw e refl
        | inr e ↦
            rw (e, row_loop_lem counter cols ds, row_loop)
              (elim (Bool-cases (lacks cols ds)) [ inl f ↦ rw f refl | inr f ↦ rw f refl ])
      ])

-- The nested loops with their early returns give: ERR_ROW_LEN for a row of another length than the
-- schema, ERR_NULL if a null cell stands under a NOT NULL column, and else the row with each cell
-- replaced by what the last of its column's AUTO_INCREMENT and applicable DEFAULT constraints says.
pub schema_checker_lem :
    (schema : TableSchema) (counter : ℕ) (row : RecordData)
    → schema_checker schema counter row ≡ (
        if length row == length schema.columns
        then if lacks schema.columns row
          then (err_null, row)
          else (kept, fill counter schema.columns row)
        else (err_row_len, row))
unfolding schema_checker
schema_checker_lem schema counter row =
    rw (row_loop_lem counter schema.columns row)
      (elim (Bool-cases (lacks schema.columns row)) [ inl f ↦ rw f refl | inr f ↦ rw f refl ])

pub length-fill :
    (counter : ℕ) (cols : List SqlColumn) (ds : RecordData)
    → length (fill counter cols ds) ≡ length ds
length-fill counter [] ds = refl
length-fill counter (col ∷ cols) [] = refl
length-fill counter (col ∷ cols) (d ∷ ds) = ap suc (length-fill counter cols ds)
