-- ===== src/Builder/Update/Laws.antt =====
-- The row that an UPDATE statement hands to the data store.
use open_mem_db.Prelude.{
  ℕ, zero, suc, ◌<◌, ◌≡◌, refl, ap, ◌∙◌, some, List, [], ◌∷◌, lt→ltb, ◌==◌, if◌then◌else◌, length,
  length-set, get_elem?, set, All, arith,
}
use open_mem_db.Types.{TervelData, null_data}
use open_mem_db.Schema.{ColumnUpdate}
use open_mem_db.Result.{RecordData}
use open_mem_db.Builder.Update.{resize, write_columns}

-- The cell at `j` after the updates: the last one for it has its way.
abbrev pub last_for : ℕ → List ColumnUpdate → TervelData → TervelData
last_for j [] v = v
last_for j (u ∷ us) v = last_for j us (if u.column_idx == j then u.new_data else v)

get_elem?-set :
    (row : RecordData) (i j : ℕ) (a v : TervelData)
    → get_elem? row j ≡ some v
    → get_elem? (set row i a) j ≡ some (if i == j then a else v)
get_elem?-set [] i j a v h = absurd (ground (arith, h))
get_elem?-set (x ∷ row) zero zero a v h = refl
get_elem?-set (x ∷ row) zero (suc j) a v h = h ∙ ground arith
get_elem?-set (x ∷ row) (suc i) zero a v h = h ∙ ground arith
get_elem?-set (x ∷ row) (suc i) (suc j) a v h = get_elem?-set row i j a v h ∙ ground arith

-- The columns are in the row.
abbrev pub InRow : RecordData → List ColumnUpdate → Type 0
InRow row us = All (λ u. u.column_idx < length row) us

InRow-set :
    (row : RecordData) (i : ℕ) (a : TervelData) (us : List ColumnUpdate)
    → InRow row us
    → InRow (set row i a) us
InRow-set row i a [] h = tt
InRow-set row i a (u ∷ us) h = (rw length-set h.0, InRow-set row i a us h.1)

-- Where every updated column is in the row, the writes succeed, the row keeps its length, and each
-- cell holds what the last update of its column says, or what it held.
pub write_columns_lem :
    (us : List ColumnUpdate) (row : RecordData)
    → InRow row us
    → (row' : RecordData) × (write_columns us row ≡ some row')
      × (length row' ≡ length row)
      × ((j : ℕ) (v : TervelData)
          → get_elem? row j ≡ some v
          → get_elem? row' j ≡ some (last_for j us v))
unfolding write_columns
write_columns_lem [] row h = (row, refl, refl, λ j v e. e)
write_columns_lem (u ∷ us) row h =
    let (row', ran, long, cells) =
      write_columns_lem us (set row u.column_idx u.new_data)
        (InRow-set row u.column_idx u.new_data us h.1) in
    (
      row',
      rw (lt→ltb u.column_idx (length row) h.0, write_columns) ran,
      long ∙ length-set row u.column_idx u.new_data,
      λ j v e. cells j _ (get_elem?-set row u.column_idx j u.new_data v e),
    )

length-resize {ℓ} : {A : Type ℓ} (n : ℕ) (a : A) (xs : List A) → length (resize n a xs) ≡ n
unfolding resize
length-resize zero a xs = refl
length-resize (suc n) a [] = ap suc (length-resize n a [])
length-resize (suc n) a (x ∷ xs) = ap suc (length-resize n a xs)

get_elem?-resize_nil {ℓ} :
    {A : Type ℓ} (n : ℕ) (a : A) (j : ℕ) → j < n → get_elem? (resize n a []) j ≡ some a
unfolding resize
get_elem?-resize_nil zero a j h = absurd (omega arith)
get_elem?-resize_nil (suc n) a zero h = refl
get_elem?-resize_nil (suc n) a (suc j) h = get_elem?-resize_nil n a j (omega arith)

-- Of a statement's updates on a table of `n` columns, all of them in range, a row of `n` cells is
-- made: null where no update names the column, and else the value of the last update that does.
pub write_columns-resize :
    (n : ℕ) (us : List ColumnUpdate)
    → All (λ u. u.column_idx < n) us
    → (row : RecordData) × (write_columns us (resize n null_data []) ≡ some row)
      × (length row ≡ n)
      × ((j : ℕ) → j < n → get_elem? row j ≡ some (last_for j us null_data))
write_columns-resize n us h =
    let (row, ran, long, cells) =
      write_columns_lem us (resize n null_data []) (rw length-resize h) in
    (
      row,
      ran,
      long ∙ length-resize n null_data [],
      λ j below. cells j null_data (get_elem?-resize_nil n null_data j below),
    )
