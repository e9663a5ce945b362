-- ===== src/Store/Search.antt =====
-- searchTable and searchTableForRefs of data_store.cc: the scan of one table for the rows that
-- satisfy a value predicate. `none` is an exception, or undefined behaviour.
pub mod Laws
use open_mem_db.Prelude.{
  ℕ, zero, suc, ◌+◌, Bool, true, false, Option, none, some, List, [], ◌∷◌, ◌++◌, leb, ◌==◌,
  if◌then◌else◌, length, get_elem?,
}
use open_mem_db.Types.{TervelData}
use open_mem_db.Sql.Boolean.{is_true}
use open_mem_db.Predicate.{ValuePredicate, single, evaluate_operation}
use open_mem_db.Tervel.{Tervel}
use open_mem_db.Store.{Heap}
use open_mem_db.Store.Records.{RecordCopy, copy_record}

-- struct RecordReference
pub record RecordReference : Type 0 where
  pub id : ℕ
  pub ptr : ℕ

-- What the loop body does with a row: `continue`, give up the search with an empty result, or
-- collect.
pub data Visit {ℓ} (A : Type ℓ) : Type ℓ where
  skip : Visit A
  abandon : Visit A
  collect : A → Visit A

-- The tests of both bodies after the row is copied. `record.data.at(column_idx)` is in range.
unfoldable pub satisfies : ValuePredicate → TervelData → Bool
satisfies pred cell = is_true (evaluate_operation pred.op pred.expected_value (single cell))

visit_cell {ℓ} : {A : Type ℓ} → ValuePredicate → A → Option TervelData → Visit A
visit_cell pred a none = abandon
visit_cell pred a (some cell) = if satisfies pred cell then collect a else skip

-- The body of searchTable
unfoldable pub visit_copy : ValuePredicate → ℕ → RecordCopy → Visit RecordCopy
unfolding visit_cell
visit_copy pred ptr rec = visit_cell pred rec (get_elem? rec.data_cells pred.column.column_idx)

-- The body of searchTableForRefs, which passes over a row with no cells
unfoldable pub visit_ref : ValuePredicate → ℕ → RecordCopy → Visit RecordReference
unfolding visit_cell
visit_ref pred ptr rec = elim rec.data_cells [
  | [] ↦ skip
  | c ∷ cs ↦
      visit_cell pred (record { id = rec.id; ptr = ptr })
        (get_elem? rec.data_cells pred.column.column_idx)
]

module _ ⦃t : Tervel⦄ where
  -- VectorAccessor::init and the read of `accessor.value->ptr`: `none` where the accessor fails.
  unfoldable pub access : Heap t.Vec → t.Vec → ℕ → Option (ℕ × Option RecordCopy)
  access rows table idx = elim (t.at table idx) [
    | none ↦ none
    | some p ↦ elim (rows p) [ none ↦ some (p, none) | some rec ↦ some (p, copy_record rec) ]
  ]

  scan_step {ℓ} : {A : Type ℓ} → Visit A → List A → (List A → Option (List A)) → Option (List A)
  scan_step skip found go = go found
  scan_step abandon found go = some []
  scan_step (collect a) found go = go (found ++ a ∷ [])

  -- The loop that both searches share, over `idx`; `n` rounds are left.
  scan_loop {ℓ} :
      {A : Type ℓ}
      → (ℕ → RecordCopy → Visit A)
      → Heap t.Vec
      → t.Vec
      → ℕ
      → ℕ
      → List A
      → Option (List A)
  scan_loop visit rows table zero idx found = some found
  scan_loop visit rows table (suc n) idx found = elim (access rows table idx) [
    | none ↦ scan_loop visit rows table n (suc idx) found
    | some (p, none) ↦ none
    | some (p, some rec) ↦
        scan_step (visit p rec) found (λ found'. scan_loop visit rows table n (suc idx) found')
  ]

  unfoldable pub scan {ℓ} :
      {A : Type ℓ} → (ℕ → RecordCopy → Visit A) → Heap t.Vec → t.Vec → Option (List A)
  unfolding scan_loop scan_step
  scan visit rows table = scan_loop visit rows table (t.size table) 0 []

  -- searchTable
  unfoldable pub search_table : Heap t.Vec → t.Vec → ValuePredicate → Option (List RecordCopy)
  search_table rows table pred = scan (visit_copy pred) rows table

  -- searchTableForRefs
  unfoldable pub search_table_for_refs :
      Heap t.Vec → t.Vec → ValuePredicate → Option (List RecordReference)
  search_table_for_refs rows table pred = scan (visit_ref pred) rows table
