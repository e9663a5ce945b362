-- ===== src/Store/Select.antt =====
-- getRecords of data_store.cc. `none` is an exception or undefined behaviour.
pub mod Laws
pub mod Nested
use open_mem_db.Prelude.{
  ℕ, String, Bool, true, false, Option, none, some, List, [], ◌∷◌, map, str_eq, if◌then◌else◌,
}
use open_mem_db.Result.{RecordData, MultiRecordResult, success, failure}
use open_mem_db.Predicate.{Predicate, ValuePredicate, nullptr, nested, value, column}
use open_mem_db.Tervel.{Tervel}
use open_mem_db.Store.{DataStore, SchemaTablePair, get_table_pair}
use open_mem_db.Store.Records.{RecordCopy}
use open_mem_db.Store.Search.{Visit, collect, scan, search_table}
use open_mem_db.Store.Join.{Child, fault, unsupported, found, TableCopies, search_tables}

-- The body of the full copy
abbrev pub visit_all : ℕ → RecordCopy → Visit RecordData
visit_all ptr rec = collect rec.data_cells

abbrev pub cells_of : List RecordCopy → List RecordData
cells_of cs = map (λ c. c.data_cells) cs

abbrev pub selected : Option (List RecordData) → Option MultiRecordResult
selected none = none
selected (some rs) = some (record { status = success; result = rs })

-- `data.at(table_name)` after the copies are moved over: only a table with a copy has an entry, and
-- `at` throws for any other.
entry_at : String → TableCopies → Option (List RecordData)
entry_at name [] = none
entry_at name ((other, []) ∷ ts) = entry_at name ts
entry_at name ((other, c ∷ cs) ∷ ts) =
    let rest = entry_at name ts in if str_eq other name then some (cells_of (c ∷ cs)) else rest

child_entry : String → Child TableCopies → Option (List RecordData)
unfolding entry_at
child_entry name fault = none
child_entry name unsupported = entry_at name []
child_entry name (found ts) = entry_at name ts

module _ ⦃t : Tervel⦄ where
  select_from : DataStore → SchemaTablePair → Predicate → String → Option MultiRecordResult
  unfolding child_entry
  select_from s pair nullptr name = selected (scan visit_all s.rows pair.table.records)
  select_from s pair (nested op l r) name =
      selected (child_entry name (search_tables s (nested op l r)))
  select_from s pair (value p) name =
      if str_eq p.column.table name
      then elim (search_table s.rows pair.table.records p) [
        | none ↦ none
        | some cs ↦ selected (some (cells_of cs))
      ]
      else selected (some [])
  select_from s pair (column l r) name = some (record { status = failure; result = [] })

  unfoldable pub get_records : DataStore → Predicate → String → Option MultiRecordResult
  unfolding select_from
  get_records s pred name = elim (get_table_pair s name) [
    | none ↦ some (record { status = failure; result = [] })
    | some (p, pair) ↦ select_from s pair pred name
  ]
