-- ===== src/Store/Change.antt =====
-- updateRecords and deleteRecords of data_store.cc: the rows are searched first, then each
-- reference is looked up in the table again and its slot changed. `none` is an exception or
-- undefined behaviour.
pub mod Loop
pub mod Finish
pub mod Delete
pub mod Replace
pub mod Update
use open_mem_db.Prelude.{
  ◌≡◌, ℕ, zero, suc, ◌+◌, ◌%◌, ◌^◌, String, Bool, true, false, not, ◌||◌, Option, none, some, List,
  [], ◌∷◌, ◌==◌, if◌then◌else◌,
}
use open_mem_db.Result.{
  ManipResult, manip, RecordData, success, failure, done, err, err_table_not_exist,
  err_partial_contention,
}
use open_mem_db.Predicate.{Predicate, ValuePredicate, nullptr, nested, value, column}
use open_mem_db.Tervel.{Tervel}
use open_mem_db.Store.{Heap, DataStore, DataTable, SchemaTablePair, update, get_table_pair}
use open_mem_db.Store.Records.{RecordCopy, copy_record, update_record}
use open_mem_db.Store.Search.{RecordReference, search_table_for_refs}
use open_mem_db.Store.Join.{Child, fault, unsupported, found, search_tables_for_refs}

-- Whether a slot holds the pointer that is looked for.
abbrev pub is_at : Option ℕ → ℕ → Bool
is_at none ptr = false
is_at (some p) ptr = p == ptr

module _ ⦃t : Tervel⦄ where
  -- The variables of the loops: the table, the heap of records with its next address, and the two
  -- counters that are local to the call.
  pub record Work : Type 0 where
    pub records : t.Vec
    pub rows : Heap t.Vec
    pub next : ℕ
    pub some_contention : Bool
    pub num_affected : ℕ

  -- The loop over the slots for one reference; `n` rounds are left.
  unfoldable pub slot_loop : (ℕ → ℕ → Work → Option Work) → ℕ → ℕ → ℕ → Work → Option Work
  slot_loop act ptr zero idx w = some w
  slot_loop act ptr (suc n) idx w = elim (is_at (t.at w.records idx) ptr) [
    | false ↦ slot_loop act ptr n (suc idx) w
    | true ↦ elim (act ptr idx w) [ none ↦ none | some w' ↦ slot_loop act ptr n (suc idx) w' ]
  ]

  -- The loop over the references. The table's length is read anew for each.
  unfoldable pub ref_loop : (ℕ → ℕ → Work → Option Work) → List RecordReference → Work → Option Work
  ref_loop act [] w = some w
  ref_loop act (r ∷ rs) w = elim (slot_loop act r.ptr (t.size w.records) 0 w) [
    | none ↦ none
    | some w' ↦ ref_loop act rs w'
  ]

  -- The slot of a deleted row: null goes in by CAS, then the slot is erased.
  unfoldable pub delete_slot : ℕ → ℕ → Work → Option Work
  delete_slot ptr idx w =
      let (swapped, v) = t.cas w.records idx ptr 0 in
      let (erased, v') = t.erase_at v idx in
      some (record w {
        records = v';
        some_contention = w.some_contention || not swapped || not erased;
        num_affected = if swapped then suc w.num_affected else w.num_affected;
      })

  -- The slot of an updated row: a new record goes in by CAS.
  unfoldable pub update_slot : RecordData → ℕ → ℕ → Work → Option Work
  update_slot new ptr idx w = elim (w.rows ptr) [
    | none ↦ none
    | some rec ↦ elim (copy_record rec) [
      | none ↦ none
      | some copy ↦ elim (update_record copy new) [
        | none ↦ none
        | some updated ↦
            let (swapped, v) = t.cas w.records idx ptr w.next in
            some (record w {
              records = v;
              rows = update w.rows w.next updated;
              next = suc w.next;
              some_contention = w.some_contention || not swapped;
              num_affected = if swapped then suc w.num_affected else w.num_affected;
            })
      ]
    ]
  ]

  -- The search that picks the references.
  unfoldable pub find_refs : DataStore → SchemaTablePair → Predicate → Option (List RecordReference)
  find_refs s pair nullptr = none
  find_refs s pair (value p) = search_table_for_refs s.rows pair.table.records p
  find_refs s pair (column l r) = some []
  find_refs s pair (nested op l r) = elim (search_tables_for_refs s (nested op l r)) [
    | fault ↦ none
    | unsupported ↦ some []
    | found rs ↦ some rs
  ]

  -- The state after the loops, and the result that the counters give.
  unfoldable pub finish : DataStore → ℕ → SchemaTablePair → Work → ManipResult × DataStore
  finish s p pair w = (
    record {
      status = success;
      result = if w.some_contention then err_partial_contention else done;
      rows_affected = w.num_affected % 2 ^ 32;
    },
    record s {
      pairs = update s.pairs p (record pair { table = record pair.table { records = w.records } });
      rows = w.rows;
      next = w.next;
    },
  )

  abbrev pub start : DataStore → SchemaTablePair → Work
  start s pair = record {
    records = pair.table.records;
    rows = s.rows;
    next = s.next;
    some_contention = false;
    num_affected = 0;
  }

  unfoldable pub change_refs :
      (ℕ → ℕ → Work → Option Work)
      → DataStore
      → ℕ
      → SchemaTablePair
      → Option (List RecordReference)
      → Option (ManipResult × DataStore)
  change_refs act s p pair none = none
  change_refs act s p pair (some refs) = elim (ref_loop act refs (start s pair)) [
    | none ↦ none
    | some w ↦ some (finish s p pair w)
  ]

  pub change_table :
      (ℕ → ℕ → Work → Option Work)
      → DataStore
      → Predicate
      → String
      → Option (ManipResult × DataStore)
  change_table act s pred name = elim (get_table_pair s name) [
    | none ↦ some (manip failure err_table_not_exist, s)
    | some (p, pair) ↦ change_refs act s p pair (find_refs s pair pred)
  ]

  -- updateRecords: with no reference found the loops leave everything, as the early return does.
  unfoldable pub update_records :
      DataStore → Predicate → String → RecordData → Option (ManipResult × DataStore)
  unfolding change_table
  update_records s nullptr name new = some (manip failure err, s)
  update_records s pred name new = change_table (update_slot new) s pred name

  -- deleteRecords
  unfoldable pub delete_records : DataStore → Predicate → String → Option (ManipResult × DataStore)
  unfolding change_table
  delete_records s nullptr name = some (manip failure err, s)
  delete_records s pred name = change_table delete_slot s pred name

  -- The call as a whole, from its parts.
  pub change_table_lem :
      (act : ℕ → ℕ → Work → Option Work) (s : DataStore) (pred : Predicate) (name : String) (p : ℕ)
      (pair : SchemaTablePair) (refs : List RecordReference) (w : Work)
      → get_table_pair s name ≡ some (p, pair)
      → find_refs s pair pred ≡ some refs
      → ref_loop act refs (start s pair) ≡ some w
      → change_table act s pred name ≡ some (finish s p pair w)
  unfolding change_table change_refs
  change_table_lem act s pred name p pair refs w e f r =
      rw (e, change_table) (rw (f, change_refs) (rw (r, change_refs)))
