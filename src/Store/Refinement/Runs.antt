-- ===== src/Store/Refinement/Runs.antt =====
-- Sequences of insertions, updates and deletions on a table of the store.
use open_mem_db.Prelude.{
  ◌<◌, ◌%◌, ◌^◌, ◌≡◌, ◌≢◌, refl, sym, ap, ◌∙◌, String, true, false, not, Option, none, some, List,
  [], ◌∷◌, ◌++◌, map, arith, length, All, All-append, filter_by, Bool-cases, inl, inr, ◌⊎◌,
  length-map,
}
use mathlib.Core.List.{map-append}
use open_mem_db.Types.{Fits}
use open_mem_db.Schema.{SqlColumn, TableSchema}
use open_mem_db.Result.{RecordData, ManipResult, success}
use open_mem_db.Predicate.{ValuePredicate, value, nullptr}
use open_mem_db.Tervel.{Tervel}
use open_mem_db.Store.{DataStore}
use open_mem_db.Store.Records.{RecordCopy, clear_status}
use open_mem_db.Store.Constraints.Laws.{lacks, fill}
use open_mem_db.Store.Search.Laws.{Row, recs, matches}
use open_mem_db.Store.Contents.{Shows, All-filter_by}
use open_mem_db.Store.Select.{get_records}
use open_mem_db.Store.Select.Laws.{cells, get_records_all}
use open_mem_db.Store.Insert.{insert_record}
use open_mem_db.Store.Insert.Laws.{inserted}
use open_mem_db.Store.Insert.Branches.{insert_record_accepted, insert_record_refused}
use open_mem_db.Store.Change.{update_records, delete_records}
use open_mem_db.Store.Change.Update.{update_records_lem}
use open_mem_db.Store.Change.Delete.{delete_records_lem}
use open_mem_db.Store.Change.Replace.{update_rows}
use open_mem_db.Store.Refinement.{
  Table, Call, insert, update, delete, meets, accepts, after, answer, Allowed, IsRow, IsRow-IsWide,
  IsRow-IsUpdatable, recs-filter_by, recs-update_rows, update_rows-IsRow, inserted-IsRow,
}

-- The answers of a sequence of calls, and the table after them.
abbrev pub after_all : List SqlColumn → List Call → Table → Table
after_all columns [] t = t
after_all columns (c ∷ cs) t = after_all columns cs (after columns c t)

abbrev pub answers : List SqlColumn → List Call → Table → List ManipResult
answers columns [] t = []
answers columns (c ∷ cs) t = answer columns c t ∷ answers columns cs (after columns c t)

abbrev pub AllAllowed : List SqlColumn → List Call → Table → Type 0
AllAllowed columns [] t = Unit
AllAllowed columns (c ∷ cs) t = Allowed columns c t × AllAllowed columns cs (after columns c t)

cells_of_copies : (rs : List Row) → cells rs ≡ map (λ e. e.data_cells) (recs rs)
cells_of_copies [] = refl
cells_of_copies (r ∷ rs) = ap (◌∷◌ r.rec.data_cells) (cells_of_copies rs)

accepts_iff :
    (columns : List SqlColumn) (row : RecordData)
    → accepts columns row ≡ true
    → (length row ≡ length columns) × (lacks columns row ≡ false)
accepts_iff columns row h = ground (arith, h)

refusal :
    (columns : List SqlColumn) (row : RecordData)
    → accepts columns row ≡ false
    → (length row ≢ length columns) ⊎ (lacks columns row ≡ true)
refusal columns row h = elim (Bool-cases (lacks columns row)) [
  | inl e ↦ inr e
  | inr e ↦ inl (λ same. ground (arith, h, e, same))
]

module _ ⦃v : Tervel⦄ where
  -- The call on the store.
  unfoldable pub perform : String → Call → DataStore → Option (ManipResult × DataStore)
  perform name (insert row) s = some (insert_record s name row)
  perform name (update pred new) s = update_records s (value pred) name new
  perform name (delete pred) s = delete_records s (value pred) name

  unfoldable pub run : String → List Call → DataStore → Option (List ManipResult × DataStore)
  run name [] s = some ([], s)
  run name (c ∷ cs) s = elim (perform name c s) [
    | none ↦ none
    | some (r, s') ↦ elim (run name cs s') [ none ↦ none | some (rest, e) ↦ some (r ∷ rest, e) ]
  ]

  -- The store holds the table under the name.
  pub record Refines (s : DataStore) (name : String) (schema : TableSchema) (t : Table)
      : Type 0 where
    pub rows : List Row
    pub shown : Shows s name schema t.counter rows
    pub same : recs rows ≡ t.entries
    pub well_formed : All (IsRow (length schema.columns)) rows

  count_is :
      (pred : ValuePredicate) (rs : List Row) (es : List RecordCopy)
      → recs rs ≡ es
      → length (filter_by (matches pred) rs) ≡ length (filter_by (meets pred) es)
  count_is pred rs es e =
      sym (length-map (λ r. r.rec) (filter_by (matches pred) rs))
      ∙ ap length (recs-filter_by (meets pred) rs ∙ ap (filter_by (meets pred)) e)

  module _ (s : DataStore) (name : String) (schema : TableSchema) (t : Table)
      (h : Refines s name schema t) where
    -- What a call gives: its answer, and a store that holds the table after it.
    abbrev Done : Call → Type 0
    Done c =
        (s' : DataStore) × (perform name c s ≡ some (answer schema.columns c t, s'))
        × Refines s' name schema (after schema.columns c t)

    few : length t.entries < 2 ^ 32 → length h.rows < 2 ^ 32
    few small = omega (arith, small, ap length h.same, length-map (λ r. r.rec) h.rows)

    insert_accepted :
        (row : RecordData)
        → accepts schema.columns row ≡ true
        → All Fits (fill t.counter schema.columns row)
        → Done (insert row)
    unfolding perform
    insert_accepted row ok fits =
        let long : length row ≡ length schema.columns = (accepts_iff schema.columns row ok).0 in
        let filled = fill t.counter schema.columns row in
        let (s', ran, shown) =
          insert_record_accepted s name schema t.counter h.rows h.shown row long
            (accepts_iff schema.columns row ok).1 fits in
        rw (ok) (
          s',
          rw (ran) refl,
          record {
            rows = h.rows ++ inserted s.next t.counter filled ∷ [];
            shown = shown;
            same =
                map-append (λ r. r.rec) h.rows (inserted s.next t.counter filled ∷ [])
                ∙ ap
                    (λ es.
                      es
                      ++ record { id = t.counter % 2 ^ 57; data_cells = map clear_status filled }
                        ∷ [])
                    h.same;
            well_formed =
                All-append (IsRow (length schema.columns)) h.rows _ h.well_formed
                  (inserted-IsRow s.next t.counter schema.columns row long fits, tt);
          },
        )

    insert_refused : (row : RecordData) → accepts schema.columns row ≡ false → Done (insert row)
    unfolding perform
    insert_refused row bad =
        let ran =
          insert_record_refused s name schema t.counter h.rows h.shown row
            (refusal schema.columns row bad) in
        rw (bad) (s, rw (ran) refl, h)

    update-Done :
        (pred : ValuePredicate) (new : RecordData)
        → Allowed schema.columns (update pred new) t
        → Done (update pred new)
    unfolding perform
    update-Done pred new (in_row, long, fits, clear, small) =
        let (s', ran, shown) =
          update_records_lem s name schema t.counter h.rows pred new h.shown
            (IsRow-IsWide pred (length schema.columns) h.rows in_row h.well_formed)
            (IsRow-IsUpdatable pred new (length schema.columns) h.rows long (rw (h.same) clear)
              h.well_formed)
            fits (few small) in
        (
          s',
          rw (ran, count_is pred h.rows t.entries h.same) refl,
          record {
            rows = update_rows s.next (matches pred) new h.rows;
            shown = shown;
            same = recs-update_rows s.next pred new h.rows ∙ ap (map _) h.same;
            well_formed =
                update_rows-IsRow s.next (length schema.columns) pred new h.rows long fits
                  h.well_formed;
          },
        )

    delete-Done :
        (pred : ValuePredicate) → Allowed schema.columns (delete pred) t → Done (delete pred)
    unfolding perform
    delete-Done pred (in_row, small) =
        let (s', ran, shown) =
          delete_records_lem s name schema t.counter h.rows pred h.shown
            (IsRow-IsWide pred (length schema.columns) h.rows in_row h.well_formed) (few small) in
        (
          s',
          rw (ran, count_is pred h.rows t.entries h.same) refl,
          record {
            rows = filter_by (λ r. not (matches pred r)) h.rows;
            shown = shown;
            same =
                recs-filter_by (λ e. not (meets pred e)) h.rows
                ∙ ap (filter_by (λ e. not (meets pred e))) h.same;
            well_formed =
                All-filter_by (IsRow (length schema.columns)) (λ r. not (matches pred r)) h.rows
                  h.well_formed;
          },
        )

    perform-Done : (c : Call) → Allowed schema.columns c t → Done c
    perform-Done (insert row) ok = elim (Bool-cases (accepts schema.columns row)) [
      | inl yes_row ↦ insert_accepted row yes_row (ok yes_row)
      | inr no_row ↦ insert_refused row no_row
    ]
    perform-Done (update pred new) ok = update-Done pred new ok
    perform-Done (delete pred) ok = delete-Done pred ok

  -- On a store that holds a table, any sequence of insertions, updates with a value predicate and
  -- deletions with one runs to its end: the store answers every call as the abstract table does, and
  -- holds what the abstract table has become, identifiers included. At each call, the cells that are
  -- written fit their words, the predicate's column is one of the table's, and for an update or a
  -- deletion there are fewer than 2^32 rows; an update has one cell for each column, with Tervel's
  -- three bits clear, and every row that it replaces has a multiple of 8 as its identifier.
  pub run-Refines :
      (name : String) (schema : TableSchema) (cs : List Call) (s : DataStore) (t : Table)
      → Refines s name schema t
      → AllAllowed schema.columns cs t
      → (s' : DataStore) × (run name cs s ≡ some (answers schema.columns cs t, s'))
        × Refines s' name schema (after_all schema.columns cs t)
  unfolding run
  run-Refines name schema [] s t h ok = (s, refl, h)
  run-Refines name schema (c ∷ cs) s t h ok =
      let (s1, ran, h1) = perform-Done s name schema t h c ok.0 in
      let (s2, rest, h2) = run-Refines name schema cs s1 (after schema.columns c t) h1 ok.1 in
      (s2, rw (ran, run) (rw (rest, run) refl), h2)

  -- After such a sequence a selection without a predicate gives the rows of the list, in order.
  pub get_records-run :
      (name : String) (schema : TableSchema) (cs : List Call) (s : DataStore) (t : Table)
      → Refines s name schema t
      → AllAllowed schema.columns cs t
      → (s' : DataStore) × (run name cs s ≡ some (answers schema.columns cs t, s'))
        × (get_records s' nullptr name
            ≡ some (record {
              status = success;
              result = map (λ e. e.data_cells) (after_all schema.columns cs t).entries;
            }))
  get_records-run name schema cs s t h ok =
      let (s', ran, h') = run-Refines name schema cs s t h ok in
      let counter = (after_all schema.columns cs t).counter in
      (
        s',
        ran,
        get_records_all s' name schema counter h'.rows h'.shown
            ∙ ap (λ es. some (record { status = success; result = es })) (cells_of_copies h'.rows)
            ∙ rw (h'.same) refl,
      )
