-- ===== src/Store/Select/Laws.antt =====
-- What a selection returns, over the contents of the table.
use open_mem_db.Prelude.{
  ℕ, ◌≡◌, refl, ap, String, true, some, List, [], ◌∷◌, map, All, filter_by, str_eq, eq_iff,
}
use open_mem_db.Schema.{TableSchema}
use open_mem_db.Result.{RecordData, success}
use open_mem_db.Predicate.{ValuePredicate, nullptr, value}
use open_mem_db.Tervel.{Tervel}
use open_mem_db.Store.{DataStore}
use open_mem_db.Store.Search.{collect}
use open_mem_db.Store.Search.Laws.{
  Row, recs, matches, IsWide, scan_lem, scan_list_filter, search_table_lem,
}
use open_mem_db.Store.Contents.{Shows, get_table_pair_lem}
use open_mem_db.Store.Select.{visit_all, cells_of, get_records}

-- The cells of rows, without their identifiers.
abbrev pub cells : List Row → List RecordData
cells rs = map (λ r. r.rec.data_cells) rs

filter_by-true : (rs : List Row) → filter_by (λ r. true) rs ≡ rs
filter_by-true [] = refl
filter_by-true (r ∷ rs) = ap (◌∷◌ r) (filter_by-true rs)

All-collected : (rs : List Row) → All (λ r. visit_all r.ptr r.rec ≡ collect r.rec.data_cells) rs
All-collected [] = tt
All-collected (r ∷ rs) = (refl, All-collected rs)

cells_of-recs : (rs : List Row) → cells_of (recs rs) ≡ cells rs
cells_of-recs [] = refl
cells_of-recs (r ∷ rs) = ap (◌∷◌ r.rec.data_cells) (cells_of-recs rs)

module _ ⦃t : Tervel⦄ (s : DataStore) (name : String) (schema : TableSchema) (counter : ℕ)
    (rs : List Row) (h : Shows s name schema counter rs) where
  -- With no predicate every row is returned, in table order.
  pub get_records_all :
      get_records s nullptr name ≡ some (record { status = success; result = cells rs })
  unfolding get_records
  get_records_all =
      rw (get_table_pair_lem s name schema counter rs h, get_records)
        (rw (
          scan_lem visit_all s.rows h.pair.table.records rs h.holds,
          scan_list_filter visit_all (λ r. true) (λ r. r.rec.data_cells) rs [] (All-collected rs),
          filter_by-true rs,
        ))

  -- With a value predicate on the table itself, whose column every row has, the matching rows are
  -- returned, in table order.
  pub get_records_where :
      (pred : ValuePredicate)
      → pred.column.table ≡ name
      → All (IsWide pred) rs
      → get_records s (value pred) name
        ≡ some (record { status = success; result = cells (filter_by (matches pred) rs) })
  unfolding get_records
  get_records_where pred same wide =
      let own : str_eq pred.column.table name ≡ true = (eq_iff _ _).1 same in
      rw (get_table_pair_lem s name schema counter rs h, get_records)
        (rw (own, get_records)
          (rw (search_table_lem s.rows h.pair.table.records rs pred h.holds wide, get_records)
            (rw (cells_of-recs (filter_by (matches pred) rs)))))
