-- ===== src/Store/Select/Nested.antt =====
-- A selection with a nested predicate that nothing matches.
use open_mem_db.Prelude.{ℕ, ◌≡◌, String, none, List, [], All, filter_by}
use open_mem_db.Schema.{TableSchema}
use open_mem_db.Expr.{and}
use open_mem_db.Predicate.{ValuePredicate, nested, value}
use open_mem_db.Tervel.{Tervel}
use open_mem_db.Store.{DataStore}
use open_mem_db.Store.Search.Laws.{Row, matches, IsWide}
use open_mem_db.Store.Contents.{Shows, get_table_pair_lem}
use open_mem_db.Store.Join.Copies.{search_tables_unmatched}
use open_mem_db.Store.Select.{get_records, select_from, child_entry, entry_at}

module _ ⦃t : Tervel⦄ (s : DataStore) (name : String) (schema : TableSchema) (counter : ℕ)
    (rs : List Row) (h : Shows s name schema counter rs) where
  -- For two value predicates on one table, whose columns every row has, a selection with their AND
  -- gives no result when no row matches the first: it ends in an exception.
  pub get_records_nested_unmatched :
      (p q : ValuePredicate)
      → p.column.table ≡ name
      → q.column.table ≡ name
      → All (IsWide p) rs
      → All (IsWide q) rs
      → filter_by (matches p) rs ≡ []
      → get_records s (nested and (value p) (value q)) name ≡ none
  unfolding get_records select_from child_entry entry_at
  get_records_nested_unmatched p q sp sq wp wq nothing =
      rw (get_table_pair_lem s name schema counter rs h, get_records)
        (rw
          (search_tables_unmatched s name schema counter rs h p q sp sq wp wq nothing, child_entry))
