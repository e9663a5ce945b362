-- ===== src/Store/Join/Refs.antt =====
-- searchTablesForRefs on two value predicates: the identifiers of the rows that match both, or
-- one of them.
use open_mem_db.Prelude.{
  ℕ, ◌≡◌, refl, ap, ◌∙◌, String, Bool, ◌&&◌, ◌||◌, some, List, [], ◌∷◌, map, All, filter_by,
}
use open_mem_db.Schema.{TableSchema}
use open_mem_db.Expr.{and, or}
use open_mem_db.Predicate.{ValuePredicate, nested, value}
use open_mem_db.Tervel.{Tervel}
use open_mem_db.Store.{DataStore, get_table_pair}
use open_mem_db.Store.Search.{RecordReference}
use open_mem_db.Store.Search.Laws.{Row, ref, matches, IsWide, search_table_for_refs_lem}
use open_mem_db.Store.Contents.{Shows, get_table_pair_lem}
use open_mem_db.Store.Join.{
  found, leaf_refs, search_tree, combine, of_option, search_tables_for_refs,
}
use open_mem_db.Store.Join.Sets.{has_key, join_sets_and, join_sets_or}

-- A row that matches has this identifier.
abbrev pub hit : ValuePredicate → List Row → ℕ → Bool
hit p rs k = has_key (λ r. r.rec.id) k (filter_by (matches p) rs)

abbrev pub ids : ℕ → List RecordReference → Bool
ids k refs = has_key (λ r. r.id) k refs

ids-map : (k : ℕ) (rs : List Row) → ids k (map ref rs) ≡ has_key (λ r. r.rec.id) k rs
ids-map k [] = refl
ids-map k (r ∷ rs) = rw (ids-map k rs) refl

module _ ⦃t : Tervel⦄ (s : DataStore) (name : String) (schema : TableSchema) (counter : ℕ)
    (rs : List Row) (h : Shows s name schema counter rs) where
  leaf_refs_lem :
      (p : ValuePredicate)
      → p.column.table ≡ name
      → All (IsWide p) rs
      → leaf_refs s p ≡ some (map ref (filter_by (matches p) rs))
  unfolding leaf_refs
  leaf_refs_lem p same wide =
      let there = ap (get_table_pair s) same ∙ get_table_pair_lem s name schema counter rs h in
      rw (there, leaf_refs)
        (search_table_for_refs_lem s.rows h.pair.table.records rs p h.holds wide)

  -- For two value predicates on one table, whose columns every row has, the search for a nested AND
  -- finds references with exactly the identifiers that a row matching the first and a row matching
  -- the second have, and that for a nested OR those that one of them has.
  pub search_tables_for_refs_lem :
      (p q : ValuePredicate)
      → p.column.table ≡ name
      → q.column.table ≡ name
      → All (IsWide p) rs
      → All (IsWide q) rs
      → ((j : List RecordReference) × (search_tables_for_refs s (nested and (value p) (value q))
            ≡ found j)
          × ((k : ℕ) → ids k j ≡ (hit p rs k && hit q rs k)))
        × ((j : List RecordReference) × (search_tables_for_refs s (nested or (value p) (value q))
              ≡ found j)
            × ((k : ℕ) → ids k j ≡ (hit p rs k || hit q rs k)))
  unfolding search_tables_for_refs search_tree combine of_option
  search_tables_for_refs_lem p q sp sq wp wq =
      let l = map ref (filter_by (matches p) rs) in
      let r = map ref (filter_by (matches q) rs) in
      let el = leaf_refs_lem p sp wp in
      let er = leaf_refs_lem q sq wq in
      let (a, ran_a, keys_a) = join_sets_and (λ r. r.id) l r in
      let (o, ran_o, keys_o) = join_sets_or (λ r. r.id) l r in
      (
        (
          a,
          rw (el, er, search_tree) (rw (ran_a, of_option)),
          λ k. keys_a k ∙ rw (ids-map k _, ids-map k _) refl,
        ),
        (
          o,
          rw (el, er, search_tree) (rw (ran_o, of_option)),
          λ k. keys_o k ∙ rw (ids-map k _, ids-map k _) refl,
        ),
      )
