-- ===== src/Store/Join/Copies.antt =====
-- searchTables on the AND of two value predicates, the first of which nothing matches.
use open_mem_db.Prelude.{
  ℕ, ◌≡◌, refl, ap, ◌∙◌, String, true, some, List, [], ◌∷◌, All, filter_by, str_eq, eq_iff,
}
use open_mem_db.Schema.{TableSchema}
use open_mem_db.Expr.{and}
use open_mem_db.Predicate.{ValuePredicate, nested, value}
use open_mem_db.Tervel.{Tervel}
use open_mem_db.Store.{DataStore, get_table_pair}
use open_mem_db.Store.Search.Laws.{Row, recs, matches, IsWide, search_table_lem}
use open_mem_db.Store.Contents.{Shows, get_table_pair_lem}
use open_mem_db.Store.Join.{
  leaf_copies, search_tree, combine, of_option, join_tables, join_against, join_sets, search_tables,
  found, sort_by, set_intersection,
}

set_intersection-nil {ℓ} :
    {A : Type ℓ} (key : A → ℕ) (ys : List A) → set_intersection key [] ys ≡ []
unfolding set_intersection
set_intersection-nil key [] = refl
set_intersection-nil key (y ∷ ys) = refl

module _ ⦃t : Tervel⦄ (s : DataStore) (name : String) (schema : TableSchema) (counter : ℕ)
    (rs : List Row) (h : Shows s name schema counter rs) where
  leaf_copies_lem :
      (p : ValuePredicate)
      → p.column.table ≡ name
      → All (IsWide p) rs
      → leaf_copies s p ≡ some ((name, recs (filter_by (matches p) rs)) ∷ [])
  unfolding leaf_copies
  leaf_copies_lem p same wide =
      let there = ap (get_table_pair s) same ∙ get_table_pair_lem s name schema counter rs h in
      rw (there, leaf_copies)
        (rw (search_table_lem s.rows h.pair.table.records rs p h.holds wide, leaf_copies)
          (ap (λ n. some ((n, recs (filter_by (matches p) rs)) ∷ [])) same))

  pub search_tables_unmatched :
      (p q : ValuePredicate)
      → p.column.table ≡ name
      → q.column.table ≡ name
      → All (IsWide p) rs
      → All (IsWide q) rs
      → filter_by (matches p) rs ≡ []
      → search_tables s (nested and (value p) (value q)) ≡ found ((name, []) ∷ [])
  unfolding search_tables search_tree combine of_option join_tables join_against join_sets sort_by
  search_tables_unmatched p q sp sq wp wq nothing =
      let el = leaf_copies_lem p sp wp in
      let er = leaf_copies_lem q sq wq in
      let own : str_eq name name ≡ true = (eq_iff _ _).1 refl in
      rw (el, er, search_tree)
        (rw (nothing, own, join_against)
          (ap (λ l. found ((name, l) ∷ [])) (set_intersection-nil (λ c. c.id) _)))
