-- ===== src/Store/Join.antt =====
-- searchTables and searchTablesForRefs of data_store.cc: a tree of predicates, its leaves searched
-- in their tables and its inner nodes joined by record identifier.
pub mod Sets
pub mod Refs
pub mod Copies
use open_mem_db.Prelude.{
  ℕ, String, Bool, true, false, Option, none, some, List, [], ◌∷◌, ◌++◌, ltb, str_eq, if◌then◌else◌,
}
use open_mem_db.Expr.{ExpressionOperation, and, or}
use open_mem_db.Predicate.{Predicate, ValuePredicate, nullptr, nested, value, column}
use open_mem_db.Tervel.{Tervel}
use open_mem_db.Store.{DataStore, SchemaTablePair, get_table_pair}
use open_mem_db.Store.Records.{RecordCopy}
use open_mem_db.Store.Search.{RecordReference, search_table, search_table_for_refs}

module _ {ℓ} {A : Type ℓ} (key : A → ℕ) where
  insert_sorted : A → List A → List A
  insert_sorted x [] = x ∷ []
  insert_sorted x (y ∷ ys) = elim (ltb (key y) (key x)) [
    | true ↦ y ∷ insert_sorted x ys
    | false ↦ x ∷ y ∷ ys
  ]

  -- std::sort by identifier. The order of equal identifiers, which it leaves open, is that of the
  -- input here.
  unfoldable pub sort_by : List A → List A
  unfolding insert_sorted
  sort_by [] = []
  sort_by (x ∷ xs) = insert_sorted x (sort_by xs)

  -- std::set_intersection
  unfoldable pub set_intersection : List A → List A → List A
  set_intersection (x ∷ xs) (y ∷ ys) = elim (ltb (key x) (key y)) [
    | true ↦ set_intersection xs (y ∷ ys)
    | false ↦ elim (ltb (key y) (key x)) [
      | true ↦ set_intersection (x ∷ xs) ys
      | false ↦ x ∷ set_intersection xs ys
    ]
  ]
  set_intersection xs ys = []

  -- std::set_union
  unfoldable pub set_union : List A → List A → List A
  set_union [] ys = ys
  set_union (x ∷ xs) [] = x ∷ xs
  set_union (x ∷ xs) (y ∷ ys) = elim (ltb (key y) (key x)) [
    | true ↦ y ∷ set_union (x ∷ xs) ys
    | false ↦ elim (ltb (key x) (key y)) [
      | true ↦ x ∷ set_union xs (y ∷ ys)
      | false ↦ x ∷ set_union xs ys
    ]
  ]

  -- The set operation of a node on the sorted ranges. For another operation the end of the result
  -- is an iterator that was never set: `none`.
  unfoldable pub join_sets : ExpressionOperation → List A → List A → Option (List A)
  join_sets and l r = some (set_intersection (sort_by l) (sort_by r))
  join_sets or l r = some (set_union (sort_by l) (sort_by r))
  join_sets _ l r = none

-- What a child of a node gives: undefined behaviour, the early return for a column predicate, or a
-- result.
pub data Child {ℓ} (R : Type ℓ) : Type ℓ where
  fault : Child R
  unsupported : Child R
  found : R → Child R

module _ {ℓ} {R : Type ℓ} (leaf : ValuePredicate → Option R)
    (join : ExpressionOperation → R → R → Option R) (nothing : R) where
  of_option : Option R → Child R
  of_option none = fault
  of_option (some r) = found r

  -- The body of a search, when both children have been looked at.
  combine : ExpressionOperation → Child R → Child R → Child R
  combine op fault r = fault
  combine op unsupported r = found nothing
  combine op (found l) fault = fault
  combine op (found l) unsupported = found nothing
  combine op (found l) (found r) = of_option (join op l r)

  -- A child of the node; a null child is dereferenced.
  unfoldable pub search_tree : Predicate → Child R
  unfolding combine of_option
  search_tree nullptr = fault
  search_tree (column l r) = unsupported
  search_tree (value p) = of_option (leaf p)
  search_tree (nested op l r) = combine op (search_tree l) (search_tree r)

-- std::map from table names, in key order
abbrev pub TableCopies : Type 0
TableCopies = List (String × List RecordCopy)

-- The two loops over the result maps: the tables that both sides name are joined.
join_against :
    ExpressionOperation
    → String
    → List RecordCopy
    → TableCopies
    → Option TableCopies
    → Option TableCopies
join_against op name l [] rest = rest
join_against op name l ((other, r) ∷ rs) rest =
    let next = join_against op name l rs rest in
    if str_eq other name
    then elim (join_sets (λ c. c.id) op l r) [
      | none ↦ none
      | some j ↦ elim next [ none ↦ none | some js ↦ some ((name, j) ∷ js) ]
    ]
    else next

join_tables : ExpressionOperation → TableCopies → TableCopies → Option TableCopies
unfolding join_against join_sets
join_tables op [] rs = some []
join_tables op ((name, l) ∷ ls) rs = join_against op name l rs (join_tables op ls rs)

module _ ⦃t : Tervel⦄ where
  -- A leaf of searchTables: a table that is not there gives no rows.
  leaf_copies : DataStore → ValuePredicate → Option TableCopies
  leaf_copies s p = elim (get_table_pair s p.column.table) [
    | none ↦ some ((p.column.table, []) ∷ [])
    | some (a, pair) ↦ elim (search_table s.rows pair.table.records p) [
      | none ↦ none
      | some cs ↦ some ((p.column.table, cs) ∷ [])
    ]
  ]

  leaf_refs : DataStore → ValuePredicate → Option (List RecordReference)
  leaf_refs s p = elim (get_table_pair s p.column.table) [
    | none ↦ some []
    | some (a, pair) ↦ search_table_for_refs s.rows pair.table.records p
  ]

  -- searchTables, on a nested predicate
  unfoldable pub search_tables : DataStore → Predicate → Child TableCopies
  unfolding leaf_copies join_tables
  search_tables s pred = search_tree (leaf_copies s) join_tables [] pred

  -- searchTablesForRefs, on a nested predicate
  unfoldable pub search_tables_for_refs : DataStore → Predicate → Child (List RecordReference)
  unfolding leaf_refs
  search_tables_for_refs s pred = search_tree (leaf_refs s) (join_sets (λ r. r.id)) [] pred
