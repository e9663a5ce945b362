-- ===== src/Store/Change/Update.antt =====
-- updateRecords on a table of distinct rows: the matching rows are replaced where they stand.
use open_mem_db.Prelude.{
  ℕ, suc, String, ◌^◌, ◌<◌, ◌≡◌, refl, ap, ◌∙◌, inl, inr, Bool, true, some, List, [], ◌∷◌, ◌++◌,
  map, append_assoc, arith, length, filter_by, length-filter_by-le, Bool-cases, All,
}
use open_mem_db.Store.Records.Laws.{Storable}
use open_mem_db.Tervel.{Tervel}
use open_mem_db.Result.{RecordData}
use open_mem_db.Schema.{TableSchema}
use open_mem_db.Predicate.{ValuePredicate, value}
use open_mem_db.Store.{DataStore}
use open_mem_db.Store.Search.Laws.{Row, ref, matches, IsWide, search_table_for_refs_lem}
use open_mem_db.Store.Change.{
  Work, ref_loop, update_slot, start, update_records, change_table_lem, find_refs, finish,
}
use open_mem_db.Store.Change.Finish.{affected, finish_result, finish-Shows}
use open_mem_db.Store.Contents.{Shows, get_table_pair_lem}
use open_mem_db.Store.Change.Replace.{
  IsUpdatable, updated, update_rows, Carries, Advanced, update_one,
}

module _ ⦃t : Tervel⦄ where
  -- The references of the matching rows, in table order: each updates its own row. `kept` are the
  -- rows that the references have passed.
  pub update_refs :
      (new : RecordData) (m : Row → Bool) (rs kept : List Row) (w : Work)
      → All Storable new
      → Carries w (kept ++ rs)
      → All (λ r. m r ≡ true → IsUpdatable new r) rs
      → (w' : Work) × (ref_loop (update_slot new) (map ref (filter_by m rs)) w ≡ some w')
        × Advanced w w' (kept ++ update_rows w.next m new rs) (length (filter_by m rs))
  unfolding ref_loop
  update_refs new m [] kept w nf c fit = (
    w,
    refl,
    record { carries = c; addresses = omega arith; no_contention = refl; counted = omega arith },
  )
  update_refs new m (r ∷ rs) kept w nf c fit = elim (Bool-cases (m r)) [
    | inl yes_m ↦
        let (w1, one, a1) = update_one new nf kept r rs w c (fit.0 yes_m) in
        let u = updated w.next new r in
        let (w2, more, a2) =
          update_refs new m rs (kept ++ u ∷ []) w1 nf
            (rw (append_assoc kept (u ∷ []) rs) a1.carries) fit.1 in
        let next1 : w1.next ≡ suc w.next = omega (arith, a1.addresses) in
        (
          w2,
          rw yes_m (rw (one, ref_loop) more),
          rw yes_m (record {
            carries = rw (next1, append_assoc) at a2.carries;
            addresses = omega (arith, a1.addresses, a2.addresses);
            no_contention = a2.no_contention ∙ a1.no_contention;
            counted = omega (arith, a1.counted, a2.counted);
          }),
        )
    | inr no_m ↦
        let (w2, more, a2) =
          update_refs new m rs (kept ++ r ∷ []) w nf (rw (append_assoc kept (r ∷ []) rs) c) fit.1 in
        (
          w2,
          rw no_m more,
          rw no_m (record {
            carries = rw append_assoc at a2.carries;
            addresses = a2.addresses;
            no_contention = a2.no_contention;
            counted = a2.counted;
          }),
        )
  ]

  -- Where the predicate's column is in every row, the new cells fit every matching row and leave
  -- Tervel's three bits clear, and the identifier of every matching row is a multiple of 8, an update
  -- of a table with fewer than 2^32 rows with a value predicate succeeds, never reports contention,
  -- counts the matching rows, and replaces exactly them, where they stand, each by its cells with the
  -- new ones that are not null, under a new address and its old identifier divided by 128.
  pub update_records_lem :
      (s : DataStore) (name : String) (schema : TableSchema) (counter : ℕ) (rs : List Row)
      (pred : ValuePredicate) (new : RecordData)
      → Shows s name schema counter rs
      → All (IsWide pred) rs
      → All (λ r. matches pred r ≡ true → IsUpdatable new r) rs
      → All Storable new
      → length rs < 2 ^ 32
      → (s' : DataStore) × (update_records s (value pred) name new
          ≡ some (affected (length (filter_by (matches pred) rs)), s'))
        × Shows s' name schema counter (update_rows s.next (matches pred) new rs)
  unfolding update_records find_refs
  update_records_lem s name schema counter rs pred new h wide fit nf few =
      let hits = filter_by (matches pred) rs in
      let (w, ran, a) =
        update_refs new (matches pred) rs [] (start s h.pair) nf
          (record { holds = h.holds; distinct = h.distinct; in_use = h.in_use }) fit in
      (
        (finish s h.address h.pair w).1,
        change_table_lem (update_slot new) s (value pred) name h.address h.pair (map ref hits) w
              (get_table_pair_lem s name schema counter rs h)
              (search_table_for_refs_lem s.rows h.pair.table.records rs pred h.holds wide) ran
            ∙ ap some (
                finish_result s h.address h.pair w (length hits) a.no_contention
                  (omega (arith, a.counted))
                  (omega (arith, length-filter_by-le (matches pred) rs))),
        finish-Shows s name schema counter rs (update_rows s.next (matches pred) new rs) w h
            a.carries.holds a.carries.distinct a.carries.in_use (omega (arith, a.addresses)),
      )
