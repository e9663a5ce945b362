-- ===== src/Store/Insert/Laws.antt =====
-- What an insertion does to the contents of its table.
use open_mem_db.Prelude.{
  ℕ, ◌+◌, ◌%◌, ◌^◌, ◌≡◌, sym, ap, ◌∙◌, String, false, some, List, [], ◌∷◌, ◌++◌, map, arith, ◌==◌,
  ==_self, All, All-append,
}
use mathlib.Core.List.{map-append}
use open_mem_db.Types.{Fits}
use open_mem_db.Schema.{TableSchema}
use open_mem_db.Result.{RecordData, kept, manip, success, done}
use open_mem_db.Tervel.{Tervel}
use open_mem_db.Store.{Heap, DataStore, update}
use open_mem_db.Store.Records.{RecordCopy, copy_record, new_record, clear_status}
use open_mem_db.Store.Records.Laws.{copy-new_record}
use open_mem_db.Store.Constraints.{schema_checker}
use open_mem_db.Store.Search.Laws.{Row, ptrs, copy_at}
use open_mem_db.Store.Change.Loop.{Distinct, Fresh-append}
use open_mem_db.Store.Contents.{Shows, Below, Below-suc, get_table_pair_lem, update_self}
use open_mem_db.Store.Insert.{append_row, insert_record}

-- The row that an insertion adds.
abbrev pub inserted : ℕ → ℕ → RecordData → Row
inserted ptr counter filled = record {
  ptr = ptr;
  rec = record { id = counter % 2 ^ 57; data_cells = map clear_status filled };
}

pub Distinct-snoc : (n : ℕ) (xs : List ℕ) → Below n xs → Distinct xs → Distinct (xs ++ n ∷ [])
Distinct-snoc n [] b d = (tt, tt)
Distinct-snoc n (x ∷ xs) b d = (
  Fresh-append x xs (n ∷ []) d.0 ((λ e. absurd (omega (arith, e, b.0))), tt),
  Distinct-snoc n xs b.1 d.1,
)

module _ ⦃t : Tervel⦄ where
  -- Rows below the new address read the same.
  pub contents_update :
      (rows : Heap t.Vec) (n : ℕ) (v : t.Vec) (rs : List Row)
      → Below n (ptrs rs)
      → All (λ r. copy_at rows r.ptr ≡ some r.rec) rs
      → All (λ r. copy_at (update rows n v) r.ptr ≡ some r.rec) rs
  contents_update rows n v [] b c = tt
  contents_update rows n v (r ∷ rs) b c =
      let other : (n == r.ptr) ≡ false = ground (arith, b.0) in
      (rw (other, copy_at) c.0, contents_update rows n v rs b.1 c.1)

  pub copy_at_new :
      (rows : Heap t.Vec) (n : ℕ) (v : t.Vec) (rec : RecordCopy)
      → copy_record v ≡ some rec
      → copy_at (update rows n v) n ≡ some rec
  copy_at_new rows n v rec e = rw (==_self, copy_at) e

  module _ (s : DataStore) (name : String) (schema : TableSchema) (counter : ℕ) (rs : List Row)
      (h : Shows s name schema counter rs) (filled : RecordData) (fits : All Fits filled) where
    append_row-Shows :
        Shows
          (append_row s h.address h.pair filled)
          name
          schema
          ((counter + 1) % 2 ^ 64)
          (rs ++ inserted s.next counter filled ∷ [])
    unfolding append_row
    append_row-Shows =
        let r = inserted s.next counter filled in
        let v = new_record filled h.pair.table.record_counter in
        let e : ptrs (rs ++ r ∷ []) ≡ ptrs rs ++ s.next ∷ [] =
          map-append (λ r. r.ptr) rs (r ∷ []) in
        record {
          address = h.address;
          pair = record h.pair {
            table = record {
              records = t.push_back_w_ra h.pair.table.records s.next;
              record_counter = (h.pair.table.record_counter + 1) % 2 ^ 64;
            };
          };
          mapped = h.mapped;
          stored = update_self s.pairs h.address _;
          schema_is = h.schema_is;
          counter_is = ap (λ c. (c + 1) % 2 ^ 64) h.counter_is;
          holds = record {
            pointers = t.items-push_back h.pair.table.records s.next ∙ rw h.holds.pointers (sym e);
            contents =
                All-append _ rs (r ∷ [])
                  (contents_update s.rows s.next v rs h.in_use h.holds.contents)
                  (
                    copy_at_new s.rows s.next v r.rec
                        (copy-new_record filled h.pair.table.record_counter fits ∙ rw h.counter_is),
                    tt,
                  );
          };
          distinct = rw e (Distinct-snoc s.next (ptrs rs) h.in_use h.distinct);
          in_use = rw e (
              All-append _ (ptrs rs) (s.next ∷ []) (Below-suc s.next (ptrs rs) h.in_use)
                (omega arith, tt));
          address_in_use = omega (arith, h.address_in_use);
        }

    -- A row that the schema accepts, perhaps filled in, is added behind the others, under the
    -- table's counter as its identifier, and the counter goes up.
    pub insert_record_lem :
        (row : RecordData)
        → schema_checker schema counter row ≡ (kept, filled)
        → (s' : DataStore) × (insert_record s name row ≡ (manip success done, s'))
          × Shows s' name schema
              ((counter + 1) % 2 ^ 64)
              (rs ++ inserted s.next counter filled ∷ [])
    unfolding insert_record
    insert_record_lem row ok = (
      append_row s h.address h.pair filled,
      rw (get_table_pair_lem s name schema counter rs h, insert_record)
          (rw (h.schema_is, h.counter_is) (rw (ok, insert_record))),
      append_row-Shows,
    )
