-- ===== src/Store/Change/Finish.antt =====
-- The end of updateRecords and deleteRecords: the result from the counters, and the table from the
-- loops' work.
use open_mem_db.Prelude.{ℕ, ◌%◌, ◌^◌, ◌<◌, ◌≤◌, ◌≡◌, String, false, List, arith}
use open_mem_db.Result.{ManipResult, manip, success, done}
use open_mem_db.Schema.{TableSchema}
use open_mem_db.Tervel.{Tervel}
use open_mem_db.Store.{DataStore, SchemaTablePair}
use open_mem_db.Store.Search.Laws.{Row, ptrs, Holds}
use open_mem_db.Store.Change.{Work, finish}
use open_mem_db.Store.Change.Loop.{Distinct}
use open_mem_db.Store.Contents.{Shows, Below, update_self}

abbrev pub affected : ℕ → ManipResult
affected n = record (manip success done) { rows_affected = n }

module _ ⦃t : Tervel⦄ (s : DataStore) (p : ℕ) (pair : SchemaTablePair) (w : Work) where
  pub finish_result :
      (n : ℕ)
      → w.some_contention ≡ false
      → w.num_affected ≡ n
      → n < 2 ^ 32
      → finish s p pair w ≡ (affected n, (finish s p pair w).1)
  unfolding finish
  finish_result n calm count few = let e : w.num_affected % 2 ^ 32 ≡ n = omega arith in rw (calm, e)

module _ ⦃t : Tervel⦄ (s : DataStore) (name : String) (schema : TableSchema) (counter : ℕ)
    (rs rs' : List Row) (w : Work) (h : Shows s name schema counter rs) where
  pub finish-Shows :
      Holds w.rows w.records rs'
      → Distinct (ptrs rs')
      → Below w.next (ptrs rs')
      → s.next ≤ w.next
      → Shows (finish s h.address h.pair w).1 name schema counter rs'
  unfolding finish
  finish-Shows holds distinct below grown = record {
    address = h.address;
    pair = record h.pair { table = record h.pair.table { records = w.records } };
    mapped = h.mapped;
    stored = update_self s.pairs h.address _;
    schema_is = h.schema_is;
    counter_is = h.counter_is;
    holds = holds;
    distinct = distinct;
    in_use = below;
    address_in_use = omega (arith, h.address_in_use);
  }
