-- ===== src/Store/Refinement.antt =====
-- What the data store promises of a table, and that insertRecord, updateRecords, deleteRecords and
-- getRecords of database/source/data/data_store.cc keep the promise over every sequence of calls:
-- the table is a list of rows, each with its identifier, and a counter. Pointers are forgotten.
pub mod Runs
use open_mem_db.Prelude.{
  ℕ, suc, ◌+◌, ◌/◌, ◌%◌, ◌^◌, ◌<◌, ◌≤◌, ◌≡◌, refl, sym, ap, String, Bool, true, false, not, ◌&&◌,
  Option, none, some, List, [], ◌∷◌, ◌++◌, map, arith, ◌==◌, if◌then◌else◌, length, get_elem?, All,
  All-map, All-append, filter_by, Bool-cases, inl, inr, length-map,
}
use mathlib.Core.List.{map-append}
use open_mem_db.Types.{TervelData, Fits}
use open_mem_db.Schema.{SqlColumn, TableSchema}
use open_mem_db.Result.{
  RecordData, ManipResult, manip, success, failure, done, err_failed_constraint,
}
use open_mem_db.Predicate.{ValuePredicate, value}
use open_mem_db.Tervel.{Tervel}
use open_mem_db.Store.{DataStore}
use open_mem_db.Store.Records.{RecordCopy, clear_status}
use open_mem_db.Store.Records.Laws.{Storable, Storable-Fits, merge, pick}
use open_mem_db.Store.Constraints.Laws.{lacks, fill, length-fill}
use open_mem_db.Store.Search.Laws.{Row, recs, cell_matches, matches, IsWide}
use open_mem_db.Store.Contents.{Shows, All-filter_by}
use open_mem_db.Store.Select.Laws.{cells}
use open_mem_db.Store.Insert.{insert_record}
use open_mem_db.Store.Insert.Laws.{inserted}
use open_mem_db.Store.Change.{update_records, delete_records}
use open_mem_db.Store.Change.Finish.{affected}
use open_mem_db.Store.Change.Replace.{IsUpdatable, updated, update_rows}

-- A table as a client thinks of it.
pub record Table : Type 0 where
  pub counter : ℕ
  pub entries : List RecordCopy

-- The calls that change a table.
pub data Call : Type 0 where
  insert : RecordData → Call
  update : ValuePredicate → RecordData → Call
  delete : ValuePredicate → Call

-- A row satisfies a predicate.
abbrev pub meets : ValuePredicate → RecordCopy → Bool
meets pred e = cell_matches pred (get_elem? e.data_cells pred.column.column_idx)

-- Whether a row is accepted: it has the schema's length and no null under NOT NULL.
abbrev pub accepts : List SqlColumn → RecordData → Bool
accepts columns row = (length row == length columns) && not (lacks columns row)

-- The cells that are not null in the new row replace those of a matching row, whose identifier is
-- divided by 128.
abbrev pub revise : ValuePredicate → RecordData → RecordCopy → RecordCopy
revise pred new e =
    if meets pred e then record { id = e.id / 128; data_cells = merge e.data_cells new } else e

abbrev pub insert_into : List SqlColumn → RecordData → Table → Table
insert_into columns row t =
    if accepts columns row
    then record {
      counter = (t.counter + 1) % 2 ^ 64;
      entries =
          t.entries
          ++ record {
            id = t.counter % 2 ^ 57;
            data_cells = map clear_status (fill t.counter columns row);
          }
            ∷ [];
    }
    else t

-- The table after a call.
abbrev pub after : List SqlColumn → Call → Table → Table
after columns (insert row) t = insert_into columns row t
after columns (update pred new) t = record t { entries = map (revise pred new) t.entries }
after columns (delete pred) t = record t { entries = filter_by (λ e. not (meets pred e)) t.entries }

-- What the call answers.
abbrev pub answer : List SqlColumn → Call → Table → ManipResult
answer columns (insert row) t =
    if accepts columns row then manip success done else manip failure err_failed_constraint
answer columns (update pred new) t = affected (length (filter_by (meets pred) t.entries))
answer columns (delete pred) t = affected (length (filter_by (meets pred) t.entries))

-- A call that the data structures have room for: the cells fit their words, the column is one of
-- the table's, an update has one cell for each column, Tervel's bits are clear in these cells and in
-- the identifiers of the rows that it replaces, and the rows can be counted.
abbrev pub Allowed : List SqlColumn → Call → Table → Type 0
Allowed columns (insert row) t = accepts columns row ≡ true → All Fits (fill t.counter columns row)
Allowed columns (update pred new) t =
    (pred.column.column_idx < length columns)
    × (length new ≡ length columns)
    × All Storable new
    × All (λ e. meets pred e ≡ true → e.id % 8 ≡ 0) t.entries
    × (length t.entries < 2 ^ 32)
Allowed columns (delete pred) t =
    (pred.column.column_idx < length columns) × (length t.entries < 2 ^ 32)

-- A row of the store that has one cell for each of `n` columns, within the widths.
pub record IsRow (n : ℕ) (r : Row) : Type 0 where
  pub long : length r.rec.data_cells ≡ n
  pub cells_fit : All Fits r.rec.data_cells
  pub id_fits : r.rec.id < 2 ^ 57

pub IsRow-IsWide :
    (pred : ValuePredicate) (n : ℕ) (rs : List Row)
    → pred.column.column_idx < n
    → All (IsRow n) rs
    → All (IsWide pred) rs
IsRow-IsWide pred n rs h = All-map (λ r (w : IsRow n r). omega (arith, h, w.long)) rs

pub IsRow-IsUpdatable :
    (pred : ValuePredicate) (new : RecordData) (n : ℕ) (rs : List Row)
    → length new ≡ n
    → All (λ e. meets pred e ≡ true → e.id % 8 ≡ 0) (recs rs)
    → All (IsRow n) rs
    → All (λ r. matches pred r ≡ true → IsUpdatable new r) rs
IsRow-IsUpdatable pred new n [] h c w = tt
IsRow-IsUpdatable pred new n (r ∷ rs) h c w = (
  λ hit. record {
    short = omega (arith, h, w.0.long);
    cells_fit = w.0.cells_fit;
    id_fits = w.0.id_fits;
    id_clear = c.0 hit;
  },
  IsRow-IsUpdatable pred new n rs h c.1 w.1,
)

pub recs-filter_by :
    (m : RecordCopy → Bool) (rs : List Row)
    → recs (filter_by (λ r. m r.rec) rs) ≡ filter_by m (recs rs)
recs-filter_by m [] = refl
recs-filter_by m (r ∷ rs) = elim (Bool-cases (m r.rec)) [
  | inl e ↦ rw (e) (ap (◌∷◌ r.rec) (recs-filter_by m rs))
  | inr e ↦ rw (e) (recs-filter_by m rs)
]

pub recs-update_rows :
    (next : ℕ) (pred : ValuePredicate) (new : RecordData) (rs : List Row)
    → recs (update_rows next (matches pred) new rs) ≡ map (revise pred new) (recs rs)
recs-update_rows next pred new [] = refl
recs-update_rows next pred new (r ∷ rs) = elim (Bool-cases (matches pred r)) [
  | inl e ↦ rw (e) (ap (◌∷◌ (updated next new r).rec) (recs-update_rows (suc next) pred new rs))
  | inr e ↦ rw (e) (ap (◌∷◌ r.rec) (recs-update_rows next pred new rs))
]

clear_status-Fits : (d : TervelData) → Fits d → Fits (clear_status d)
clear_status-Fits d f = omega (arith, f.type_fits, f.value_fits)

pick-Fits : (o n : TervelData) → Fits o → Fits n → Fits (pick o n)
pick-Fits o n fo fn = ground (arith, clear_status-Fits o fo, clear_status-Fits n fn)

merge-Fits : (old new : RecordData) → All Fits old → All Fits new → All Fits (merge old new)
merge-Fits [] new fo fn = tt
merge-Fits (o ∷ os) [] fo fn = tt
merge-Fits (o ∷ os) (n ∷ news) fo fn = (pick-Fits o n fo.0 fn.0, merge-Fits os news fo.1 fn.1)

length-merge :
    (old new : RecordData) → length old ≡ length new → length (merge old new) ≡ length old
length-merge [] new h = refl
length-merge (o ∷ os) [] h = absurd (omega (arith, h))
length-merge (o ∷ os) (n ∷ news) h = ap suc (length-merge os news (omega (arith, h)))

pub update_rows-IsRow :
    (next n : ℕ) (pred : ValuePredicate) (new : RecordData) (rs : List Row)
    → length new ≡ n
    → All Storable new
    → All (IsRow n) rs
    → All (IsRow n) (update_rows next (matches pred) new rs)
update_rows-IsRow next n pred new [] h f w = tt
update_rows-IsRow next n pred new (r ∷ rs) h f w = elim (Bool-cases (matches pred r)) [
  | inl e ↦ rw (e) (
    record {
      long =
          omega (arith, length-merge r.rec.data_cells new (omega (arith, h, w.0.long)), w.0.long);
      cells_fit = merge-Fits r.rec.data_cells new w.0.cells_fit (Storable-Fits new f);
      id_fits = omega (arith, w.0.id_fits);
    },
    update_rows-IsRow (suc next) n pred new rs h f w.1,
  )
  | inr e ↦ rw (e) (w.0, update_rows-IsRow next n pred new rs h f w.1)
]

pub inserted-IsRow :
    (next counter : ℕ) (columns : List SqlColumn) (row : RecordData)
    → length row ≡ length columns
    → All Fits (fill counter columns row)
    → IsRow (length columns) (inserted next counter (fill counter columns row))
inserted-IsRow next counter columns row h f = record {
  long = omega (
    arith,
    length-map clear_status (fill counter columns row),
    length-fill counter columns row,
    h,
  );
  cells_fit = cleared (fill counter columns row) f;
  id_fits = omega arith;
}
  where
    cleared : (ds : RecordData) → All Fits ds → All Fits (map clear_status ds)
    cleared [] f = tt
    cleared (d ∷ ds) f = (clear_status-Fits d f.0, cleared ds f.1)
