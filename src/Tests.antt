-- ===== src/Tests.antt =====
-- A small store for the tests, over lists: the table `t` with an AUTO_INCREMENT column `id` and a
-- NOT NULL column `v`, and two rows.
pub mod Values
pub mod Tables
pub mod Rows
pub mod Statements
pub mod Queries
pub mod Packets
pub mod Manager
pub mod Answers
pub mod Runs
pub mod Tokens
use open_mem_db.Prelude.{
  ℕ, ◌+◌, ◌*◌, ◌^◌, String, Bool, false, Option, none, some, List, [], ◌∷◌, ◌≡◌, ◌≢◌, ◌<◌, refl,
  arith,
}
use open_mem_db.Types.{TervelData, DataType, integer, big_int, type_code, Fits, pack, unpack}
use open_mem_db.Schema.{SqlColumn, TableSchema, auto_increment, not_null}
use open_mem_db.Result.{RecordData}
use open_mem_db.Expr.{equals}
use open_mem_db.Predicate.{ValuePredicate, single}
use open_mem_db.Tervel.{Tervel}
use open_mem_db.Tervel.Listed.{listed, hash}
use open_mem_db.Store.{DataStore, DataTable, SchemaTablePair, update, empty_store}
use open_mem_db.Store.Records.{copy_record}
use open_mem_db.Store.Search.Laws.{Row, Holds}
use open_mem_db.Store.Contents.{Shows}

abbrev pub cell : DataType → ℕ → TervelData
cell t v = record { tervel_status = 0; type = type_code t; null = false; data_value = v }

pub cell-Fits : (v : ℕ) → v < 2 ^ 57 → Fits (cell big_int v)
cell-Fits v h = record { status_fits = omega arith; type_fits = omega arith; value_fits = h }

abbrev pub id_column : SqlColumn
id_column = record {
  name = "id";
  type = integer;
  constraint = record { type = auto_increment; value = cell integer 0 } ∷ [];
}

abbrev pub v_column : SqlColumn
v_column = record {
  name = "v";
  type = big_int;
  constraint = record { type = not_null; value = cell integer 0 } ∷ [];
}

abbrev pub schema : TableSchema
schema = record { columns = id_column ∷ v_column ∷ [] }

-- The word of a cell, written out.
abbrev word : DataType → ℕ → ℕ
word t v = 8 * type_code t + 128 * v

abbrev pub row : ℕ → ℕ → ℕ → Row
row ptr id v = record {
  ptr = ptr;
  rec = record { id = id; data_cells = cell integer (id + 1) ∷ cell big_int v ∷ [] };
}

abbrev pub rows : List Row
rows = row 2 0 10 ∷ row 3 1 20 ∷ []

abbrev vec : ℕ → ℕ → List ℕ
vec id v = word integer (id + 1) ∷ word big_int v ∷ 128 * id ∷ []

abbrev pub pair : SchemaTablePair
pair = record { table = record { records = 2 ∷ 3 ∷ []; record_counter = 2 }; schema = schema }

abbrev pub store : DataStore
store = record {
  table_name_mapping = (hash "t", 1) ∷ [];
  pairs = update (λ p. none) 1 pair;
  rows = update (update (λ p. none) 2 (vec 0 10)) 3 (vec 1 20);
  next = 4;
}

pub store-Holds : Holds store.rows pair.table.records rows
unfolding copy_record unpack
store-Holds = record { pointers = refl; contents = (refl, (refl, tt)) }

pub store-Shows : Shows store "t" schema 2 rows
store-Shows = record {
  address = 1;
  pair = pair;
  mapped = refl;
  stored = refl;
  schema_is = refl;
  counter_is = refl;
  holds = store-Holds;
  distinct = (((λ e. absurd (omega (arith, e))), tt), (tt, tt));
  in_use = (omega arith, (omega arith, tt));
  address_in_use = omega arith;
}

abbrev pub u_pair : SchemaTablePair
u_pair = record { table = record { records = []; record_counter = 0 }; schema = schema }

-- The store with a second table, `u`, that is empty.
abbrev pub two_tables : DataStore
two_tables = record store {
  table_name_mapping = (hash "u", 4) ∷ (hash "t", 1) ∷ [];
  pairs = update store.pairs 4 u_pair;
  next = 5;
}

abbrev pub t-Shows : Shows two_tables "t" schema 2 rows
t-Shows = record {
  address = 1;
  pair = pair;
  mapped = refl;
  stored = refl;
  schema_is = refl;
  counter_is = refl;
  holds = store-Holds;
  distinct = (((λ e. absurd (omega (arith, e))), tt), (tt, tt));
  in_use = (omega arith, (omega arith, tt));
  address_in_use = omega arith;
}

abbrev pub u-Shows : Shows two_tables "u" schema 0 []
u-Shows = record {
  address = 4;
  pair = u_pair;
  mapped = refl;
  stored = refl;
  schema_is = refl;
  counter_is = refl;
  holds = record { pointers = refl; contents = tt };
  distinct = tt;
  in_use = tt;
  address_in_use = omega arith;
}

-- v = 20
abbrev pub v_is_20 : ValuePredicate
v_is_20 = record {
  op = equals;
  column = record { table = "t"; column_idx = 1 };
  expected_value = single (cell big_int 20);
}

-- v = 10
abbrev pub v_is_10 : ValuePredicate
v_is_10 = record v_is_20 { expected_value = single (cell big_int 10) }

-- v = 30, which no row satisfies
abbrev pub v_is_30 : ValuePredicate
v_is_30 = record v_is_20 { expected_value = single (cell big_int 30) }
