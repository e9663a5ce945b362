-- ===== src/Store.antt =====
-- database/source/data/data_store.cc: the state that the workers share. Objects behind pointers
-- stand in two heaps by their address; 0 is the null pointer, and a new object takes the next
-- address. Each operation is modelled as it runs with no other thread between its steps.
pub mod Records
pub mod Tables
pub mod Constraints
pub mod Insert
pub mod Search
pub mod Join
pub mod Select
pub mod Change
pub mod Refinement
pub mod Contents
use open_mem_db.Prelude.{ℕ, String, Option, none, some, ◌==◌, if◌then◌else◌}
use open_mem_db.Schema.{TableSchema}
use open_mem_db.Tervel.{Tervel}

-- A heap of objects by address.
abbrev pub Heap : Type 0 → Type 0
Heap A = ℕ → Option A

abbrev pub update {ℓ} : {A : Type ℓ} → (ℕ → Option A) → ℕ → A → ℕ → Option A
update h p a q = if p == q then some a else h q

abbrev pub free {ℓ} : {A : Type ℓ} → (ℕ → Option A) → ℕ → ℕ → Option A
free h p q = if p == q then none else h q

module _ ⦃t : Tervel⦄ where
  -- struct DataTable
  pub record DataTable : Type 0 where
    pub records : t.Vec
    pub record_counter : ℕ

  -- struct SchemaTablePair, its two objects inside
  pub record SchemaTablePair : Type 0 where
    pub table : DataTable
    pub schema : TableSchema

  -- class DataStore, with the heaps that its pointers lead into
  pub record DataStore : Type 0 where
    pub table_name_mapping : t.Map
    pub pairs : Heap SchemaTablePair
    pub rows : Heap t.Vec
    pub next : ℕ

  -- DataStore()
  abbrev pub empty_store : DataStore
  empty_store = record {
    table_name_mapping = t.empty_map;
    pairs = λ p. none;
    rows = λ p. none;
    next = 1;
  }

  -- getTablePair, with the address of the pair
  unfoldable pub get_table_pair : DataStore → String → Option (ℕ × SchemaTablePair)
  get_table_pair s table_name = elim (t.find s.table_name_mapping (t.hash table_name)) [
    | none ↦ none
    | some p ↦ elim (s.pairs p) [ none ↦ none | some pair ↦ some (p, pair) ]
  ]
