-- ===== src/Store/Contents.antt =====
-- What a table of the store holds, as its readers see it: the relation that the theorems on the
-- operations keep.
use open_mem_db.Prelude.{
  ℕ, suc, ◌<◌, ◌≡◌, String, Bool, Option, none, some, List, [], ◌∷◌, arith, ==_self, All, All-map,
  filter_by, Bool-cases, inl, inr,
}
use open_mem_db.Schema.{TableSchema}
use open_mem_db.Tervel.{Tervel}
use open_mem_db.Store.{DataStore, SchemaTablePair, update, get_table_pair}
use open_mem_db.Store.Search.Laws.{Row, ptrs, Holds}
use open_mem_db.Store.Change.Loop.{Fresh, Distinct}

module _ {ℓ κ} {A : Type ℓ} (P : A → Type κ) (p : A → Bool) where
  pub All-filter_by : (xs : List A) → All P xs → All P (filter_by p xs)
  All-filter_by [] h = tt
  All-filter_by (x ∷ xs) h = elim (Bool-cases (p x)) [
    | inl e ↦ rw e (h.0, All-filter_by xs h.1)
    | inr e ↦ rw e (All-filter_by xs h.1)
  ]

-- Pointers below a bound.
abbrev pub Below : ℕ → List ℕ → Type 0
Below n xs = All (λ x. x < n) xs

Fresh-filter_by :
    (p : ℕ) (m : Row → Bool) (rs : List Row) → Fresh p (ptrs rs) → Fresh p (ptrs (filter_by m rs))
Fresh-filter_by p m [] f = tt
Fresh-filter_by p m (r ∷ rs) f = elim (Bool-cases (m r)) [
  | inl e ↦ rw e (f.0, Fresh-filter_by p m rs f.1)
  | inr e ↦ rw e (Fresh-filter_by p m rs f.1)
]

pub Distinct-filter_by :
    (m : Row → Bool) (rs : List Row) → Distinct (ptrs rs) → Distinct (ptrs (filter_by m rs))
Distinct-filter_by m [] d = tt
Distinct-filter_by m (r ∷ rs) d = elim (Bool-cases (m r)) [
  | inl e ↦ rw e (Fresh-filter_by r.ptr m rs d.0, Distinct-filter_by m rs d.1)
  | inr e ↦ rw e (Distinct-filter_by m rs d.1)
]

pub Below-filter_by :
    (n : ℕ) (m : Row → Bool) (rs : List Row) → Below n (ptrs rs) → Below n (ptrs (filter_by m rs))
Below-filter_by n m [] d = tt
Below-filter_by n m (r ∷ rs) d = elim (Bool-cases (m r)) [
  | inl e ↦ rw e (d.0, Below-filter_by n m rs d.1)
  | inr e ↦ rw e (Below-filter_by n m rs d.1)
]

pub Below-suc : (n : ℕ) (xs : List ℕ) → Below n xs → Below (suc n) xs
Below-suc n xs = All-map (λ x (h : x < n). omega arith) xs

pub Fresh-of_Below : (n : ℕ) (xs : List ℕ) → Below n xs → Fresh n xs
Fresh-of_Below n xs = All-map (λ x (h : x < n). λ e. absurd (omega (arith, e))) xs

module _ ⦃t : Tervel⦄ where
  -- The store maps `name` to a table with this schema and record counter, whose rows are `rs` in
  -- this order, under different addresses that are in use.
  pub record Shows (s : DataStore) (name : String) (schema : TableSchema) (counter : ℕ)
      (rs : List Row) : Type 0 where
    pub address : ℕ
    pub pair : SchemaTablePair
    pub mapped : t.find s.table_name_mapping (t.hash name) ≡ some address
    pub stored : s.pairs address ≡ some pair
    pub schema_is : pair.schema ≡ schema
    pub counter_is : pair.table.record_counter ≡ counter
    pub holds : Holds s.rows pair.table.records rs
    pub distinct : Distinct (ptrs rs)
    pub in_use : Below s.next (ptrs rs)
    pub address_in_use : address < s.next

  pub get_table_pair_lem :
      (s : DataStore) (name : String) (schema : TableSchema) (counter : ℕ) (rs : List Row)
      (h : Shows s name schema counter rs)
      → get_table_pair s name ≡ some (h.address, h.pair)
  unfolding get_table_pair
  get_table_pair_lem s name schema counter rs h =
      rw (h.mapped, get_table_pair) (rw (h.stored, get_table_pair))

  pub get_table_pair_absent :
      (s : DataStore) (name : String)
      → t.find s.table_name_mapping (t.hash name) ≡ none
      → get_table_pair s name ≡ none
  unfolding get_table_pair
  get_table_pair_absent s name e = rw (e, get_table_pair)

  pub update_self {ℓ} : {A : Type ℓ} (h : ℕ → Option A) (p : ℕ) (a : A) → update h p a p ≡ some a
  update_self h p a = rw ==_self
