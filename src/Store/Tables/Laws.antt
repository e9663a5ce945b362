-- ===== src/Store/Tables/Laws.antt =====
-- Creation and removal of a table, and the lookups of its schema and columns.
use open_mem_db.Prelude.{
  ℕ, zero, suc, ◌+◌, ◌<◌, ◌≡◌, ◌≢◌, refl, ◌∙◌, ◌⊎◌, inl, inr, String, true, false, Option, none,
  some, List, [], ◌∷◌, arith, ==_self, str_eq, get_elem?, Bool-cases, All,
}
use open_mem_db.Schema.{SqlColumn, TableSchema}
use open_mem_db.Result.{err_table_cmd_invalid, manip, success, failure, done, err}
use open_mem_db.Tervel.{Tervel}
use open_mem_db.Store.{DataStore, update, free, get_table_pair}
use open_mem_db.Store.Search.Laws.{Row}
use open_mem_db.Store.Contents.{Shows, get_table_pair_lem, get_table_pair_absent, update_self}
use open_mem_db.Store.Tables.{
  create_table, insert_pair, delete_table, remove_loop, get_column_index, index_loop, index_result,
}

-- A column with the name stands at the index, and none before it.
pub record IsFirst (name : String) (cs : List SqlColumn) (i : ℕ) : Type 0 where
  pub column : SqlColumn
  pub here : get_elem? cs i ≡ some column
  pub named : str_eq column.name name ≡ true
  pub none_before :
      (j : ℕ) (c : SqlColumn) → j < i → get_elem? cs j ≡ some c → str_eq c.name name ≡ false

-- Every column has another name.
abbrev pub Unnamed : String → List SqlColumn → Type 0
Unnamed name cs = All (λ c. str_eq c.name name ≡ false) cs

-- What the loop answers, from the index it starts at.
Answer : String → List SqlColumn → ℕ → Option ℕ → Type 0
Answer name cs start none = Unnamed name cs
Answer name cs start (some i) = (k : ℕ) × (i ≡ start + k) × IsFirst name cs k

before_next :
    (name : String) (c : SqlColumn) (cs : List SqlColumn) (k : ℕ)
    → str_eq c.name name ≡ false
    → IsFirst name cs k
    → (j : ℕ) (d : SqlColumn) → j < suc k
    → get_elem? (c ∷ cs) j ≡ some d
    → str_eq d.name name ≡ false
before_next name c cs k other f zero d below same = ground (arith, same, other)
before_next name c cs k other f (suc j) d below same = f.none_before j d (omega (arith, below)) same

Answer-next :
    (name : String) (c : SqlColumn) (cs : List SqlColumn) (start : ℕ) (a : Option ℕ)
    → str_eq c.name name ≡ false
    → Answer name cs (suc start) a
    → Answer name (c ∷ cs) start a
unfolding Answer
Answer-next name c cs start none other h = (other, h)
Answer-next name c cs start (some i) other (k, e, f) = (
  suc k,
  omega (arith, e),
  record {
    column = f.column;
    here = f.here;
    named = f.named;
    none_before = before_next name c cs k other f;
  },
)

index_loop_lem :
    (name : String) (start : ℕ) (cs : List SqlColumn)
    → Answer name cs start (index_loop name start cs)
unfolding index_loop Answer
index_loop_lem name start [] = tt
index_loop_lem name start (c ∷ cs) = elim (Bool-cases (str_eq c.name name)) [
  | inl e ↦ rw e (
    0,
    omega arith,
    record { column = c; here = refl; named = e; none_before = λ j d h. absurd (omega arith) },
  )
  | inr e ↦ rw e (Answer-next name c cs start _ e (index_loop_lem name (suc start) cs))
]

module _ ⦃t : Tervel⦄ where
  -- The store after createTable, whether the name was taken or not.
  created : DataStore → String → List SqlColumn → DataStore
  created s name columns = record s {
    table_name_mapping = (t.insert s.table_name_mapping (t.hash name) s.next).1;
    pairs = update s.pairs s.next (record {
      table = record { records = t.empty; record_counter = 0 };
      schema = record { columns = columns };
    });
    next = suc s.next;
  }

  -- A table whose name's hash code is not taken is created empty, with the columns given, and
  -- every entry of the mapping under another hash code stays.
  pub create_table_fresh :
      (s : DataStore) (name : String) (c : SqlColumn) (cs : List SqlColumn)
      → t.find s.table_name_mapping (t.hash name) ≡ none
      → (s' : DataStore) × (create_table s (record { table_name = name; columns = c ∷ cs })
          ≡ (manip success done, s'))
        × Shows s' name (record { columns = c ∷ cs }) 0 []
        × ((key : ℕ)
            → key ≢ t.hash name
            → t.find s'.table_name_mapping key ≡ t.find s.table_name_mapping key)
  unfolding create_table insert_pair created
  create_table_fresh s name c cs absent =
      let (inserted, found) = t.insert_new s.table_name_mapping (t.hash name) s.next absent in
      (
        created s name (c ∷ cs),
        rw inserted refl,
        record {
          address = s.next;
          pair = record {
            table = record { records = t.empty; record_counter = 0 };
            schema = record { columns = c ∷ cs };
          };
          mapped = found (t.hash name) ∙ rw ==_self;
          stored = update_self s.pairs s.next _;
          schema_is = refl;
          counter_is = refl;
          holds = record { pointers = t.items-empty; contents = tt };
          distinct = tt;
          in_use = tt;
          address_in_use = omega arith;
        },
        λ key other. found key ∙ ground (arith, other),
      )

  -- A table without columns is refused, and the store stays.
  pub create_table_empty :
      (s : DataStore) (name : String)
      → create_table s (record { table_name = name; columns = [] })
        ≡ (manip failure err_table_cmd_invalid, s)
  unfolding create_table
  create_table_empty s name = refl

  -- A name whose hash code is taken gives a failure, and every mapping, and the object behind every
  -- address in use, stays.
  pub create_table_taken :
      (s : DataStore) (name : String) (c : SqlColumn) (cs : List SqlColumn) (p : ℕ)
      → t.find s.table_name_mapping (t.hash name) ≡ some p
      → (s' : DataStore) × (create_table s (record { table_name = name; columns = c ∷ cs })
          ≡ (manip failure err, s'))
        × ((key : ℕ) → t.find s'.table_name_mapping key ≡ t.find s.table_name_mapping key)
        × ((q : ℕ) → q < s.next → s'.pairs q ≡ s.pairs q)
        × (s'.rows ≡ s.rows)
  unfolding create_table insert_pair created
  create_table_taken s name c cs p taken =
      let (refused, found) = t.insert_taken s.table_name_mapping (t.hash name) s.next p taken in
      (created s name (c ∷ cs), rw refused refl, found, λ q below. ground (arith, below), refl)

  -- One round of the removal loop is enough: the table that was there is gone afterwards, and every
  -- entry of the mapping under another hash code stays.
  pub delete_table_lem :
      (fuel : ℕ) (s : DataStore) (name : String) (schema : TableSchema) (counter : ℕ)
      (rs : List Row)
      → Shows s name schema counter rs
      → (s' : DataStore) × (delete_table (suc fuel) s name ≡ some (manip success done, s'))
        × (get_table_pair s' name ≡ none)
        × ((key : ℕ)
            → key ≢ t.hash name
            → t.find s'.table_name_mapping key ≡ t.find s.table_name_mapping key)
        × (s'.rows ≡ s.rows)
  unfolding delete_table remove_loop
  delete_table_lem fuel s name schema counter rs h =
      let (removed, found) =
        t.remove_present s.table_name_mapping (t.hash name) h.address h.mapped in
      (
        record s {
          table_name_mapping = (t.remove s.table_name_mapping (t.hash name)).1;
          pairs = free s.pairs h.address;
        },
        rw (get_table_pair_lem s name schema counter rs h, delete_table)
            (rw (removed, delete_table)),
        get_table_pair_absent _ name (found (t.hash name) ∙ rw ==_self),
        λ key other. found key ∙ ground (arith, other),
        refl,
      )

  of_Answer :
      (name : String) (cs : List SqlColumn) (found : Option ℕ)
      → Answer name cs 0 found
      → ((i : ℕ) × (index_result found ≡ record { status = success; result = i })
          × IsFirst name cs i)
        ⊎ ((index_result found ≡ record { status = failure; result = 0 }) × Unnamed name cs)
  unfolding Answer index_result
  of_Answer name cs none a = inr (refl, a)
  of_Answer name cs (some i) (k, e, f) = inl (k, ground (arith, e), f)

  -- In a table of the store, getColumnIndex gives the index of the first column with the name, or
  -- fails, and then no column has it.
  pub get_column_index_lem :
      (s : DataStore) (name column_name : String) (schema : TableSchema) (counter : ℕ)
      (rs : List Row)
      → Shows s name schema counter rs
      → ((i : ℕ) × (get_column_index s name column_name ≡ record { status = success; result = i })
          × IsFirst column_name schema.columns i)
        ⊎ ((get_column_index s name column_name ≡ record { status = failure; result = 0 })
            × Unnamed column_name schema.columns)
  unfolding get_column_index
  get_column_index_lem s name column_name schema counter rs h =
      rw (get_table_pair_lem s name schema counter rs h, get_column_index)
        (rw h.schema_is (
          of_Answer column_name schema.columns (index_loop column_name 0 schema.columns)
            (index_loop_lem column_name 0 schema.columns)))
