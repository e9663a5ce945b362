-- ===== src/Tests/Tables.antt =====
-- Tables of the store: creation, removal and the lookup of a column.
use open_mem_db.Prelude.{ℕ, ◌<◌, ◌≡◌, ◌≢◌, refl, none, some, [], ◌∷◌}
use open_mem_db.Result.{manip, success, failure, done, err}
use open_mem_db.Tervel.Listed.{listed, hash, find}
use open_mem_db.Store.{DataStore, get_table_pair}
use open_mem_db.Store.Contents.{Shows}
use open_mem_db.Store.Tables.{create_table, delete_table}
use open_mem_db.Store.Tables.Laws.{create_table_fresh, create_table_taken, delete_table_lem}
use open_mem_db.Tests.{id_column, v_column, schema, rows, store, store-Shows}

create_table_fresh_example :
    (s' : DataStore) × (create_table store
        (record { table_name = "u"; columns = id_column ∷ v_column ∷ [] })
      ≡ (manip success done, s'))
    × Shows s' "u" schema 0 []
    × ((key : ℕ)
        → key ≢ hash "u"
        → find s'.table_name_mapping key ≡ find store.table_name_mapping key)
create_table_fresh_example = create_table_fresh store "u" id_column (v_column ∷ []) refl

create_table_taken_example :
    (s' : DataStore) × (create_table store (record { table_name = "t"; columns = v_column ∷ [] })
      ≡ (manip failure err, s'))
    × ((key : ℕ) → find s'.table_name_mapping key ≡ find store.table_name_mapping key)
    × ((q : ℕ) → q < 4 → s'.pairs q ≡ store.pairs q)
    × (s'.rows ≡ store.rows)
create_table_taken_example = create_table_taken store "t" v_column [] 1 refl

delete_table_lem_example :
    (s' : DataStore) × (delete_table 1 store "t" ≡ some (manip success done, s'))
    × (get_table_pair s' "t" ≡ none)
    × ((key : ℕ)
        → key ≢ hash "t"
        → find s'.table_name_mapping key ≡ find store.table_name_mapping key)
    × (s'.rows ≡ store.rows)
delete_table_lem_example = delete_table_lem 0 store "t" schema 2 rows store-Shows
