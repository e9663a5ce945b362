-- ===== src/Store/Records.antt =====
-- Rows of a table: reading one through its accessor, copying it out of its record and making an
-- updated record (VectorAccessor::init of data/accessor.h, RecordCopy of data/types.h, copyRecord
-- and updateRecord). `none` is an exception or a loop that never ends.
pub mod Laws
use open_mem_db.Prelude.{
  ℕ, zero, suc, ◌+◌, ◌*◌, ◌%◌, ◌^◌, ◌==◌, Option, none, some, List, [], ◌∷◌, ◌++◌, map,
  if◌then◌else◌, get_elem?,
}
use open_mem_db.Types.{TervelData, pack, unpack, zeroed}
use open_mem_db.Result.{RecordData}
use open_mem_db.Tervel.{Tervel}

-- struct RecordCopy
pub record RecordCopy : Type 0 where
  pub id : ℕ
  pub data_cells : RecordData

-- data.pop_back() and data.back()
abbrev pub split_back {ℓ} : {A : Type ℓ} → A → List A → List A × A
split_back x [] = ([], x)
split_back x (y ∷ ys) = let (front, last) = split_back y ys in (x ∷ front, last)

-- RecordCopy(data): undefined for no data
unfoldable pub record_copy : RecordData → Option RecordCopy
record_copy [] = none
record_copy (x ∷ xs) =
    let (front, last) = split_back x xs in
    some (record { id = last.data_value; data_cells = front })

-- A word read back, with Tervel's status bits cleared.
abbrev pub clear_status : TervelData → TervelData
clear_status d = record d { tervel_status = 0 }

module _ ⦃t : Tervel⦄ where
  -- The loop of copyRecord: `while(!record->at(i, …)) {}` does not end where `at` fails.
  copy_loop : ℕ → ℕ → t.Vec → RecordData → Option RecordData
  copy_loop zero i rec copy = some copy
  copy_loop (suc n) i rec copy = elim (t.at rec i) [
    | none ↦ none
    | some w ↦ copy_loop n (suc i) rec (copy ++ clear_status (unpack w) ∷ [])
  ]

  -- copyRecord(Record*), for a pointer that is not null
  unfoldable pub copy_record : t.Vec → Option RecordCopy
  unfolding copy_loop record_copy
  copy_record rec = elim (copy_loop (t.size rec) 0 rec []) [
    | none ↦ none
    | some copy ↦ record_copy copy
  ]

  -- The loop that fills a record that is not shared yet.
  push_all : t.Vec → List ℕ → t.Vec
  push_all rec [] = rec
  push_all rec (w ∷ ws) = push_all (t.push_word rec w) ws

  -- The loop of updateRecord: `.at(idx)` throws past the end of the old record.
  update_loop : ℕ → RecordCopy → RecordData → t.Vec → Option t.Vec
  update_loop idx old [] rec = some rec
  update_loop idx old (new ∷ news) rec = elim (get_elem? old.data_cells idx) [
    | none ↦ none
    | some cell ↦
        update_loop (suc idx) old news
          (t.push_word rec (if new.null then pack (clear_status cell) else pack new))
  ]

  -- updateRecord: the identifier goes in as the plain word `old_record.id`.
  unfoldable pub update_record : RecordCopy → RecordData → Option t.Vec
  unfolding update_loop
  update_record old new = elim (update_loop 0 old new t.empty) [
    | none ↦ none
    | some rec ↦ some (t.push_word rec old.id)
  ]

  -- The record that insertRecord builds: the cells with clear status bits, then the counter.
  unfoldable pub new_record : RecordData → ℕ → t.Vec
  unfolding push_all
  new_record row counter =
      t.push_word (push_all t.empty (map (λ d. pack (clear_status d)) row))
        (pack (record zeroed { data_value = counter % 2 ^ 57 }))
