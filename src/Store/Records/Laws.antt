-- ===== src/Store/Records/Laws.antt =====
-- What the record functions do, over the contents of the vectors.
use open_mem_db.Prelude.{
  ℕ, ◌/◌, ◌%◌, ◌^◌, ◌<◌, ◌≤◌, ◌≡◌, refl, ap, sym, ◌∙◌, some, List, [], ◌∷◌, ◌++◌, map, append-nil,
  append_assoc, arith, if◌then◌else◌, get_elem?, length, length-snoc, get_elem?-append_middle, All,
  All-map,
}
use open_mem_db.Types.{TervelData, Fits, pack, unpack, zeroed}
use open_mem_db.Types.Layout.{unpack-pack, unpack-pack_cleared}
use open_mem_db.Result.{RecordData}
use open_mem_db.Tervel.{Tervel}
use open_mem_db.Store.Records.{
  RecordCopy, split_back, record_copy, clear_status, copy_loop, copy_record, push_all, update_loop,
  update_record, new_record,
}

-- The cells that a reader sees in a list of words.
abbrev pub read : List ℕ → RecordData
read ws = map (λ w. clear_status (unpack w)) ws

pub split_back_snoc {ℓ} :
    {A : Type ℓ} (x : A) (xs : List A) (y : A) → split_back x (xs ++ y ∷ []) ≡ (x ∷ xs, y)
split_back_snoc x [] y = refl
split_back_snoc x (z ∷ xs) y = rw (split_back_snoc z xs y)

pub record_copy_snoc :
    (cells : RecordData) (last : TervelData)
    → record_copy (cells ++ last ∷ []) ≡ some (record { id = last.data_value; data_cells = cells })
unfolding record_copy
record_copy_snoc [] last = refl
record_copy_snoc (x ∷ xs) last = rw (split_back_snoc x xs last)

-- A cell of an updated record: a null in the new record keeps the old cell.
abbrev pub pick : TervelData → TervelData → TervelData
pick old new = if new.null then clear_status old else clear_status new

abbrev pub merge : RecordData → RecordData → RecordData
merge [] news = []
merge (o ∷ os) [] = []
merge (o ∷ os) (n ∷ news) = pick o n ∷ merge os news

-- A cell that goes into a record as it is: within its widths, and with Tervel's bits clear.
pub record Storable (d : TervelData) : Type 0 where
  pub fits : Fits d
  pub clear : d.tervel_status ≡ 0

pub Storable-Fits : (ds : RecordData) → All Storable ds → All Fits ds
Storable-Fits ds h = All-map (λ d (s : Storable d). s.fits) ds h

-- Tervel's bits are clear in a word.
abbrev Clear : ℕ → Type 0
Clear w = w % 8 ≡ 0

pack-Clear : (d : TervelData) → d.tervel_status ≡ 0 → Clear (pack d)
unfolding pack
pack-Clear d h = omega (arith, h)

-- The words that updateRecord pushes.
abbrev merge_words : RecordData → RecordData → List ℕ
merge_words [] news = []
merge_words (o ∷ os) [] = []
merge_words (o ∷ os) (n ∷ news) =
    (if n.null then pack (clear_status o) else pack n) ∷ merge_words os news

clear_status-Fits : (d : TervelData) → Fits d → Fits (clear_status d)
clear_status-Fits d f = omega arith

read_cell :
    (o n : TervelData)
    → Fits o
    → Fits n
    → clear_status (unpack (if n.null then pack (clear_status o) else pack n)) ≡ pick o n
read_cell o n fo fn =
    ground (arith, unpack-pack (clear_status o) (clear_status-Fits o fo), unpack-pack_cleared n fn)

read-merge_words :
    (old new : RecordData)
    → All Fits old
    → All Fits new
    → read (merge_words old new) ≡ merge old new
read-merge_words [] new fo fn = refl
read-merge_words (o ∷ os) [] fo fn = refl
read-merge_words (o ∷ os) (n ∷ news) fo fn =
    cc (read_cell o n fo.0 fn.0, read-merge_words os news fo.1 fn.1)

read-map-pack :
    (row : RecordData)
    → All Fits row
    → read (map (λ d. pack (clear_status d)) row) ≡ map clear_status row
read-map-pack [] f = refl
read-map-pack (d ∷ row) f =
    let cell = unpack-pack (clear_status d) (clear_status-Fits d f.0) in
    cc (cell, read-map-pack row f.1)

cleared-Clear : (row : RecordData) → All Clear (map (λ d. pack (clear_status d)) row)
cleared-Clear [] = tt
cleared-Clear (d ∷ row) = (pack-Clear (clear_status d) refl, cleared-Clear row)

counter-Clear : (c : ℕ) → Clear (pack (record zeroed { data_value = c % 2 ^ 57 }))
counter-Clear c = pack-Clear (record zeroed { data_value = c % 2 ^ 57 }) refl

-- A word of an updated record
word-Clear :
    (o n : TervelData) → Storable n → Clear (if n.null then pack (clear_status o) else pack n)
word-Clear o n s = ground (arith, pack-Clear (clear_status o) refl, pack-Clear n s.clear)

pub read-snoc :
    (ws : List ℕ) (w : ℕ) → read (ws ++ w ∷ []) ≡ read ws ++ clear_status (unpack w) ∷ []
read-snoc [] w = refl
read-snoc (v ∷ ws) w = ap (◌∷◌ (clear_status (unpack v))) (read-snoc ws w)

-- What a plain word, not laid out as a cell, reads as.
id-read : (id : ℕ) → id < 2 ^ 57 → (unpack id).data_value ≡ id / 128
unfolding unpack
id-read id h = omega arith

id-read_counter :
    (c : ℕ) → (unpack (pack (record zeroed { data_value = c % 2 ^ 57 }))).data_value ≡ c % 2 ^ 57
unfolding unpack pack
id-read_counter c = omega arith

module _ ⦃t : Tervel⦄ where
  copy_loop_lem :
      (rec : t.Vec) (pre post : List ℕ) (copy : RecordData)
      → t.items rec ≡ pre ++ post
      → copy_loop (length post) (length pre) rec copy ≡ some (copy ++ read post)
  unfolding copy_loop
  copy_loop_lem rec pre [] copy e = rw append-nil
  copy_loop_lem rec pre (w ∷ post) copy e =
      let here : t.at rec (length pre) ≡ some w =
        rw (t.at-items, e) (get_elem?-append_middle pre w post) in
      let rest =
        copy_loop_lem rec (pre ++ w ∷ []) post (copy ++ clear_status (unpack w) ∷ [])
          (e ∙ sym (append_assoc pre (w ∷ []) post)) in
      rw (here, copy_loop) (rw (length-snoc, append_assoc) at rest)

  pub copy_record_lem : (rec : t.Vec) → copy_record rec ≡ record_copy (read (t.items rec))
  unfolding copy_record
  copy_record_lem rec =
      rw (t.size-items, copy_record) (rw (copy_loop_lem rec [] (t.items rec) [] refl, copy_record))

  push_all_lem :
      (rec : t.Vec) (ws : List ℕ) → All Clear ws → t.items (push_all rec ws) ≡ t.items rec ++ ws
  unfolding push_all
  push_all_lem rec [] c = rw append-nil
  push_all_lem rec (w ∷ ws) c =
      push_all_lem (t.push_word rec w) ws c.1 ∙ rw (t.items-push_word rec w c.0, append_assoc)

  -- The record that an insertion builds reads back as the row, its status bits cleared, under
  -- the counter's low 57 bits.
  pub copy-new_record :
      (row : RecordData) (counter : ℕ)
      → All Fits row
      → copy_record (new_record row counter)
        ≡ some (record { id = counter % 2 ^ 57; data_cells = map clear_status row })
  unfolding new_record
  copy-new_record row counter f =
      rw
        (
          copy_record_lem,
          t.items-push_word _ _ (counter-Clear counter),
          push_all_lem t.empty (map (λ d. pack (clear_status d)) row) (cleared-Clear row),
          t.items-empty,
        )
        (ap record_copy (read-snoc (map (λ d. pack (clear_status d)) row) _)
          ∙ record_copy_snoc (read (map (λ d. pack (clear_status d)) row)) _
          ∙ cc (id-read_counter counter, read-map-pack row f))

  update_loop_lem :
      (old : RecordCopy) (pre post news : RecordData) (rec : t.Vec)
      → old.data_cells ≡ pre ++ post
      → length news ≤ length post
      → All Storable news
      → (rec' : t.Vec) × (update_loop (length pre) old news rec ≡ some rec')
        × (t.items rec' ≡ t.items rec ++ merge_words post news)
  unfolding update_loop
  update_loop_lem old pre [] [] rec e h c = (rec, refl, rw append-nil)
  update_loop_lem old pre (o ∷ post) [] rec e h c = (rec, refl, rw append-nil)
  update_loop_lem old pre [] (n ∷ news) rec e h c = absurd (omega arith)
  update_loop_lem old pre (o ∷ post) (n ∷ news) rec e h c =
      let w : ℕ = if n.null then pack (clear_status o) else pack n in
      let here : get_elem? old.data_cells (length pre) ≡ some o =
        rw e (get_elem?-append_middle pre o post) in
      let (rec', ran, its) =
        update_loop_lem old (pre ++ o ∷ []) post news (t.push_word rec w)
          (e ∙ sym (append_assoc pre (o ∷ []) post)) (omega arith) c.1 in
      (
        rec',
        rw (here, update_loop) (rw length-snoc at ran),
        its ∙ rw (t.items-push_word rec w (word-Clear o n c.0), append_assoc),
      )

  -- An update does not fail on a new record that is no longer than the old one, both within their
  -- widths and the new one with Tervel's three bits clear, where the identifier is a multiple of 8.
  -- The updated record reads back with every null of the new record replaced by the old cell, but its
  -- identifier, stored as a plain word, reads back divided by 128.
  pub copy-update_record :
      (old : RecordCopy) (new : RecordData)
      → length new ≤ length old.data_cells
      → All Fits old.data_cells
      → All Storable new
      → old.id < 2 ^ 57
      → old.id % 8 ≡ 0
      → (rec : t.Vec) × (update_record old new ≡ some rec)
        × (copy_record rec
            ≡ some (record { id = old.id / 128; data_cells = merge old.data_cells new }))
  unfolding update_record
  copy-update_record old new len fo fn small clear =
      let (rec', ran, its) = update_loop_lem old [] old.data_cells new t.empty refl len fn in
      (
        t.push_word rec' old.id,
        rw (ran, update_record),
        rw (copy_record_lem, t.items-push_word rec' old.id clear, its, t.items-empty)
            (ap record_copy (read-snoc (merge_words old.data_cells new) old.id)
              ∙ record_copy_snoc (read (merge_words old.data_cells new)) _
              ∙ cc (
                id-read old.id small,
                read-merge_words old.data_cells new fo (Storable-Fits new fn),
              )),
      )
