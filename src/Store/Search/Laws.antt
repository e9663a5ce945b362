-- ===== src/Store/Search/Laws.antt =====
-- The scan of a table is a filter of its rows.
use open_mem_db.Prelude.{
  ℕ, ◌<◌, ◌≡◌, refl, sym, ap, ◌∙◌, inl, inr, Bool, false, Option, none, some, List, [], ◌∷◌, ◌++◌,
  map, append-nil, append_assoc, arith, if◌then◌else◌, length, length-snoc, length-map,
  get_elem?_below, get_elem?, get_elem?-append_middle, All, All-map, filter_by, Bool-cases,
}
use open_mem_db.Types.{TervelData}
use open_mem_db.Predicate.{ValuePredicate}
use open_mem_db.Tervel.{Tervel}
use open_mem_db.Store.{Heap}
use open_mem_db.Store.Records.{RecordCopy, copy_record}
use open_mem_db.Store.Search.{
  RecordReference, Visit, skip, abandon, collect, satisfies, visit_copy, visit_ref, access,
  scan_step, scan_loop, scan, search_table, search_table_for_refs,
}

-- A row of a table as its readers see it: the pointer and the copy.
pub record Row : Type 0 where
  pub ptr : ℕ
  pub rec : RecordCopy

abbrev pub ptrs : List Row → List ℕ
ptrs rs = map (λ r. r.ptr) rs

abbrev pub recs : List Row → List RecordCopy
recs rs = map (λ r. r.rec) rs

-- The cell of a row that a predicate looks at passes its test.
abbrev pub cell_matches : ValuePredicate → Option TervelData → Bool
cell_matches pred none = false
cell_matches pred (some cell) = satisfies pred cell

abbrev pub matches : ValuePredicate → Row → Bool
matches pred r = cell_matches pred (get_elem? r.rec.data_cells pred.column.column_idx)

-- The row has a cell in the predicate's column.
abbrev pub IsWide : ValuePredicate → Row → Type 0
IsWide pred r = pred.column.column_idx < length r.rec.data_cells

-- The scan over a list of rows.
abbrev step_list {ℓ} : {A : Type ℓ} → Visit A → List A → (List A → List A) → List A
step_list skip found go = go found
step_list abandon found go = []
step_list (collect a) found go = go (found ++ a ∷ [])

pub scan_list {ℓ} : {A : Type ℓ} → (ℕ → RecordCopy → Visit A) → List Row → List A → List A
scan_list visit [] found = found
scan_list visit (r ∷ rs) found =
    step_list (visit r.ptr r.rec) found (λ found'. scan_list visit rs found')

pub scan_list_filter {ℓ} :
    {A : Type ℓ} (visit : ℕ → RecordCopy → Visit A) (m : Row → Bool) (pick : Row → A)
    (rs : List Row) (found : List A)
    → All (λ r. visit r.ptr r.rec ≡ (if m r then collect (pick r) else skip)) rs
    → scan_list visit rs found ≡ found ++ map pick (filter_by m rs)
unfolding scan_list
scan_list_filter visit m pick [] found h = rw append-nil
scan_list_filter visit m pick (r ∷ rs) found h = elim (Bool-cases (m r)) [
  | inl e ↦
      rw (h.0, e) (scan_list_filter visit m pick rs (found ++ pick r ∷ []) h.1 ∙ rw append_assoc)
  | inr e ↦ rw (h.0, e) (scan_list_filter visit m pick rs found h.1)
]

visit_copy_lem :
    (pred : ValuePredicate) (r : Row)
    → IsWide pred r
    → visit_copy pred r.ptr r.rec ≡ (if matches pred r then collect r.rec else skip)
unfolding visit_copy
visit_copy_lem pred r w =
    let (c, e) = get_elem?_below r.rec.data_cells pred.column.column_idx w in ground (arith, e)

abbrev pub ref : Row → RecordReference
ref r = record { id = r.rec.id; ptr = r.ptr }

visit_ref_lem :
    (pred : ValuePredicate) (r : Row)
    → IsWide pred r
    → visit_ref pred r.ptr r.rec ≡ (if matches pred r then collect (ref r) else skip)
unfolding visit_ref
visit_ref_lem pred r w =
    let (c, e) = get_elem?_below r.rec.data_cells pred.column.column_idx w in ground (arith, e)

module _ ⦃t : Tervel⦄ where
  -- What a pointer's record copies to.
  abbrev pub copy_at : Heap t.Vec → ℕ → Option RecordCopy
  copy_at rows p = elim (rows p) [ none ↦ none | some rec ↦ copy_record rec ]

  -- The table holds these rows, in this order.
  pub record Holds (rows : Heap t.Vec) (table : t.Vec) (rs : List Row) : Type 0 where
    pub pointers : t.items table ≡ ptrs rs
    pub contents : All (λ r. copy_at rows r.ptr ≡ some r.rec) rs

  access_lem :
      (rows : Heap t.Vec) (table : t.Vec) (idx : ℕ) (r : Row)
      → t.at table idx ≡ some r.ptr
      → copy_at rows r.ptr ≡ some r.rec
      → access rows table idx ≡ some (r.ptr, some r.rec)
  unfolding access
  access_lem rows table idx r e c = ground arith

  scan_step_lem {ℓ} :
      {A : Type ℓ} (v : Visit A) (found : List A) (go : List A → Option (List A))
      (spec : List A → List A)
      → ((l : List A) → go l ≡ some (spec l))
      → scan_step v found go ≡ some (step_list v found spec)
  unfolding scan_step
  scan_step_lem skip found go spec h = h found
  scan_step_lem abandon found go spec h = refl
  scan_step_lem (collect a) found go spec h = h (found ++ a ∷ [])

  scan_loop_lem {ℓ} :
      {A : Type ℓ} (visit : ℕ → RecordCopy → Visit A) (rows : Heap t.Vec) (table : t.Vec)
      (pre : List ℕ) (post : List Row) (found : List A)
      → t.items table ≡ pre ++ ptrs post
      → All (λ r. copy_at rows r.ptr ≡ some r.rec) post
      → scan_loop visit rows table (length post) (length pre) found
        ≡ some (scan_list visit post found)
  unfolding scan_loop scan_list
  scan_loop_lem visit rows table pre [] found e c = refl
  scan_loop_lem visit rows table pre (r ∷ post) found e c =
      let here : t.at table (length pre) ≡ some r.ptr =
        rw (t.at-items, e) (get_elem?-append_middle pre r.ptr (ptrs post)) in
      rw (access_lem rows table (length pre) r here c.0, scan_loop)
        (scan_step_lem (visit r.ptr r.rec) found _ (scan_list visit post) λ l. rw length-snoc at (
          scan_loop_lem visit rows table (pre ++ r.ptr ∷ []) post l
            (e ∙ sym (append_assoc pre (r.ptr ∷ []) (ptrs post))) c.1))

  pub scan_lem {ℓ} :
      {A : Type ℓ} (visit : ℕ → RecordCopy → Visit A) (rows : Heap t.Vec) (table : t.Vec)
      (rs : List Row)
      → Holds rows table rs
      → scan visit rows table ≡ some (scan_list visit rs [])
  unfolding scan
  scan_lem visit rows table rs h =
      rw (t.size-items, h.pointers, length-map)
        (scan_loop_lem visit rows table [] rs [] h.pointers h.contents)

  module _ (rows : Heap t.Vec) (table : t.Vec) (rs : List Row) (pred : ValuePredicate)
      (h : Holds rows table rs) (wide : All (IsWide pred) rs) where
    -- On a table whose rows all reach the predicate's column, the search returns the copies of the
    -- matching rows in table order.
    pub search_table_lem : search_table rows table pred ≡ some (recs (filter_by (matches pred) rs))
    unfolding search_table
    search_table_lem =
        scan_lem (visit_copy pred) rows table rs h
        ∙ ap some (
            scan_list_filter (visit_copy pred) (matches pred) (λ r. r.rec) rs []
              (All-map (visit_copy_lem pred) rs wide))

    -- The same for the references.
    pub search_table_for_refs_lem :
        search_table_for_refs rows table pred ≡ some (map ref (filter_by (matches pred) rs))
    unfolding search_table_for_refs
    search_table_for_refs_lem =
        scan_lem (visit_ref pred) rows table rs h
        ∙ ap some (
            scan_list_filter (visit_ref pred) (matches pred) ref rs []
              (All-map (visit_ref_lem pred) rs wide))
