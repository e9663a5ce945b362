-- ===== src/Store/Change/Delete.antt =====
-- deleteRecords on a table of distinct rows: the matching rows go, the others keep their order.
use open_mem_db.Prelude.{
  ℕ, suc, String, ◌+◌, ◌^◌, ◌<◌, ◌≡◌, refl, sym, ap, ◌∙◌, inl, inr, Bool, not, ◌||◌, some, List, [],
  ◌∷◌, ◌++◌, map, append_assoc, arith, if◌then◌else◌, length, length-append, get_elem?,
  get_elem?-append_middle, set-append_middle, erase_idx-append_middle, filter_by,
  length-filter_by-le, Bool-cases, All,
}
use open_mem_db.Tervel.{Tervel}
use open_mem_db.Schema.{TableSchema}
use open_mem_db.Predicate.{ValuePredicate, value}
use open_mem_db.Store.{DataStore}
use open_mem_db.Store.Search.Laws.{Row, ptrs, ref, matches, IsWide, search_table_for_refs_lem}
use open_mem_db.Store.Change.{
  Work, slot_loop, ref_loop, delete_slot, start, delete_records, change_table_lem, find_refs,
  finish,
}
use open_mem_db.Store.Change.Finish.{affected, finish_result, finish-Shows}
use open_mem_db.Store.Contents.{
  Shows, get_table_pair_lem, All-filter_by, Distinct-filter_by, Below-filter_by,
}
use open_mem_db.Store.Change.Loop.{
  Distinct, Distinct-middle, Fresh-left, slot_loop-Fresh, slot_loop_hit,
}

module _ ⦃t : Tervel⦄ where
  -- The work after deletions: these pointers are left, and so many rows went without contention.
  pub record Deleted (w w' : Work) (left : List ℕ) (gone : ℕ) : Type 0 where
    pub left_over : t.items w'.records ≡ left
    pub same_rows : w'.rows ≡ w.rows
    pub same_next : w'.next ≡ w.next
    pub no_contention : w'.some_contention ≡ w.some_contention
    pub counted : w'.num_affected ≡ w.num_affected + gone

  delete_slot_lem :
      (ptr : ℕ) (pre post : List ℕ) (w : Work)
      → t.items w.records ≡ pre ++ ptr ∷ post
      → (w' : Work) × (delete_slot ptr (length pre) w ≡ some w') × Deleted w w' (pre ++ post) 1
  unfolding delete_slot
  delete_slot_lem ptr pre post w e =
      let there : get_elem? (t.items w.records) (length pre) ≡ some ptr =
        rw e (get_elem?-append_middle pre ptr post) in
      let (swapped, nulled) = t.cas_hit w.records (length pre) ptr 0 there in
      let v = (t.cas w.records (length pre) ptr 0).1 in
      let its : t.items v ≡ pre ++ 0 ∷ post = nulled ∙ rw e (set-append_middle pre ptr 0 post) in
      let (erased, rest) =
        t.erase_at_lem v (length pre) (rw its (omega (arith, length-append pre (0 ∷ post)))) in
      (
        record w {
          records = (t.erase_at v (length pre)).1;
          some_contention =
              w.some_contention
              || not (t.cas w.records (length pre) ptr 0).0
              || not (t.erase_at v (length pre)).0;
          num_affected =
              if (t.cas w.records (length pre) ptr 0).0 then suc w.num_affected else w.num_affected;
        },
        refl,
        record {
          left_over = rest ∙ rw its (erase_idx-append_middle pre 0 post);
          same_rows = refl;
          same_next = refl;
          no_contention = ground (arith, swapped, erased);
          counted = ground (arith, swapped);
        },
      )

  delete_one :
      (ptr : ℕ) (pre post : List ℕ) (w : Work)
      → t.items w.records ≡ pre ++ ptr ∷ post
      → Distinct (pre ++ ptr ∷ post)
      → (w' : Work) × (slot_loop delete_slot ptr (t.size w.records) 0 w ≡ some w')
        × Deleted w w' (pre ++ post) 1
  delete_one ptr pre post w e d =
      let (fresh, _) = Distinct-middle ptr pre post d in
      let (w', ran, del) = delete_slot_lem ptr pre post w e in
      (
        w',
        slot_loop_hit delete_slot ptr pre post w w' e (Fresh-left ptr pre post fresh) ran
            ∙ slot_loop-Fresh delete_slot ptr (length post) (suc (length pre)) w'
                (rw (del.left_over) fresh),
        del,
      )

  -- The references of the matching rows, in table order: each deletes its own row. `kept` are the
  -- rows that the references have passed.
  pub delete_refs :
      (m : Row → Bool) (rs : List Row) (kept : List ℕ) (w : Work)
      → t.items w.records ≡ kept ++ ptrs rs
      → Distinct (kept ++ ptrs rs)
      → (w' : Work) × (ref_loop delete_slot (map ref (filter_by m rs)) w ≡ some w')
        × Deleted w w' (kept ++ ptrs (filter_by (λ r. not (m r)) rs)) (length (filter_by m rs))
  unfolding ref_loop
  delete_refs m [] kept w e d = (
    w,
    refl,
    record {
      left_over = e;
      same_rows = refl;
      same_next = refl;
      no_contention = refl;
      counted = omega arith;
    },
  )
  delete_refs m (r ∷ rs) kept w e d = elim (Bool-cases (m r)) [
    | inl yes_m ↦
        let (w1, one, d1) = delete_one r.ptr kept (ptrs rs) w e d in
        let (w2, more, d2) =
          delete_refs m rs kept w1 d1.left_over (Distinct-middle r.ptr kept (ptrs rs) d).1 in
        (
          w2,
          rw yes_m (rw (one, ref_loop) more),
          rw yes_m (record {
            left_over = d2.left_over;
            same_rows = d2.same_rows ∙ d1.same_rows;
            same_next = d2.same_next ∙ d1.same_next;
            no_contention = d2.no_contention ∙ d1.no_contention;
            counted = omega (arith, d1.counted, d2.counted);
          }),
        )
    | inr no_m ↦
        let (w2, more, d2) =
          delete_refs m rs (kept ++ r.ptr ∷ []) w
            (e ∙ sym (append_assoc kept (r.ptr ∷ []) (ptrs rs))) (rw append_assoc d) in
        (
          w2,
          rw no_m more,
          record {
            left_over =
                d2.left_over
                ∙ rw no_m (append_assoc kept (r.ptr ∷ []) (ptrs (filter_by (λ r'. not (m r')) rs)));
            same_rows = d2.same_rows;
            same_next = d2.same_next;
            no_contention = d2.no_contention;
            counted = rw no_m d2.counted;
          },
        )
  ]

  -- On a table that the predicate's column fits, deletion with a value predicate succeeds, never
  -- reports contention, counts the matching rows, and leaves exactly the others, in order.
  pub delete_records_lem :
      (s : DataStore) (name : String) (schema : TableSchema) (counter : ℕ) (rs : List Row)
      (pred : ValuePredicate)
      → Shows s name schema counter rs
      → All (IsWide pred) rs
      → length rs < 2 ^ 32
      → (s' : DataStore) × (delete_records s (value pred) name
          ≡ some (affected (length (filter_by (matches pred) rs)), s'))
        × Shows s' name schema counter (filter_by (λ r. not (matches pred r)) rs)
  unfolding delete_records find_refs
  delete_records_lem s name schema counter rs pred h wide few =
      let gone = filter_by (matches pred) rs in
      let stay = filter_by (λ r. not (matches pred r)) rs in
      let (w, ran, d) =
        delete_refs (matches pred) rs [] (start s h.pair) h.holds.pointers h.distinct in
      (
        (finish s h.address h.pair w).1,
        change_table_lem delete_slot s (value pred) name h.address h.pair (map ref gone) w
              (get_table_pair_lem s name schema counter rs h)
              (search_table_for_refs_lem s.rows h.pair.table.records rs pred h.holds wide) ran
            ∙ ap some (
                finish_result s h.address h.pair w (length gone) d.no_contention
                  (omega (arith, d.counted))
                  (omega (arith, length-filter_by-le (matches pred) rs))),
        finish-Shows s name schema counter rs stay w h
            (record {
              pointers = d.left_over;
              contents =
                  rw d.same_rows (All-filter_by _ (λ r. not (matches pred r)) rs h.holds.contents);
            })
            (Distinct-filter_by (λ r. not (matches pred r)) rs h.distinct)
            (rw d.same_next (Below-filter_by s.next (λ r. not (matches pred r)) rs h.in_use))
            (omega (arith, d.same_next)),
      )
