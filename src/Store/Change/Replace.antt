-- ===== src/Store/Change/Replace.antt =====
-- One row of updateRecords: the new record takes the place of the old one in its slot.
use open_mem_db.Prelude.{
  ℕ, suc, ◌+◌, ◌/◌, ◌%◌, ◌^◌, ◌<◌, ◌≤◌, ◌≡◌, ◌≢◌, sym, ◌∙◌, inl, inr, Bool, not, ◌||◌, some, List,
  [], ◌∷◌, ◌++◌, arith, if◌then◌else◌, length, get_elem?, get_elem?-append_middle,
  set-append_middle, Option-cases, All,
}
use mathlib.Core.List.{map-append}
use open_mem_db.Types.{Fits}
use open_mem_db.Tervel.{Tervel}
use open_mem_db.Result.{RecordData}
use open_mem_db.Store.{Heap, update}
use open_mem_db.Store.Records.{RecordCopy, copy_record}
use open_mem_db.Store.Records.Laws.{Storable, merge, copy-update_record}
use open_mem_db.Store.Search.Laws.{Row, ptrs, Holds, copy_at}
use open_mem_db.Store.Change.{Work, slot_loop, update_slot}
use open_mem_db.Store.Change.Loop.{
  Fresh, Distinct, Distinct-middle, Fresh-left, slot_loop-Fresh, slot_loop_hit,
}
use open_mem_db.Store.Contents.{Below, Below-suc, Fresh-of_Below}
use open_mem_db.Store.Insert.Laws.{contents_update, copy_at_new}

-- The update fits the row: it has no more cells, the row's numbers are within their widths, and
-- Tervel's bits are clear in the row's identifier.
pub record IsUpdatable (new : RecordData) (r : Row) : Type 0 where
  pub short : length new ≤ length r.rec.data_cells
  pub cells_fit : All Fits r.rec.data_cells
  pub id_fits : r.rec.id < 2 ^ 57
  pub id_clear : r.rec.id % 8 ≡ 0

-- A row after its update, under its new address. The identifier reads back divided by 128.
abbrev pub updated : ℕ → RecordData → Row → Row
updated ptr new r = record {
  ptr = ptr;
  rec = record { id = r.rec.id / 128; data_cells = merge r.rec.data_cells new };
}

-- The rows after the update of the matching ones, which take the addresses from `next`.
abbrev pub update_rows : ℕ → (Row → Bool) → RecordData → List Row → List Row
update_rows next m new [] = []
update_rows next m new (r ∷ rs) =
    if m r
    then updated next new r ∷ update_rows (suc next) m new rs
    else r ∷ update_rows next m new rs

module _ {ℓ κ} {A : Type ℓ} (P : A → Type κ) where
  All-replace :
      (pre : List A) (a b : A) (post : List A)
      → P b
      → All P (pre ++ a ∷ post)
      → All P (pre ++ b ∷ post)
  All-replace [] a b post p h = (p, h.1)
  All-replace (x ∷ pre) a b post p h = (h.0, All-replace pre a b post p h.1)

  All-middle : (pre : List A) (a : A) (post : List A) → All P (pre ++ a ∷ post) → P a
  All-middle [] a post h = h.0
  All-middle (x ∷ pre) a post h = All-middle pre a post h.1

Distinct-replace :
    (pre : List ℕ) (a b : ℕ) (post : List ℕ)
    → Fresh b (pre ++ a ∷ post)
    → Distinct (pre ++ a ∷ post)
    → Distinct (pre ++ b ∷ post)
Distinct-replace [] a b post f d = (f.1, d.1)
Distinct-replace (x ∷ pre) a b post f d = (
  All-replace (λ y. y ≢ x) pre a b post (λ e. f.0 (sym e)) d.0,
  Distinct-replace pre a b post f.1 d.1,
)

Fresh-insert :
    (p : ℕ) (pre : List ℕ) (b : ℕ) (post : List ℕ)
    → b ≢ p
    → Fresh p (pre ++ post)
    → Fresh p (pre ++ b ∷ post)
Fresh-insert p [] b post n f = (n, f)
Fresh-insert p (x ∷ pre) b post n f = (f.0, Fresh-insert p pre b post n f.1)

module _ ⦃t : Tervel⦄ where
  row_there :
      (rows : Heap t.Vec) (p : ℕ) (c : RecordCopy)
      → copy_at rows p ≡ some c
      → (rec : t.Vec) × (rows p ≡ some rec) × (copy_record rec ≡ some c)
  row_there rows p c e = elim (Option-cases (rows p)) [
    | inl gone ↦ absurd (ground (arith, gone, e))
    | inr (rec, there) ↦ (rec, there, rw (there, copy_at) at e)
  ]

  -- The work's table holds these rows.
  pub record Carries (w : Work) (rs : List Row) : Type 0 where
    pub holds : Holds w.rows w.records rs
    pub distinct : Distinct (ptrs rs)
    pub in_use : Below w.next (ptrs rs)

  -- The work after `n` more rows were updated.
  pub record Advanced (w w' : Work) (rs : List Row) (n : ℕ) : Type 0 where
    pub carries : Carries w' rs
    pub addresses : w'.next ≡ w.next + n
    pub no_contention : w'.some_contention ≡ w.some_contention
    pub counted : w'.num_affected ≡ w.num_affected + n

  module _ (new : RecordData) (new_fits : All Storable new) (kept : List Row) (r : Row)
      (rs : List Row) (w : Work) (c : Carries w (kept ++ r ∷ rs)) (fit : IsUpdatable new r) where
    split_ptrs : (r' : Row) → ptrs (kept ++ r' ∷ rs) ≡ ptrs kept ++ r'.ptr ∷ ptrs rs
    split_ptrs r' = map-append (λ x. x.ptr) kept (r' ∷ rs)

    swapped_in :
        (rec : t.Vec)
        → copy_record rec ≡ some (updated w.next new r).rec
        → (v : t.Vec) → t.items v ≡ ptrs kept ++ w.next ∷ ptrs rs
        → (cont : Bool) (count : ℕ)
        → Carries
            (record {
              records = v;
              rows = update w.rows w.next rec;
              next = suc w.next;
              some_contention = cont;
              num_affected = count;
            })
            (kept ++ updated w.next new r ∷ rs)
    swapped_in rec reads v its cont count =
        let e = split_ptrs (updated w.next new r) in
        let before = split_ptrs r in
        record {
          holds = record {
            pointers = its ∙ sym e;
            contents =
                All-replace _ kept r (updated w.next new r) rs
                  (copy_at_new w.rows w.next rec _ reads)
                  (contents_update w.rows w.next rec (kept ++ r ∷ rs) c.in_use c.holds.contents);
          };
          distinct = rw e (
              Distinct-replace (ptrs kept) r.ptr w.next (ptrs rs)
                (rw before at (Fresh-of_Below w.next _ c.in_use)) (rw before at c.distinct));
          in_use = rw e (
              All-replace _ (ptrs kept) r.ptr w.next (ptrs rs) (omega arith)
                (rw before at (Below-suc w.next _ c.in_use)));
        }

    update_slot_lem :
        (w' : Work) × (update_slot new r.ptr (length (ptrs kept)) w ≡ some w')
        × Advanced w w' (kept ++ updated w.next new r ∷ rs) 1
        × (t.items w'.records ≡ ptrs kept ++ w.next ∷ ptrs rs)
    unfolding update_slot
    update_slot_lem =
        let (old, stored, reads) =
          row_there w.rows r.ptr r.rec (All-middle _ kept r rs c.holds.contents) in
        let (rec, made, reads') =
          copy-update_record r.rec new fit.short fit.cells_fit new_fits fit.id_fits fit.id_clear in
        let there : get_elem? (t.items w.records) (length (ptrs kept)) ≡ some r.ptr =
          rw (c.holds.pointers, split_ptrs r)
            (get_elem?-append_middle (ptrs kept) r.ptr (ptrs rs)) in
        let (swapped, put) = t.cas_hit w.records (length (ptrs kept)) r.ptr w.next there in
        let its : t.items (t.cas w.records (length (ptrs kept)) r.ptr w.next).1
            ≡ ptrs kept ++ w.next ∷ ptrs rs =
          put
          ∙ rw (c.holds.pointers, split_ptrs r)
              (set-append_middle (ptrs kept) r.ptr w.next (ptrs rs)) in
        (
          record {
            records = (t.cas w.records (length (ptrs kept)) r.ptr w.next).1;
            rows = update w.rows w.next rec;
            next = suc w.next;
            some_contention =
                w.some_contention || not (t.cas w.records (length (ptrs kept)) r.ptr w.next).0;
            num_affected =
                if (t.cas w.records (length (ptrs kept)) r.ptr w.next).0
                then suc w.num_affected
                else w.num_affected;
          },
          rw (stored, update_slot) (rw (reads, update_slot) (rw (made, update_slot))),
          record {
            carries = swapped_in rec reads' _ its _ _;
            addresses = omega arith;
            no_contention = ground (arith, swapped);
            counted = ground (arith, swapped);
          },
          its,
        )

    -- The loop over the slots acts once, on the slot of its row.
    pub update_one :
        (w' : Work) × (slot_loop (update_slot new) r.ptr (t.size w.records) 0 w ≡ some w')
        × Advanced w w' (kept ++ updated w.next new r ∷ rs) 1
    update_one =
        let (w', ran, adv, its) = update_slot_lem in
        let fresh = Distinct-middle r.ptr (ptrs kept) (ptrs rs) (rw (split_ptrs r) at c.distinct) in
        let other : w.next ≢ r.ptr = λ e. absurd (
          omega
            (arith, e, All-middle _ (ptrs kept) r.ptr (ptrs rs) (rw (split_ptrs r) at c.in_use))) in
        (
          w',
          slot_loop_hit (update_slot new) r.ptr (ptrs kept) (ptrs rs) w w'
                (c.holds.pointers ∙ split_ptrs r) (Fresh-left r.ptr (ptrs kept) (ptrs rs) fresh.0)
                ran
              ∙ slot_loop-Fresh (update_slot new) r.ptr (length (ptrs rs))
                  (suc (length (ptrs kept))) w'
                  (rw its (Fresh-insert r.ptr (ptrs kept) w.next (ptrs rs) other fresh.0)),
          adv,
        )
