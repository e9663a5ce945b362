-- ===== src/Store/Change/Loop.antt =====
-- The slot loop on a table whose row pointers are all different: it acts once, on the slot of its
-- row.
use open_mem_db.Prelude.{
  ℕ, zero, suc, ◌+◌, ◌≡◌, ◌≢◌, refl, sym, ap, ◌∙◌, true, false, Option, some, List, [], ◌∷◌, ◌++◌,
  append_assoc, arith, length, length-append, length-snoc, get_elem?, get_elem?-append_middle, All,
}
use open_mem_db.Tervel.{Tervel}
use open_mem_db.Store.Change.{Work, is_at, slot_loop}

abbrev pub Fresh : ℕ → List ℕ → Type 0
Fresh p xs = All (λ x. x ≢ p) xs

-- No pointer occurs twice.
abbrev pub Distinct : List ℕ → Type 0
Distinct [] = Unit {0}
Distinct (x ∷ xs) = Fresh x xs × Distinct xs

pub Fresh-append : (p : ℕ) (xs ys : List ℕ) → Fresh p xs → Fresh p ys → Fresh p (xs ++ ys)
Fresh-append p [] ys fx fy = fy
Fresh-append p (x ∷ xs) ys fx fy = (fx.0, Fresh-append p xs ys fx.1 fy)

pub Fresh-middle :
    (q p : ℕ) (pre post : List ℕ) → Fresh q (pre ++ p ∷ post) → (p ≢ q) × Fresh q (pre ++ post)
Fresh-middle q p [] post f = (f.0, f.1)
Fresh-middle q p (x ∷ pre) post f =
    let (ne, rest) = Fresh-middle q p pre post f.1 in (ne, (f.0, rest))

-- Taking an entry out leaves the rest distinct, and the entry fresh for it.
pub Distinct-middle :
    (p : ℕ) (pre post : List ℕ)
    → Distinct (pre ++ p ∷ post)
    → Fresh p (pre ++ post) × Distinct (pre ++ post)
Distinct-middle p [] post d = d
Distinct-middle p (x ∷ pre) post d =
    let (ne, fx) = Fresh-middle x p pre post d.0 in
    let (fp, dd) = Distinct-middle p pre post d.1 in (((λ e. ne (sym e)), fp), (fx, dd))

pub Fresh-left : (p : ℕ) (pre post : List ℕ) → Fresh p (pre ++ post) → Fresh p pre
Fresh-left p [] post f = tt
Fresh-left p (x ∷ pre) post f = (f.0, Fresh-left p pre post f.1)

is_at-Fresh : (p : ℕ) (xs : List ℕ) (i : ℕ) → Fresh p xs → is_at (get_elem? xs i) p ≡ false
is_at-Fresh p [] i f = refl
is_at-Fresh p (x ∷ xs) zero f = ground (arith, f.0)
is_at-Fresh p (x ∷ xs) (suc i) f = is_at-Fresh p xs i f.1

module _ ⦃t : Tervel⦄ (act : ℕ → ℕ → Work → Option Work) (ptr : ℕ) where
  -- A pointer that the table does not hold is never acted on.
  pub slot_loop-Fresh :
      (n idx : ℕ) (w : Work) → Fresh ptr (t.items w.records) → slot_loop act ptr n idx w ≡ some w
  unfolding slot_loop
  slot_loop-Fresh zero idx w f = refl
  slot_loop-Fresh (suc n) idx w f =
      let miss : is_at (t.at w.records idx) ptr ≡ false =
        rw t.at-items (is_at-Fresh ptr (t.items w.records) idx f) in
      rw (miss, slot_loop) (slot_loop-Fresh n (suc idx) w f)

  -- The rounds before the pointer's slot do nothing.
  slot_loop_prefix :
      (passed mid rest : List ℕ) (n : ℕ) (w : Work)
      → t.items w.records ≡ passed ++ (mid ++ rest)
      → Fresh ptr mid
      → slot_loop act ptr (length mid + n) (length passed) w
        ≡ slot_loop act ptr n (length passed + length mid) w
  unfolding slot_loop
  slot_loop_prefix passed [] rest n w e f =
      let left : 0 + n ≡ n = omega arith in
      let right : length passed + 0 ≡ length passed = omega arith in rw (left, right)
  slot_loop_prefix passed (x ∷ mid) rest n w e f =
      let miss : is_at (t.at w.records (length passed)) ptr ≡ false =
        rw (t.at-items, e, get_elem?-append_middle passed x (mid ++ rest)) (ground (arith, f.0)) in
      let rounds : suc (length mid) + n ≡ suc (length mid + n) = omega arith in
      let place : length passed + suc (length mid) ≡ suc (length passed) + length mid =
        omega arith in
      rw (rounds, place, miss, slot_loop)
        (rw length-snoc at (
          slot_loop_prefix (passed ++ x ∷ []) mid rest n w
            (e ∙ sym (append_assoc passed (x ∷ []) (mid ++ rest))) f.1))

  -- The action is taken at the pointer's slot, and the rounds for the later slots are left.
  pub slot_loop_hit :
      (pre post : List ℕ) (w w' : Work)
      → t.items w.records ≡ pre ++ ptr ∷ post
      → Fresh ptr pre
      → act ptr (length pre) w ≡ some w'
      → slot_loop act ptr (t.size w.records) 0 w
        ≡ slot_loop act ptr (length post) (suc (length pre)) w'
  unfolding slot_loop
  slot_loop_hit pre post w w' e f done =
      let hit : is_at (t.at w.records (length pre)) ptr ≡ true =
        rw (t.at-items, e, get_elem?-append_middle pre ptr post) (ground arith) in
      let rounds : t.size w.records ≡ length pre + suc (length post) =
        rw (t.size-items, e) (length-append pre (ptr ∷ post)) in
      let zero_left : 0 + length pre ≡ length pre = omega arith in
      let prefix : slot_loop act ptr (length pre + suc (length post)) 0 w
          ≡ slot_loop act ptr (suc (length post)) (length pre) w =
        slot_loop_prefix [] pre (ptr ∷ post) (suc (length post)) w e f
        ∙ ap (λ k. slot_loop act ptr (suc (length post)) k w) zero_left in
      rw rounds (prefix ∙ rw (hit, slot_loop) (rw (done, slot_loop)))
