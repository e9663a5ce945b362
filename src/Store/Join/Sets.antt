-- ===== src/Store/Join/Sets.antt =====
-- The joins of two results as sets of record identifiers.
use open_mem_db.Prelude.{
  ℕ, ◌<◌, ◌≤◌, ◌≡◌, refl, ◌∙◌, inl, inr, Bool, true, false, ◌&&◌, ◌||◌, some, List, [], ◌∷◌, arith,
  ltb, ltb→lt, ◌==◌, Bool-cases, All, All-map,
}
use open_mem_db.Expr.{and, or}
use open_mem_db.Store.Join.{sort_by, insert_sorted, set_intersection, set_union, join_sets}

drop_left : (a b c : Bool) → (c ≡ true → b ≡ false) → (a && b) ≡ ((c || a) && b)
drop_left a b true h = ground (arith, h refl)
drop_left a b false h = refl

drop_right : (a b c : Bool) → (c ≡ true → a ≡ false) → (a && b) ≡ (a && (c || b))
drop_right a b true h = ground (arith, h refl)
drop_right a b false h = refl

or_and_or : (c a b : Bool) → (c || a && b) ≡ ((c || a) && (c || b))
or_and_or true a b = refl
or_and_or false a b = refl

or_swap : (c a b : Bool) → (c || (a || b)) ≡ (a || (c || b))
or_swap true true b = refl
or_swap true false b = refl
or_swap false a b = refl

or_assoc : (c a b : Bool) → (c || (a || b)) ≡ ((c || a) || b)
or_assoc true a b = refl
or_assoc false a b = refl

or_merge : (c a b : Bool) → (c || (a || b)) ≡ ((c || a) || (c || b))
or_merge true a b = refl
or_merge false a b = refl

module _ {ℓ} {A : Type ℓ} (key : A → ℕ) where
  -- An entry has this key.
  abbrev pub has_key : ℕ → List A → Bool
  has_key k [] = false
  has_key k (x ∷ xs) = key x == k || has_key k xs

  -- The keys do not decrease.
  abbrev pub Sorted : List A → Type 0
  Sorted [] = Unit
  Sorted (x ∷ xs) = All (λ y. key x ≤ key y) xs × Sorted xs

  has_key-insert_sorted :
      (k : ℕ) (x : A) (xs : List A)
      → has_key k (insert_sorted key x xs) ≡ (key x == k || has_key k xs)
  unfolding insert_sorted
  has_key-insert_sorted k x [] = refl
  has_key-insert_sorted k x (y ∷ ys) = ground (arith, has_key-insert_sorted k x ys)

  has_key-sort_by : (k : ℕ) (xs : List A) → has_key k (sort_by key xs) ≡ has_key k xs
  unfolding sort_by
  has_key-sort_by k [] = refl
  has_key-sort_by k (x ∷ xs) =
      has_key-insert_sorted k x (sort_by key xs) ∙ rw (has_key-sort_by k xs) refl

  All-insert_sorted :
      (b : ℕ) (x : A) (xs : List A)
      → b ≤ key x
      → All (λ y. b ≤ key y) xs
      → All (λ y. b ≤ key y) (insert_sorted key x xs)
  unfolding insert_sorted
  All-insert_sorted b x [] h a = (h, tt)
  All-insert_sorted b x (y ∷ ys) h a = elim (Bool-cases (ltb (key y) (key x))) [
    | inl e ↦ rw (e, insert_sorted) (a.0, All-insert_sorted b x ys h a.1)
    | inr e ↦ rw (e, insert_sorted) (h, a)
  ]

  All-weaken : (b c : ℕ) (xs : List A) → b ≤ c → All (λ y. c ≤ key y) xs → All (λ y. b ≤ key y) xs
  All-weaken b c xs h = All-map (λ x (g : c ≤ key x). omega (arith, g, h)) xs

  insert_sorted-Sorted : (x : A) (xs : List A) → Sorted xs → Sorted (insert_sorted key x xs)
  unfolding insert_sorted
  insert_sorted-Sorted x [] s = (tt, tt)
  insert_sorted-Sorted x (y ∷ ys) s = elim (Bool-cases (ltb (key y) (key x))) [
    | inl e ↦
        rw (e, insert_sorted)
          (
            All-insert_sorted (key y) x ys (omega (arith, ltb→lt _ _ e)) s.0,
            insert_sorted-Sorted x ys s.1,
          )
    | inr e ↦
        let below : key x ≤ key y = ground (arith, e) in
        rw (e, insert_sorted) ((below, All-weaken (key x) (key y) ys below s.0), s)
  ]

  pub sort_by-Sorted : (xs : List A) → Sorted (sort_by key xs)
  unfolding sort_by
  sort_by-Sorted [] = tt
  sort_by-Sorted (x ∷ xs) = insert_sorted-Sorted x (sort_by key xs) (sort_by-Sorted xs)

  has_key_below : (k b : ℕ) (xs : List A) → k < b → All (λ y. b ≤ key y) xs → has_key k xs ≡ false
  has_key_below k b [] h a = refl
  has_key_below k b (x ∷ xs) h a =
      let rest = has_key_below k b xs h a.1 in let first = a.0 in ground (arith, rest, first)

  -- A key under the head of a sorted list is nowhere in it.
  has_key_under :
      (k : ℕ) (y : A) (ys : List A) → k < key y → Sorted (y ∷ ys) → has_key k (y ∷ ys) ≡ false
  has_key_under k y ys h s = let rest = has_key_below k (key y) ys h s.0 in ground (arith, h, rest)

  has_key-set_intersection :
      (k : ℕ) (xs ys : List A)
      → Sorted xs
      → Sorted ys
      → has_key k (set_intersection key xs ys) ≡ (has_key k xs && has_key k ys)
  unfolding set_intersection
  has_key-set_intersection k [] ys s u = refl
  has_key-set_intersection k (x ∷ xs) [] s u = ground arith
  has_key-set_intersection k (x ∷ xs) (y ∷ ys) s u = elim (Bool-cases (ltb (key x) (key y))) [
    | inl e ↦
        let rest = has_key-set_intersection k xs (y ∷ ys) s.1 u in
        let under = λ (h : k < key y). has_key_under k y ys h u in
        rw (e, set_intersection)
          (rest ∙ drop_left _ _ (key x == k) (λ same. under (ground (arith, e, same))))
    | inr e ↦ elim (Bool-cases (ltb (key y) (key x))) [
      | inl f ↦
          let rest = has_key-set_intersection k (x ∷ xs) ys s u.1 in
          let under = λ (h : k < key x). has_key_under k x xs h s in
          rw (e, f, set_intersection)
            (rest ∙ drop_right _ _ (key y == k) (λ same. under (ground (arith, f, same))))
      | inr f ↦
          let rest = has_key-set_intersection k xs ys s.1 u.1 in
          let equal : key x ≡ key y = ground (arith, e, f) in
          rw (e, f, set_intersection)
            (rw rest (rw equal (or_and_or (key y == k) (has_key k xs) (has_key k ys))))
    ]
  ]

  has_key-set_union :
      (k : ℕ) (xs ys : List A) → has_key k (set_union key xs ys) ≡ (has_key k xs || has_key k ys)
  unfolding set_union
  has_key-set_union k [] ys = refl
  has_key-set_union k (x ∷ xs) [] = ground arith
  has_key-set_union k (x ∷ xs) (y ∷ ys) = elim (Bool-cases (ltb (key y) (key x))) [
    | inl e ↦
        let rest = has_key-set_union k (x ∷ xs) ys in
        rw (e, set_union) (rw rest (or_swap (key y == k) (has_key k (x ∷ xs)) (has_key k ys)))
    | inr e ↦ elim (Bool-cases (ltb (key x) (key y))) [
      | inl f ↦
          let rest = has_key-set_union k xs (y ∷ ys) in
          rw (e, f, set_union) (rw rest (or_assoc (key x == k) (has_key k xs) (has_key k (y ∷ ys))))
      | inr f ↦
          let rest = has_key-set_union k xs ys in
          let equal : key x ≡ key y = ground (arith, e, f) in
          rw (e, f, set_union)
            (rw rest (rw equal (or_merge (key y == k) (has_key k xs) (has_key k ys))))
    ]
  ]

  -- AND of two results gives rows with exactly the identifiers that both have, whatever the order
  -- in which the searches found them.
  pub join_sets_and :
      (l r : List A)
      → (j : List A) × (join_sets key and l r ≡ some j)
        × ((k : ℕ) → has_key k j ≡ (has_key k l && has_key k r))
  unfolding join_sets
  join_sets_and l r = (
    set_intersection key (sort_by key l) (sort_by key r),
    refl,
    λ k.
        has_key-set_intersection k (sort_by key l) (sort_by key r) (sort_by-Sorted l)
          (sort_by-Sorted r)
        ∙ rw (has_key-sort_by k l, has_key-sort_by k r) refl,
  )

  -- OR of two results gives rows with exactly the identifiers that one of them has.
  pub join_sets_or :
      (l r : List A)
      → (j : List A) × (join_sets key or l r ≡ some j)
        × ((k : ℕ) → has_key k j ≡ (has_key k l || has_key k r))
  unfolding join_sets
  join_sets_or l r = (
    set_union key (sort_by key l) (sort_by key r),
    refl,
    λ k.
        has_key-set_union k (sort_by key l) (sort_by key r)
        ∙ rw (has_key-sort_by k l, has_key-sort_by k r) refl,
  )
