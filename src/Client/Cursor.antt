-- ===== src/Client/Cursor.antt =====
-- The cursor of database/libomdb/libomdb_result.cc over the rows of a result.
use open_mem_db.Prelude.{
  ℕ, Bool, true, false, Option, none, some, List, [], ◌∷◌, ◌++◌, ◌≡◌, refl, get_elem?, length,
  length-append, map, suc, zero, ◌<◌, sym, arith, if◌then◌else◌,
}
use mathlib.Core.List.{reverse, reverse-cons, reverse-reverse}
use open_mem_db.Client.{Result}

-- back() and pop_back()
unfoldable pub split_last {ℓ} : {A : Type ℓ} → List A → Option (List A × A)
split_last [] = none
split_last (x ∷ xs) = elim (split_last xs) [
  | none ↦ some ([], x)
  | some (front, last) ↦ some (x ∷ front, last)
]

abbrev is_empty {ℓ} : {A : Type ℓ} → List A → Bool
is_empty [] = true
is_empty (x ∷ xs) = false

-- Result::getValue: no row is undefined, and a missing column an exception.
unfoldable pub get_value : Result → ℕ → Option ℕ
get_value r index = elim (split_last r.rows) [
  | none ↦ none
  | some (front, row) ↦ get_elem? row index
]

-- Result::next
unfoldable pub next : Result → Bool × Result
next r = elim (split_last r.rows) [
  | none ↦ (false, r)
  | some (front, row) ↦ (if is_empty front then false else true, record r { rows = front })
]

-- `while(result.next())`, with the values of one column: none where the fuel is too little.
unfoldable pub walk : ℕ → Result → ℕ → Option (List (Option ℕ))
walk zero r index = none
walk (suc n) r index =
    let (more, r') = next r in
    let rest = walk n r' index in
    if more then elim rest [ none ↦ none | some vs ↦ some (get_value r' index ∷ vs) ] else some []

split_last-snoc {ℓ} : {A : Type ℓ} (xs : List A) (x : A) → split_last (xs ++ x ∷ []) ≡ some (xs, x)
unfolding split_last
split_last-snoc [] x = refl
split_last-snoc (y ∷ xs) x = rw (split_last-snoc xs x) refl

is_empty-snoc {ℓ} : {A : Type ℓ} (xs : List A) (x : A) → is_empty (xs ++ x ∷ []) ≡ false
is_empty-snoc [] x = refl
is_empty-snoc (y ∷ xs) x = refl

next_lem :
    (r : Result) (front : List (List ℕ)) (row : List ℕ)
    → r.rows ≡ front ++ row ∷ []
    → next r ≡ (if is_empty front then false else true, record r { rows = front })
unfolding next
next_lem r front row e = rw (e) (rw (split_last-snoc front row, next) refl)

get_value_lem :
    (r : Result) (index : ℕ) (front : List (List ℕ)) (row : List ℕ)
    → r.rows ≡ front ++ row ∷ []
    → get_value r index ≡ get_elem? row index
unfolding get_value
get_value_lem r index front row e = rw (e) (rw (split_last-snoc front row, get_value) refl)

walk_from :
    (rows : List (List ℕ)) (last : List ℕ) (r : Result) (index fuel : ℕ)
    → r.rows ≡ reverse rows ++ last ∷ []
    → length rows < fuel
    → walk fuel r index ≡ some (map (λ row. get_elem? row index) rows)
unfolding walk
walk_from rows last r index zero e enough = absurd (omega (arith, enough))
walk_from [] last r index (suc fuel) e enough = rw (next_lem r [] last e, walk) refl
walk_from (row ∷ rows) last r index (suc fuel) e enough =
    let front = reverse rows ++ row ∷ [] in
    let there : r.rows ≡ front ++ last ∷ [] = rw (sym (reverse-cons row rows)) e in
    let rest =
      walk_from rows row (record r { rows = front }) index fuel refl (omega (arith, enough)) in
    rw (next_lem r front last there, walk)
      (rw (is_empty-snoc (reverse rows) row, walk)
        (rw (rest, walk)
          (rw
            (
              next_lem r front last there,
              get_value_lem (record r { rows = front }) index (reverse rows) row refl,
            )
            refl)))

length-reverse : {A : Type 0} (xs : List A) → length (reverse xs) ≡ length xs
length-reverse [] = refl
length-reverse (x ∷ xs) =
    rw (reverse-cons x xs, length-append (reverse xs) (x ∷ []), length-reverse xs) (omega arith)

-- A loop `while(next())` over a result whose rows are those that parseData gives, the empty one
-- last, meets each of the other rows once, from the last to the first, and ends, within as many
-- steps as there are rows with the empty one: the values of a column that it reads are theirs, none
-- where the column is missing.
pub walk_lem :
    (rows : List (List ℕ)) (r : Result) (index fuel : ℕ)
    → r.rows ≡ rows ++ [] ∷ []
    → length rows < fuel
    → walk fuel r index ≡ some (map (λ row. get_elem? row index) (reverse rows))
walk_lem rows r index fuel e enough =
    let there : r.rows ≡ reverse (reverse rows) ++ [] ∷ [] = rw (reverse-reverse rows) e in
    walk_from (reverse rows) [] r index fuel there (rw (length-reverse rows) enough)
