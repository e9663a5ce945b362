-- ===== src/Prelude/Lists.antt =====
-- Lists measured and indexed by native numbers, and the Boolean filter of the search loops.
use Prim.Native.Nat.{ℕ, zero, suc, ◌+◌, ◌<◌, ◌≤◌}
use mathlib.Core.Path.{◌≡◌, refl, ap}
use mathlib.Core.Bool.{Bool}
use mathlib.Core.List.{List, [], ◌∷◌, ◌++◌, map}
use mathlib.Core.Option.{Option, none, some, some-injective}
use mathlib.Core.Path.{subst}
use native.Mathlib.Omega.{arith}
use open_mem_db.Prelude.Tests.{if◌then◌else◌}

module _ {ℓ} {A : Type ℓ} where
  abbrev pub length : List A → ℕ
  length [] = 0
  length (x ∷ xs) = suc (length xs)

  abbrev pub get_elem? : List A → ℕ → Option A
  get_elem? [] i = none
  get_elem? (x ∷ xs) zero = some x
  get_elem? (x ∷ xs) (suc i) = get_elem? xs i

  -- A write out of bounds changes nothing.
  abbrev pub set : List A → ℕ → A → List A
  set [] i v = []
  set (x ∷ xs) zero v = v ∷ xs
  set (x ∷ xs) (suc i) v = x ∷ set xs i v

  -- The list without its entry at an index.
  abbrev pub erase_idx : List A → ℕ → List A
  erase_idx [] i = []
  erase_idx (x ∷ xs) zero = xs
  erase_idx (x ∷ xs) (suc i) = x ∷ erase_idx xs i

  abbrev pub replicate : ℕ → A → List A
  replicate zero a = []
  replicate (suc n) a = a ∷ replicate n a

  pub length-append : (xs ys : List A) → length (xs ++ ys) ≡ length xs + length ys
  length-append [] ys = omega arith
  length-append (x ∷ xs) ys = omega (arith, length-append xs ys)

module _ {ℓ} {A : Type ℓ} where
  abbrev pub filter_by : (A → Bool) → List A → List A
  filter_by p [] = []
  filter_by p (x ∷ xs) = if p x then x ∷ filter_by p xs else filter_by p xs

  -- Every entry passes the test.
  abbrev pub All {κ} : (A → Type κ) → List A → Type κ
  All P [] = Unit
  All P (x ∷ xs) = P x × All P xs

  pub length-set : (xs : List A) (i : ℕ) (v : A) → length (set xs i v) ≡ length xs
  length-set [] i v = refl
  length-set (x ∷ xs) zero v = refl
  length-set (x ∷ xs) (suc i) v = ap suc (length-set xs i v)

  pub get_elem?-append_middle :
      (pre : List A) (a : A) (post : List A) → get_elem? (pre ++ a ∷ post) (length pre) ≡ some a
  get_elem?-append_middle [] a post = refl
  get_elem?-append_middle (x ∷ pre) a post = get_elem?-append_middle pre a post

  pub set-append_middle :
      (pre : List A) (a b : A) (post : List A)
      → set (pre ++ a ∷ post) (length pre) b ≡ pre ++ b ∷ post
  set-append_middle [] a b post = refl
  set-append_middle (x ∷ pre) a b post = ap (◌∷◌ x) (set-append_middle pre a b post)

  pub erase_idx-append_middle :
      (pre : List A) (a : A) (post : List A)
      → erase_idx (pre ++ a ∷ post) (length pre) ≡ pre ++ post
  erase_idx-append_middle [] a post = refl
  erase_idx-append_middle (x ∷ pre) a post = ap (◌∷◌ x) (erase_idx-append_middle pre a post)

  pub get_elem?_past : (xs : List A) (i : ℕ) → get_elem? xs (length xs + i) ≡ none
  get_elem?_past [] i = refl
  get_elem?_past (x ∷ xs) i =
      let e : suc (length xs) + i ≡ suc (length xs + i) = omega arith in rw e (get_elem?_past xs i)

  pub All-append {κ} : (P : A → Type κ) (xs ys : List A) → All P xs → All P ys → All P (xs ++ ys)
  All-append P [] ys hx hy = hy
  All-append P (x ∷ xs) ys hx hy = (hx.0, All-append P xs ys hx.1 hy)

  pub get_elem?_below : (xs : List A) (i : ℕ) → i < length xs → (a : A) × (get_elem? xs i ≡ some a)
  get_elem?_below [] i h = absurd (omega arith)
  get_elem?_below (x ∷ xs) zero h = (x, refl)
  get_elem?_below (x ∷ xs) (suc i) h = get_elem?_below xs i (omega arith)

  pub length-map {κ} : {B : Type κ} (f : A → B) (xs : List A) → length (map f xs) ≡ length xs
  length-map f [] = refl
  length-map f (x ∷ xs) = ap suc (length-map f xs)

  pub length-snoc : (xs : List A) (x : A) → length (xs ++ x ∷ []) ≡ suc (length xs)
  length-snoc [] x = refl
  length-snoc (y ∷ xs) x = ap suc (length-snoc xs x)

  pub All-map {κ η} :
      {P : A → Type κ} {Q : A → Type η} (f : (a : A) → P a → Q a) (xs : List A)
      → All P xs
      → All Q xs
  All-map f [] h = tt
  All-map f (x ∷ xs) h = (f x h.0, All-map f xs h.1)

  pub length-filter_by-le : (p : A → Bool) (xs : List A) → length (filter_by p xs) ≤ length xs
  length-filter_by-le p [] = omega arith
  length-filter_by-le p (x ∷ xs) = ground (arith, length-filter_by-le p xs)

-- What an operation gives, if it gives anything, has a property.
abbrev pub Every {ℓ κ} : {A : Type ℓ} → (A → Type κ) → Option A → Type κ
Every P none = Unit
Every P (some a) = P a

pub get_elem?-All {ℓ κ} :
    {A : Type ℓ} (P : A → Type κ) (xs : List A) (i : ℕ) (a : A)
    → All P xs
    → get_elem? xs i ≡ some a
    → P a
get_elem?-All P [] i a h e = absurd (cc e)
get_elem?-All P (x ∷ xs) zero a h e = subst P (some-injective _ _ e) h.0
get_elem?-All P (x ∷ xs) (suc i) a h e = get_elem?-All P xs i a h.1 e

pub set-All {ℓ κ} :
    {A : Type ℓ} (P : A → Type κ) (xs : List A) (i : ℕ) (a : A)
    → All P xs
    → P a
    → All P (set xs i a)
set-All P [] i a h p = tt
set-All P (x ∷ xs) zero a h p = (p, h.1)
set-All P (x ∷ xs) (suc i) a h p = (h.0, set-All P xs i a h.1 p)

pub erase_idx-All {ℓ κ} :
    {A : Type ℓ} (P : A → Type κ) (xs : List A) (i : ℕ) → All P xs → All P (erase_idx xs i)
erase_idx-All P [] i h = tt
erase_idx-All P (x ∷ xs) zero h = h.1
erase_idx-All P (x ∷ xs) (suc i) h = (h.0, erase_idx-All P xs i h.1)

pub replicate-All {ℓ κ} :
    {A : Type ℓ} (P : A → Type κ) (n : ℕ) (a : A) → P a → All P (replicate n a)
replicate-All P zero a p = tt
replicate-All P (suc n) a p = (p, replicate-All P n a p)

pub get_elem?-set {ℓ} :
    {A : Type ℓ} (xs : List A) (i : ℕ) (old new : A)
    → get_elem? xs i ≡ some old
    → get_elem? (set xs i new) i ≡ some new
get_elem?-set [] i old new e = absurd (cc e)
get_elem?-set (x ∷ xs) zero old new e = refl
get_elem?-set (x ∷ xs) (suc i) old new e = get_elem?-set xs i old new e
