-- ===== src/Tervel/Listed.antt =====
-- The assumptions on the containers can be met: vectors as lists and the map as an association
-- list. The tests run on this instance.
use Prim.Native.Char.{code}
use Prim.Native.String.{String}
use open_mem_db.Prelude.{
  ℕ, zero, suc, ◌+◌, ◌*◌, ◌-◌, ◌%◌, ◌^◌, ◌<◌, ◌≡◌, refl, ◌≢◌, Bool, true, false, Option, none, some,
  List, [], ◌∷◌, ◌++◌, arith, ◌==◌, if◌then◌else◌, length, get_elem?, set, erase_idx,
}
use open_mem_db.Tervel.{Tervel}

-- A stand-in for std::hash.
abbrev pub hash : String → ℕ
hash String.[] = 0
hash (String.◌∷◌ c s) = (code c + 31 * hash s) % 2 ^ 64

abbrev pub hits : Option ℕ → ℕ → Bool
hits none a = false
hits (some b) a = a == b

abbrev pub cas : List ℕ → ℕ → ℕ → ℕ → Bool × List ℕ
cas v i old new = if hits (get_elem? v i) old then (true, set v i new) else (false, v)

abbrev pub erase_at : List ℕ → ℕ → Bool × List ℕ
erase_at v i = elim (get_elem? v i) [ none ↦ (false, v) | some a ↦ (true, erase_idx v i) ]

abbrev pub find : List (ℕ × ℕ) → ℕ → Option ℕ
find [] k = none
find ((j, v) ∷ m) k = if j == k then some v else find m k

abbrev pub without : List (ℕ × ℕ) → ℕ → List (ℕ × ℕ)
without [] k = []
without ((j, v) ∷ m) k = let rest = without m k in if j == k then rest else (j, v) ∷ rest

abbrev pub insert : List (ℕ × ℕ) → ℕ → ℕ → Bool × List (ℕ × ℕ)
insert m k v = elim (find m k) [ none ↦ (true, (k, v) ∷ m) | some w ↦ (false, m) ]

abbrev pub remove : List (ℕ × ℕ) → ℕ → Bool × List (ℕ × ℕ)
remove m k = elim (find m k) [ none ↦ (false, m) | some w ↦ (true, without m k) ]

-- A number with one of Tervel's bits set loses these bits.
abbrev pub push_word : List ℕ → ℕ → List ℕ
push_word v w = v ++ (w - w % 8) ∷ []

pub items-push_word : (v : List ℕ) (w : ℕ) → w % 8 ≡ 0 → push_word v w ≡ v ++ w ∷ []
items-push_word v w h = let e : w - w % 8 ≡ w = omega (arith, h) in rw (e) refl

pub cas_hit :
    (v : List ℕ) (i old new : ℕ)
    → get_elem? v i ≡ some old
    → ((cas v i old new).0 ≡ true) × ((cas v i old new).1 ≡ set v i new)
cas_hit v i old new h = (ground arith, ground arith)

pub cas_miss :
    (v : List ℕ) (i old new : ℕ)
    → get_elem? v i ≢ some old
    → ((cas v i old new).0 ≡ false) × ((cas v i old new).1 ≡ v)
cas_miss v i old new h = (ground arith, ground arith)

some_below : (v : List ℕ) (i : ℕ) → i < length v → get_elem? v i ≢ none
some_below [] i h = absurd (omega arith)
some_below (x ∷ v) zero h = λ e. cc
some_below (x ∷ v) (suc i) h = some_below v i (omega arith)

pub erase_at_lem :
    (v : List ℕ) (i : ℕ)
    → i < length v
    → ((erase_at v i).0 ≡ true) × ((erase_at v i).1 ≡ erase_idx v i)
erase_at_lem v i h = (ground (arith, some_below v i), ground (arith, some_below v i))

find-without :
    (m : List (ℕ × ℕ)) (k j : ℕ) → find (without m k) j ≡ (if k == j then none else find m j)
find-without [] k j = ground arith
find-without ((i, v) ∷ m) k j = ground (arith, find-without m k j)

pub insert_new :
    (m : List (ℕ × ℕ)) (k v : ℕ)
    → find m k ≡ none
    → ((insert m k v).0 ≡ true)
      × ((j : ℕ) → find (insert m k v).1 j ≡ (if k == j then some v else find m j))
insert_new m k v h = (ground arith, λ j. rw (h, insert))

pub insert_taken :
    (m : List (ℕ × ℕ)) (k v w : ℕ)
    → find m k ≡ some w
    → ((insert m k v).0 ≡ false) × ((j : ℕ) → find (insert m k v).1 j ≡ find m j)
insert_taken m k v w h = (ground arith, λ j. rw (h, insert))

pub remove_present :
    (m : List (ℕ × ℕ)) (k w : ℕ)
    → find m k ≡ some w
    → ((remove m k).0 ≡ true)
      × ((j : ℕ) → find (remove m k).1 j ≡ (if k == j then none else find m j))
remove_present m k w h = (ground arith, λ j. rw (h, remove) (find-without m k j))

instance abbrev pub listed : Tervel
listed = record {
  hash = hash;
  Vec = List ℕ;
  empty = [];
  size = λ v. length v;
  at = λ v i. get_elem? v i;
  push_back_w_ra = λ v a. v ++ a ∷ [];
  push_word = push_word;
  cas = cas;
  erase_at = erase_at;
  items = λ v. v;
  items-empty = refl;
  size-items = λ v. refl;
  at-items = λ v i. refl;
  items-push_back = λ v a. refl;
  items-push_word = items-push_word;
  cas_hit = cas_hit;
  cas_miss = cas_miss;
  erase_at_lem = erase_at_lem;
  Map = List (ℕ × ℕ);
  empty_map = [];
  find = find;
  insert = insert;
  remove = remove;
  find-empty = λ k. refl;
  insert_new = insert_new;
  insert_taken = insert_taken;
  remove_present = remove_present;
}
