-- ===== src/Tervel.antt =====
-- The Tervel containers and std::hash, which the sources only call: a parameter of the model.
-- A vector holds 64-bit words: in a table they are pointers, in a record they are numbers. Tervel keeps
-- the low three bits of a word for itself (database/include/util/types.h, TervelData), so nothing is
-- assumed of a number pushed with one of them set. An allocated object has an address with these bits
-- clear, whatever the number that stands for the address here. The hash map holds pointers under hash
-- codes. The laws state what one call does when no other thread acts at the same time; `items` is the
-- vector's content, front first.
pub mod Listed
use open_mem_db.Prelude.{
  ℕ, ◌<◌, ◌%◌, String, ◌≡◌, ◌≢◌, Bool, true, false, Option, none, some, List, [], ◌∷◌, ◌++◌, ◌==◌,
  if◌then◌else◌, length, get_elem?, set, erase_idx,
}

pub record Tervel : Type 1 where
  -- std::hash<std::string>
  pub hash : String → ℕ
  pub Vec : Type 0
  pub empty : Vec
  pub size : Vec → ℕ
  -- at(index, out): `none` if the index is out of range
  pub at : Vec → ℕ → Option ℕ
  -- push_back_w_ra of a vector of pointers, and of one of numbers
  pub push_back_w_ra : Vec → ℕ → Vec
  pub push_word : Vec → ℕ → Vec
  -- cas(index, expected, new)
  pub cas : Vec → ℕ → ℕ → ℕ → Bool × Vec
  pub erase_at : Vec → ℕ → Bool × Vec
  pub items : Vec → List ℕ
  pub items-empty : items empty ≡ []
  pub size-items : (v : Vec) → size v ≡ length (items v)
  pub at-items : (v : Vec) (i : ℕ) → at v i ≡ get_elem? (items v) i
  pub items-push_back : (v : Vec) (a : ℕ) → items (push_back_w_ra v a) ≡ items v ++ a ∷ []
  pub items-push_word : (v : Vec) (w : ℕ) → w % 8 ≡ 0 → items (push_word v w) ≡ items v ++ w ∷ []
  pub cas_hit :
      (v : Vec) (i old new : ℕ)
      → get_elem? (items v) i ≡ some old
      → ((cas v i old new).0 ≡ true) × (items (cas v i old new).1 ≡ set (items v) i new)
  pub cas_miss :
      (v : Vec) (i old new : ℕ)
      → get_elem? (items v) i ≢ some old
      → ((cas v i old new).0 ≡ false) × (items (cas v i old new).1 ≡ items v)
  pub erase_at_lem :
      (v : Vec) (i : ℕ)
      → i < length (items v)
      → ((erase_at v i).0 ≡ true) × (items (erase_at v i).1 ≡ erase_idx (items v) i)
  pub Map : Type 0
  pub empty_map : Map
  -- at(key, accessor): `none` if the key is absent
  pub find : Map → ℕ → Option ℕ
  pub insert : Map → ℕ → ℕ → Bool × Map
  pub remove : Map → ℕ → Bool × Map
  pub find-empty : (k : ℕ) → find empty_map k ≡ none
  pub insert_new :
      (m : Map) (k v : ℕ)
      → find m k ≡ none
      → ((insert m k v).0 ≡ true)
        × ((j : ℕ) → find (insert m k v).1 j ≡ (if k == j then some v else find m j))
  pub insert_taken :
      (m : Map) (k v w : ℕ)
      → find m k ≡ some w
      → ((insert m k v).0 ≡ false) × ((j : ℕ) → find (insert m k v).1 j ≡ find m j)
  pub remove_present :
      (m : Map) (k w : ℕ)
      → find m k ≡ some w
      → ((remove m k).0 ≡ true)
        × ((j : ℕ) → find (remove m k).1 j ≡ (if k == j then none else find m j))
