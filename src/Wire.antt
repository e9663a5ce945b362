-- ===== src/Wire.antt =====
-- Bytes in memory, as the packet code of database/source/util/common.cc and
-- database/libomdb/serialization_helper.cc copies them, and numbers as little-endian bytes. An
-- access outside an allocation reaches the neighbouring bytes.
pub mod Packets
pub mod Server
pub mod Images
pub mod Laws
pub mod Sending
use open_mem_db.Prelude.{
  ℕ, zero, suc, ◌+◌, ◌*◌, ◌/◌, ◌%◌, ◌^◌, ◌<◌, ◌≤◌, ◌≡◌, refl, sym, ap, List, [], ◌∷◌, ◌++◌, arith,
  ◌==◌, if◌then◌else◌, length,
}

abbrev pub Memory : Type 0
Memory = ℕ → ℕ

unfoldable pub put : Memory → ℕ → ℕ → Memory
put m i b j = if j == i then b else m j

-- memcpy to an address
unfoldable pub write : Memory → ℕ → List ℕ → Memory
write m i [] = m
write m i (b ∷ bs) = write (put m i b) (suc i) bs

-- memcpy of some bytes from an address
unfoldable pub read : Memory → ℕ → ℕ → List ℕ
read m i zero = []
read m i (suc n) = m i ∷ read m (suc i) n

-- A number in some bytes, the lowest first.
unfoldable pub le : ℕ → ℕ → List ℕ
le zero n = []
le (suc w) n = n % 256 ∷ le w (n / 256)

unfoldable pub of_le : List ℕ → ℕ
of_le [] = 0
of_le (b ∷ bs) = b + 256 * of_le bs

-- A field of some bytes.
abbrev pub field : Memory → ℕ → ℕ → ℕ
field m i w = of_le (read m i w)

-- The bytes at an address.
abbrev pub HasBytes : Memory → ℕ → List ℕ → Type 0
HasBytes m i [] = Unit
HasBytes m i (b ∷ bs) = (m i ≡ b) × HasBytes m (suc i) bs

pub length-le : (w n : ℕ) → length (le w n) ≡ w
unfolding le
length-le zero n = refl
length-le (suc w) n = ap suc (length-le w (n / 256))

pub of_le-le : (w n : ℕ) → n < 256 ^ w → of_le (le w n) ≡ n
unfolding le of_le
of_le-le zero n h = omega arith
of_le-le (suc w) n h =
    let small : n / 256 < 256 ^ w = omega (arith, h) in
    rw (of_le-le w (n / 256) small) (omega arith)

pub write_before : (m : Memory) (i : ℕ) (bs : List ℕ) (j : ℕ) → j < i → write m i bs j ≡ m j
unfolding write put
write_before m i [] j h = refl
write_before m i (b ∷ bs) j h =
    rw (write_before (put m i b) (suc i) bs j (omega (arith, h))) (ground (arith, h))

pub write_after :
    (m : Memory) (i : ℕ) (bs : List ℕ) (j : ℕ) → i + length bs ≤ j → write m i bs j ≡ m j
unfolding write put
write_after m i [] j h = refl
write_after m i (b ∷ bs) j h =
    rw (write_after (put m i b) (suc i) bs j (omega (arith, h))) (ground (arith, h))

pub put_self : (m : Memory) (i b : ℕ) → put m i b i ≡ b
unfolding put
put_self m i b = ground arith

pub write-HasBytes : (m : Memory) (i : ℕ) (bs : List ℕ) → HasBytes (write m i bs) i bs
unfolding write
write-HasBytes m i [] = tt
write-HasBytes m i (b ∷ bs) = (
  rw (write_before (put m i b) (suc i) bs i (omega arith)) (put_self m i b),
  write-HasBytes (put m i b) (suc i) bs,
)

-- A later write to higher addresses keeps the bytes.
pub HasBytes-write :
    (m : Memory) (i : ℕ) (bs : List ℕ) (k : ℕ) (cs : List ℕ)
    → HasBytes m i bs
    → i + length bs ≤ k
    → HasBytes (write m k cs) i bs
HasBytes-write m i [] k cs h e = tt
HasBytes-write m i (b ∷ bs) k cs h e = (
  rw (write_before m k cs i (omega (arith, e))) (h.0),
  HasBytes-write m (suc i) bs k cs h.1 (omega (arith, e)),
)

pub HasBytes-append :
    (m : Memory) (i : ℕ) (bs cs : List ℕ)
    → HasBytes m i (bs ++ cs)
    → HasBytes m i bs × HasBytes m (length bs + i) cs
HasBytes-append m i [] cs h = let e : 0 + i ≡ i = omega arith in (tt, rw e h)
HasBytes-append m i (b ∷ bs) cs h =
    let (first, rest) = HasBytes-append m (suc i) bs cs h.1 in
    let e : suc (length bs) + i ≡ length bs + suc i = omega arith in ((h.0, first), rw e rest)

pub HasBytes-join :
    (m : Memory) (i : ℕ) (bs cs : List ℕ)
    → HasBytes m i bs
    → HasBytes m (length bs + i) cs
    → HasBytes m i (bs ++ cs)
HasBytes-join m i [] cs h k = let e : i ≡ 0 + i = omega arith in rw e k
HasBytes-join m i (b ∷ bs) cs h k =
    let e : suc (length bs) + i ≡ length bs + suc i = omega arith in
    (h.0, HasBytes-join m (suc i) bs cs h.1 (rw (sym e) k))

pub read_lem : (m : Memory) (i : ℕ) (bs : List ℕ) → HasBytes m i bs → read m i (length bs) ≡ bs
unfolding read
read_lem m i [] h = refl
read_lem m i (b ∷ bs) h = rw (h.0, read_lem m (suc i) bs h.1) refl

-- A field that holds a number within its width reads as that number.
pub field_lem : (m : Memory) (i w n : ℕ) → HasBytes m i (le w n) → n < 256 ^ w → field m i w ≡ n
field_lem m i w n h small =
    let same : read m i (length (le w n)) ≡ le w n = read_lem m i (le w n) h in
    rw (sym (length-le w n), same) (of_le-le w n small)
