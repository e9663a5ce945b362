-- ===== src/Wire/Laws.antt =====
-- Lemmas on the buffers of SendResult: what is written where, and what the client's memory has of
-- them.
use open_mem_db.Prelude.{
  ℕ, zero, suc, ◌+◌, ◌*◌, ◌<◌, ◌≤◌, ◌≡◌, refl, ap, Option, none, some, List, [], ◌∷◌, ◌++◌, arith,
  length, replicate,
}
use native.Mathlib.Decide.{dec_lt}
use open_mem_db.Wire.{
  Memory, put, write, read, HasBytes, write_before, write_after, write-HasBytes, HasBytes-write,
  put_self,
}
use open_mem_db.Wire.Packets.{
  ResultPacket, ResultMetaDataPacket, header_image, metadata_image, words_image, sizeof_metadata,
}
use open_mem_db.Wire.Server.{take, fill, serialize_result_packet, serialize_metadata_packet}
use open_mem_db.Wire.Images.{length-header_image, length-words_image}
use open_mem_db.Client.{received}

module _ {ℓ} {A : Type ℓ} where
  pub take_all : (n : ℕ) (xs : List A) → length xs ≤ n → take n xs ≡ xs
  unfolding take
  take_all zero [] h = refl
  take_all zero (x ∷ xs) h = absurd (omega (arith, h))
  take_all (suc n) [] h = refl
  take_all (suc n) (x ∷ xs) h = ap (◌∷◌ x) (take_all n xs (omega (arith, h)))

  -- Values written to the front of an array leave some of it.
  pub fill_lem :
      (n : ℕ) (a : A) (vs : List A)
      → length vs ≤ n
      → (k : ℕ) × (n ≡ length vs + k) × (fill (replicate n a) vs ≡ some (vs ++ replicate k a))
  unfolding fill
  fill_lem n a [] h = (n, omega arith, refl)
  fill_lem zero a (v ∷ vs) h = absurd (omega (arith, h))
  fill_lem (suc n) a (v ∷ vs) h =
      let (k, e, ran) = fill_lem n a vs (omega (arith, h)) in (k, omega (arith, e), rw (ran) refl)

  -- Values that fill an array.
  pub fill_exact : (n : ℕ) (a : A) (vs : List A) → length vs ≡ n → fill (replicate n a) vs ≡ some vs
  unfolding fill
  fill_exact zero a [] h = refl
  fill_exact (suc n) a [] h = absurd (omega (arith, h))
  fill_exact zero a (v ∷ vs) h = absurd (omega (arith, h))
  fill_exact (suc n) a (v ∷ vs) h = rw (fill_exact n a vs (omega (arith, h))) refl

pub length-read : (m : Memory) (i n : ℕ) → length (read m i n) ≡ n
unfolding read
length-read m i zero = refl
length-read m i (suc n) = ap suc (length-read m (suc i) n)

copied : (b m : Memory) (i n j : ℕ) → i ≤ j → j < i + n → write b i (read m i n) j ≡ m j
unfolding write read
copied b m i zero j from below = absurd (omega (arith, from, below))
copied b m i (suc n) j from below = elim (dec_lt i j) [
  | yes h ↦ copied (put b i (m i)) m (suc i) n j (omega (arith, h)) (omega (arith, below))
  | no h ↦
      let e : i ≡ j = omega (arith, from, h) in
      rw (e, write_before (put b j (m j)) (suc j) (read m (suc j) n) j (omega arith))
        (put_self b j (m j))
]

-- The client's memory has what the server's buffer has, up to the length sent.
pub received-HasBytes :
    (b m : Memory) (n i : ℕ) (bs : List ℕ)
    → HasBytes m i bs
    → i + length bs ≤ n
    → HasBytes (received b (read m 0 n)) i bs
unfolding received
received-HasBytes b m n i [] h e = tt
received-HasBytes b m n i (x ∷ bs) h e = (
  rw (copied b m 0 n i (omega arith) (omega (arith, e))) (h.0),
  received-HasBytes b m n (suc i) bs h.1 (omega (arith, e)),
)

pub serialize_metadata_packet-HasBytes :
    (m : Memory) (p : ResultMetaDataPacket)
    → HasBytes (serialize_metadata_packet m p) 0 (metadata_image p)
unfolding serialize_metadata_packet
serialize_metadata_packet-HasBytes m p =
    write-HasBytes (write m 0 (replicate sizeof_metadata 0)) 0 (metadata_image p)

abbrev pub packet : ℕ → ℕ → ℕ → ℕ → ℕ → Option (List ℕ) → ResultPacket
packet kind status row_len size end o = record {
  type = kind;
  status = status;
  row_len = row_len;
  result_size = size;
  data_words = o;
  terminator = end;
}

module _ (m : Memory) (kind status row_len size end : ℕ) where
  abbrev pack_of : Option (List ℕ) → ResultPacket
  pack_of = packet kind status row_len size end

  abbrev headed : Option (List ℕ) → Memory
  headed o = write m 0 (header_image (pack_of o))

  header_stays :
      (o : Option (List ℕ)) (k : ℕ) (bs : List ℕ)
      → 9 ≤ k
      → HasBytes (write (headed o) k bs) 0 (header_image (pack_of o))
  header_stays o k bs h =
      HasBytes-write (headed o) 0 (header_image (pack_of o)) k bs
        (write-HasBytes m 0 (header_image (pack_of o)))
        (omega (arith, length-header_image (pack_of o), h))

  pub header-HasBytes :
      (o : Option (List ℕ))
      → HasBytes (serialize_result_packet m (pack_of o)) 0 (header_image (pack_of o))
  unfolding serialize_result_packet
  header-HasBytes none = header_stays none 10 (end ∷ []) (omega arith)
  header-HasBytes (some ws) =
      HasBytes-write (write (headed (some ws)) 10 (take size (words_image ws))) 0
        (header_image (pack_of (some ws))) (9 + size + 1) (end ∷ [])
        (header_stays (some ws) 10 (take size (words_image ws)) (omega arith))
        (omega (arith, length-header_image (pack_of (some ws))))

  -- The words of a packet whose size is theirs.
  pub words-HasBytes :
      (ws : List ℕ)
      → size ≡ 8 * length ws
      → HasBytes (serialize_result_packet m (pack_of (some ws))) 10 (words_image ws)
  unfolding serialize_result_packet
  words-HasBytes ws long =
      let whole : take size (words_image ws) ≡ words_image ws =
        take_all size (words_image ws) (omega (arith, length-words_image ws, long)) in
      rw (whole) (
        HasBytes-write (write (write m 0 (header_image (pack_of (some ws)))) 10 (words_image ws)) 10
          (words_image ws) (9 + size + 1) (end ∷ [])
          (write-HasBytes (write m 0 (header_image (pack_of (some ws)))) 10 (words_image ws))
          (omega (arith, length-words_image ws, long)))

  -- Serialising a packet whose size is that of its words writes the terminator at the address
  -- 10 + size, the first one past the 9 + size + 1 bytes that SendResult allocates for the buffer,
  -- and leaves every later address as it was.
  pub serialize_result_packet_past :
      (ws : List ℕ) (j : ℕ)
      → size ≡ 8 * length ws
      → 10 + size < j
      → (serialize_result_packet m (pack_of (some ws)) (9 + size + 1) ≡ end)
        × (serialize_result_packet m (pack_of (some ws)) j ≡ m j)
  unfolding serialize_result_packet
  serialize_result_packet_past ws j long past =
      let whole : take size (words_image ws) ≡ words_image ws =
        take_all size (words_image ws) (omega (arith, length-words_image ws, long)) in
      let header = header_image (pack_of (some ws)) in
      let filled = write (write m 0 header) 10 (words_image ws) in
      (
        (write-HasBytes (write (write m 0 header) 10 (take size (words_image ws))) (9 + size + 1)
            (end ∷ [])).0,
        rw (whole) (
            rw
              (
                write_after filled (9 + size + 1) (end ∷ []) j (omega (arith, past)),
                write_after (write m 0 header) 10 (words_image ws) j
                    (omega (arith, length-words_image ws, long, past)),
                write_after m 0 header j
                    (omega (arith, length-header_image (pack_of (some ws)), past)),
              )
              refl),
      )
