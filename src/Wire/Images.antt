-- ===== src/Wire/Images.antt =====
-- Packets read back from the bytes that they lay out.
use mathlib.Core.Path.{subst}
use open_mem_db.Prelude.{
  ◌%◌, ℕ, ◌+◌, ◌*◌, ◌^◌, ◌<◌, ◌≡◌, refl, sym, List, [], ◌∷◌, ◌++◌, arith, length, length-append,
  All,
}
use open_mem_db.Wire.{
  Memory, le, length-le, read, read_lem, field, field_lem, HasBytes, HasBytes-append,
}
use open_mem_db.Wire.Packets.{
  PacketColumn, ResultMetaDataPacket, ResultPacket, column_image, columns_image, metadata_image,
  header_image, words_image, read_words, read_columns,
}
use open_mem_db.Client.{deserialize_result_meta_data_packet}

-- A number in front of other bytes, as a field.
pub first_field :
    (m : Memory) (i w n : ℕ) (rest : List ℕ)
    → HasBytes m i (le w n ++ rest)
    → n < 256 ^ w
    → (field m i w ≡ n) × HasBytes m (w + i) rest
first_field m i w n rest h small =
    let (here, there) = HasBytes-append m i (le w n) rest h in
    (field_lem m i w n here small, rw (sym (length-le w n)) there)

abbrev pub IsWord : ℕ → Type 0
IsWord w = w < 2 ^ 64

pub words_lem :
    (m : Memory) (i : ℕ) (ws : List ℕ)
    → All IsWord ws
    → HasBytes m i (words_image ws)
    → read_words m i (length ws) ≡ ws
unfolding words_image read_words
words_lem m i [] small h = refl
words_lem m i (w ∷ ws) small h =
    let (here, there) = first_field m i 8 w (words_image ws) h (omega (arith, small.0)) in
    rw (here, words_lem m (8 + i) ws small.1 there) refl

pub length-words_image : (ws : List ℕ) → length (words_image ws) ≡ 8 * length ws
unfolding words_image
length-words_image [] = refl
length-words_image (w ∷ ws) =
    rw (length-append (le 8 w) (words_image ws), length-le 8 w, length-words_image ws) (omega arith)

-- The name fills its array, and the type its field.
abbrev pub FitsColumn : PacketColumn → Type 0
FitsColumn c = (length c.name ≡ 25) × (c.type < 2 ^ 16)

columns_lem :
    (m : Memory) (i : ℕ) (cs : List PacketColumn)
    → All FitsColumn cs
    → HasBytes m i (columns_image cs)
    → (read_columns m i (length cs) ≡ cs)
unfolding columns_image column_image read_columns
columns_lem m i [] fits h = refl
columns_lem m i (c ∷ cs) fits h =
    let (here, there) = HasBytes-append m i (c.name ++ le 2 c.type) (columns_image cs) h in
    let (named, typed) = HasBytes-append m i c.name (le 2 c.type) here in
    let name_is : read m i 25 ≡ c.name = rw (sym fits.0.0) (read_lem m i c.name named) in
    let type_is : field m (25 + i) 2 ≡ c.type =
      field_lem m (25 + i) 2 c.type (rw (sym fits.0.0) typed) (omega (arith, fits.0.1)) in
    let long : length (c.name ++ le 2 c.type) ≡ 27 =
      rw (length-append c.name (le 2 c.type), length-le 2 c.type, fits.0.0) refl in
    rw (name_is, type_is, columns_lem m (27 + i) cs fits.1 (rw (sym long) there)) refl

length-columns_image :
    (cs : List PacketColumn) → All FitsColumn cs → length (columns_image cs) ≡ 27 * length cs
unfolding columns_image column_image
length-columns_image [] fits = refl
length-columns_image (c ∷ cs) fits =
    rw
      (
        length-append (c.name ++ le 2 c.type) (columns_image cs),
        length-append c.name (le 2 c.type),
        length-le 2 c.type,
        fits.0.0,
        length-columns_image cs fits.1,
      )
      (omega arith)

-- The fields are within their widths, and the array of columns is full.
pub record FitsMetadata (p : ResultMetaDataPacket) : Type 0 where
  pub type_fits : p.type < 2 ^ 8
  pub status_fits : p.status < 2 ^ 16
  pub num_columns_fits : p.num_columns < 2 ^ 32
  pub size_fits : p.result_packet_size < 2 ^ 32
  pub columns_fit : All FitsColumn p.columns
  pub columns_full : length p.columns ≡ 20
  pub terminator_fits : p.terminator < 2 ^ 8

pub deserialize_result_meta_data_packet_lem :
    (m : Memory) (p : ResultMetaDataPacket)
    → FitsMetadata p
    → HasBytes m 0 (metadata_image p)
    → deserialize_result_meta_data_packet m ≡ p
unfolding deserialize_result_meta_data_packet metadata_image
deserialize_result_meta_data_packet_lem m p fits h =
    let (a, h1) = first_field m 0 1 p.type _ h (omega (arith, fits.type_fits)) in
    let (b, h2) = first_field m 1 2 p.status _ h1 (omega (arith, fits.status_fits)) in
    let (c, h3) = first_field m 3 4 p.num_columns _ h2 (omega (arith, fits.num_columns_fits)) in
    let (d, h4) = first_field m 7 4 p.result_packet_size _ h3 (omega (arith, fits.size_fits)) in
    let (h5, h6) = HasBytes-append m 11 (columns_image p.columns) (le 1 p.terminator) h4 in
    let long : length (columns_image p.columns) ≡ 540 =
      rw (length-columns_image p.columns fits.columns_fit, fits.columns_full) refl in
    let e : read_columns m 11 20 ≡ p.columns =
      rw (sym fits.columns_full) (columns_lem m 11 p.columns fits.columns_fit h5) in
    let f : field m 551 1 ≡ p.terminator =
      field_lem m 551 1 p.terminator (subst (λ k. HasBytes m (k + 11) (le 1 p.terminator)) long h6)
        (omega (arith, fits.terminator_fits)) in
    rw (a, b, c, d, e, f) refl

pub length-metadata_image :
    (p : ResultMetaDataPacket) → FitsMetadata p → length (metadata_image p) ≡ 552
unfolding metadata_image le
length-metadata_image p fits =
    let tail : length (columns_image p.columns ++ p.terminator % 256 ∷ []) ≡ 541 =
      rw
        (
          length-append (columns_image p.columns) (p.terminator % 256 ∷ []),
          length-columns_image p.columns fits.columns_fit,
          fits.columns_full,
        )
        refl in
    rw (tail) refl

pub length-header_image : (p : ResultPacket) → length (header_image p) ≡ 9
unfolding header_image le
length-header_image p = refl

-- The header of a result packet, read back.
pub header_lem :
    (m : Memory) (p : ResultPacket)
    → HasBytes m 0 (header_image p)
    → p.type < 2 ^ 8
    → p.status < 2 ^ 16
    → p.row_len < 2 ^ 16
    → p.result_size < 2 ^ 32
    → (field m 0 1 ≡ p.type)
      × (field m 1 2 ≡ p.status)
      × (field m 3 2 ≡ p.row_len)
      × (field m 5 4 ≡ p.result_size)
unfolding header_image
header_lem m p h type_fits status_fits row_len_fits size_fits =
    let (a, h1) = first_field m 0 1 p.type _ h (omega (arith, type_fits)) in
    let (b, h2) = first_field m 1 2 p.status _ h1 (omega (arith, status_fits)) in
    let (c, h3) = first_field m 3 2 p.row_len _ h2 (omega (arith, row_len_fits)) in
    (a, b, c, field_lem m 5 4 p.result_size h3 (omega (arith, size_fits)))
