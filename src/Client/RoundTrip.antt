-- ===== src/Client/RoundTrip.antt =====
-- Results from SendResult to the client's Result.
pub mod Query
pub mod Command
use native.Mathlib.Nat.{div-eq_of_eq-mul_left}
use open_mem_db.Prelude.{
  ℕ, suc, ◌+◌, ◌*◌, ◌/◌, ◌%◌, ◌^◌, ◌<◌, ◌≤◌, ◌≡◌, refl, sym, ap, Option, none, some, List, [], ◌∷◌,
  ◌++◌, map, arith, length, replicate, All, length-append, All-append, true, false, ◌&&◌, leb, ◌==◌,
}
use open_mem_db.Result.{RecordData, success}
use open_mem_db.Engine.{QueryData}
use open_mem_db.Wire.{Memory, HasBytes, field, read}
use open_mem_db.Wire.Packets.{
  PacketColumn, ResultMetaDataPacket, ResultPacket, metadata_image, header_image, words_image,
  the_terminator,
}
use open_mem_db.Wire.Server.{
  fill, packet_columns, query_metadata, query_packet, serialize_metadata_packet,
  serialize_result_packet, all_words, record_words, zero_columns,
}
use open_mem_db.Wire.Images.{
  IsWord, FitsColumn, FitsMetadata, words_lem, length-words_image, length-metadata_image,
  deserialize_result_meta_data_packet_lem, header_lem, length-header_image,
}
use open_mem_db.Wire.Laws.{
  fill_lem, fill_exact, length-read, received-HasBytes, serialize_metadata_packet-HasBytes, packet,
  header-HasBytes, words-HasBytes,
}
use open_mem_db.Client.{
  received, deserialize_result_meta_data_packet, deserialize_result_packet, parse_data, parse_rows,
  parse_columns,
}
use open_mem_db.Client.Rows.{
  IsDescribed, described, IsSendable, packet_columns_lem, all_words-IsWord, length-all_words,
  parse_rows_lem,
}

-- A query's data that the packets have room for: between one and twenty columns, with names and
-- types that fit, records of as many cells, and a size within 32 bits.
pub record Sendable (d : QueryData) : Type 0 where
  pub has_columns : 0 < length d.metadata
  pub few_columns : length d.metadata ≤ 20
  pub columns_described : All IsDescribed d.metadata
  pub records_wide : All (IsSendable (length d.metadata)) d.records
  pub size_fits : 10 + 8 * (length d.metadata * length d.records) < 2 ^ 32

-- The size of the data in bytes.
abbrev pub data_size : QueryData → ℕ
data_size d = 8 * (length d.metadata * length d.records)

abbrev pub sent_packet : QueryData → ResultPacket
sent_packet d =
    packet 5 0 (length d.metadata) (data_size d) the_terminator (some (all_words d.records))

module _ (d : QueryData) (h : Sendable d) where
  pub query_packet_lem : query_packet success d ≡ some (sent_packet d)
  unfolding query_packet
  query_packet_lem =
      let c : length d.metadata % 2 ^ 16 ≡ length d.metadata = omega (arith, h.few_columns) in
      let s : data_size d % 2 ^ 32 ≡ data_size d = omega (arith, h.size_fits) in
      let filled =
        fill_exact (length d.metadata * length d.records) 0 (all_words d.records)
          (length-all_words (length d.metadata) d.records h.records_wide) in
      rw (c, query_packet) (rw (filled, query_packet) (rw (c, s) refl))

  -- What DeserializeResultPacket reads: all but the terminator.
  deserialized :
      (m : Memory)
      → HasBytes m 0 (header_image (sent_packet d))
      → HasBytes m 10 (words_image (all_words d.records))
      → deserialize_result_packet (10 + data_size d) m
        ≡ some (
            packet 5 0
              (length d.metadata)
              (data_size d)
              (field m (10 + data_size d + 1) 1)
              (some (all_words d.records)))
  unfolding deserialize_result_packet
  deserialized m header words =
      let (a, b, c, e) =
        header_lem m (sent_packet d) header (omega arith) (omega arith)
          (omega (arith, h.few_columns)) (omega (arith, h.size_fits)) in
      let wide = length-all_words (length d.metadata) d.records h.records_wide in
      let count : data_size d / 8 ≡ length (all_words d.records) = omega (arith, wide) in
      let back =
        words_lem m 10 (all_words d.records)
          (all_words-IsWord (length d.metadata) d.records h.records_wide) words in
      let inside : (leb (10 + data_size d) (10 + data_size d) && (data_size d % 8 == 0)) ≡ true =
        ground arith in
      rw (a, b, c, e, deserialize_result_packet) (rw (inside, count, back) refl)

  row_count : data_size d / (length d.metadata * 8) ≡ length d.records
  row_count =
      let positive : 0 < length d.metadata * 8 = omega (arith, h.has_columns) in
      let whole : data_size d ≡ length d.records * (length d.metadata * 8) = grind arith in
      div-eq_of_eq-mul_left positive whole

  -- The client reads the packet's size and rows.
  pub parse_data_lem :
      (m : Memory)
      → HasBytes m 0 (header_image (sent_packet d))
      → HasBytes m 10 (words_image (all_words d.records))
      → (p : ResultPacket) × (deserialize_result_packet (10 + data_size d) m ≡ some p)
        × (parse_data p ≡ some (map record_words d.records ++ [] ∷ []))
  unfolding parse_data
  parse_data_lem m header words =
      let nonzero : (length d.metadata * 8 == 0) ≡ false = ground (arith, h.has_columns) in
      let rows = parse_rows_lem (length d.metadata) d.records h.records_wide in
      (
        packet 5 0 (length d.metadata) (data_size d) (field m (10 + data_size d + 1) 1)
            (some (all_words d.records)),
        deserialized m header words,
        rw (nonzero, parse_data) (rw (row_count, rows) refl),
      )
