-- ===== src/Client/RoundTrip/Query.antt =====
-- A query's result from SendResult of database/source/workmanager/work_manager.cc to
-- parseQueryResult of database/libomdb/connection.cc.
use open_mem_db.Prelude.{
  ℕ, ◌+◌, ◌-◌, ◌%◌, ◌^◌, ◌≤◌, ◌≡◌, refl, some, List, [], ◌∷◌, ◌++◌, map, arith, length,
  length-append, replicate, All-append, true,
}
use open_mem_db.Result.{success}
use open_mem_db.Engine.{QueryData, of_query}
use open_mem_db.Wire.{Memory, read}
use open_mem_db.Wire.Packets.{
  ResultMetaDataPacket, ResultPacket, metadata_image, header_image, words_image, sizeof_metadata,
  the_terminator,
}
use open_mem_db.Wire.Server.{
  accepted, query_metadata, serialize_metadata_packet, serialize_result_packet, send_packets,
  send_query, send_result, send_both, connection_send, taken, all_words, record_words,
}
use open_mem_db.Wire.Images.{
  FitsColumn, FitsMetadata, length-metadata_image, deserialize_result_meta_data_packet_lem,
  length-words_image, length-header_image,
}
use open_mem_db.Wire.Laws.{
  fill_lem, take_all, length-read, received-HasBytes, serialize_metadata_packet-HasBytes,
  header-HasBytes, words-HasBytes,
}
use open_mem_db.Client.{
  received, deserialize_result_meta_data_packet, deserialize_result_packet, parse_meta_data,
  parse_data, ResultHolder, parse_query_result, send_message, bytes,
}
use open_mem_db.Client.Rows.{
  zero_column, zero_columns_fit, length_zero_columns, described, packet_columns_lem,
  length-all_words,
}
use open_mem_db.Client.RoundTrip.{
  Sendable, data_size, sent_packet, query_packet_lem, parse_data_lem,
}

module _ (d : QueryData) (h : Sendable d) where
  -- The metadata packet that SendResult makes, and what the client takes from it.
  metadata_lem :
      (p : ResultMetaDataPacket) × (query_metadata success d (10 + data_size d) ≡ some p)
      × FitsMetadata p
      × (p.result_packet_size ≡ 10 + data_size d)
      × (p.status ≡ 0)
      × (parse_meta_data p ≡ some (map described d.metadata))
  unfolding query_metadata parse_meta_data
  metadata_lem =
      let room = 20 - length d.metadata in
      let (ps, ran, fits, long, parsed) =
        packet_columns_lem d.metadata (replicate room zero_column) h.columns_described in
      let (k, e, filled) = fill_lem 20 zero_column ps (omega (arith, long, h.few_columns)) in
      let same : k ≡ room = omega (arith, e, long) in
      (
        record {
          type = 4;
          status = 0;
          num_columns = length d.metadata;
          result_packet_size = 10 + data_size d;
          columns = ps ++ replicate room zero_column;
          terminator = the_terminator;
        },
        rw (ran, query_metadata) (rw (filled, query_metadata) (rw (same) refl)),
        record {
          type_fits = omega arith;
          status_fits = omega arith;
          num_columns_fits = omega (arith, h.few_columns);
          size_fits = omega (arith, h.size_fits);
          columns_fit =
              All-append FitsColumn ps (replicate room zero_column) fits (zero_columns_fit room);
          columns_full = omega (
            arith,
            length-append ps (replicate room zero_column),
            length_zero_columns room,
            long,
            h.few_columns,
          );
          terminator_fits = omega arith;
        },
        refl,
        refl,
        parsed,
      )

  -- The bytes of the data packet's buffer that are sent.
  abbrev data_bytes : Memory → List ℕ
  data_bytes heap = read (serialize_result_packet heap (sent_packet d)) 0 (10 + data_size d)

  metadata_bytes : Memory → ResultMetaDataPacket → List ℕ
  metadata_bytes heap p = read (serialize_metadata_packet heap p) 0 sizeof_metadata

  sends :
      (n1 n2 : ℕ) (heap1 heap2 : Memory)
      → 552 ≤ n1
      → 10 + data_size d ≤ n2
      → send_result true (accepted n1) (accepted n2) heap1 heap2 (of_query d)
        ≡ some (record {
          returned = true;
          sent = metadata_bytes heap1 metadata_lem.0 ∷ data_bytes heap2 ∷ [];
        })
  unfolding send_result send_query send_packets send_both connection_send taken metadata_bytes
  sends n1 n2 heap1 heap2 e1 e2 =
      let (p, ran, fits, size_is, status_is, parsed) = metadata_lem in
      let size : (9 + data_size d + 1) % 2 ^ 32 ≡ 10 + data_size d = omega (arith, h.size_fits) in
      rw (query_packet_lem d h, send_query)
        (rw (size, send_query)
          (rw (ran, send_query)
            (rw
              (
                size_is,
                take_all n1 (metadata_bytes heap1 p)
                    (omega (arith, length-read (serialize_metadata_packet heap1 p) 0 552, e1)),
                take_all n2 (data_bytes heap2) (
                    omega (
                      arith,
                      e2,
                      length-read (serialize_result_packet heap2 (sent_packet d)) 0
                          (10 + data_size d),
                    )),
              )
              refl)))

  -- The client reads the metadata packet that was sent.
  client_metadata :
      (heap m : Memory)
      → deserialize_result_meta_data_packet (received m (metadata_bytes heap metadata_lem.0))
        ≡ metadata_lem.0
  unfolding metadata_bytes
  client_metadata heap m =
      let (p, ran, fits, size_is, status_is, parsed) = metadata_lem in
      deserialize_result_meta_data_packet_lem (received m (metadata_bytes heap p)) p fits (
        received-HasBytes m (serialize_metadata_packet heap p) 552 0 (metadata_image p)
          (serialize_metadata_packet-HasBytes heap p) (omega (arith, length-metadata_image p fits)))

  client_rows :
      (heap m : Memory)
      → (p : ResultPacket) × (deserialize_result_packet
            (10 + data_size d)
            (received m (data_bytes heap))
          ≡ some p)
        × (parse_data p ≡ some (map record_words d.records ++ [] ∷ []))
  client_rows heap m =
      let words = all_words d.records in
      let wide = length-all_words (length d.metadata) d.records h.records_wide in
      let buffer = serialize_result_packet heap (sent_packet d) in
      let size : ℕ = 10 + data_size d in
      parse_data_lem d h (received m (data_bytes heap))
        (received-HasBytes m buffer size 0 (header_image (sent_packet d))
          (header-HasBytes heap 5 0 (length d.metadata) (data_size d) the_terminator (some words))
          (omega (arith, length-header_image (sent_packet d))))
        (received-HasBytes m buffer size 10 (words_image words)
          (words-HasBytes heap 5 0 (length d.metadata) (data_size d) the_terminator words
            (omega (arith, wide)))
          (omega (arith, length-words_image words, wide)))

  -- The data of a query that fits its packets (between one and twenty columns, with names shorter
  -- than 25 characters, and records of as many cells): on a valid connection, when the system takes
  -- both packets whole, SendResult succeeds, and a client that receives them gets the words of every
  -- row in order, with the empty row last, the name and the type of every column, and the status of
  -- success.
  pub parse_query_result-send_result :
      (n1 n2 k : ℕ) (heap1 heap2 m1 m2 : Memory)
      → 552 ≤ n1
      → 10 + data_size d ≤ n2
      → (b1 : List ℕ) × (b2 : List ℕ) × (holder : ResultHolder) × (send_result true
            (accepted n1)
            (accepted n2)
            heap1
            heap2
            (of_query d)
          ≡ some (record { returned = true; sent = b1 ∷ b2 ∷ [] }))
        × (send_message (accepted k) (bytes b1) (λ size. bytes b2) m1 m2 ≡ some holder)
        × (parse_query_result holder
            ≡ some (record {
              rows = map record_words d.records ++ [] ∷ [];
              meta_data = map described d.metadata;
              status = 0;
            }))
  unfolding send_message parse_query_result metadata_bytes
  parse_query_result-send_result n1 n2 k heap1 heap2 m1 m2 e1 e2 =
      let (p, ran, fits, size_is, status_is, parsed) = metadata_lem in
      let b1 = metadata_bytes heap1 p in
      let (packet, read_it, rows) = client_rows heap2 m2 in
      let b2 = data_bytes heap2 in
      (
        b1,
        b2,
        record {
          meta_data_packet = received m1 b1;
          result_packet = received m2 b2;
          result_packet_length = 10 + data_size d;
        },
        sends n1 n2 heap1 heap2 e1 e2,
        rw
            (
              take_all 552 b1
                  (omega (arith, length-read (serialize_metadata_packet heap1 p) 0 552)),
              client_metadata heap1 m1,
              size_is,
              take_all (10 + data_size d) b2 (
                  omega (
                    arith,
                    length-read (serialize_result_packet heap2 (sent_packet d)) 0
                        (10 + data_size d),
                  )),
            )
            refl,
        rw (read_it, parse_query_result)
            (rw (rows, parse_query_result)
              (rw (client_metadata heap1 m1, parse_query_result)
                (rw (parsed, parse_query_result) (rw (client_metadata heap1 m1, status_is) refl)))),
      )
