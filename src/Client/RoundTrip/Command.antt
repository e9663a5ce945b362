-- ===== src/Client/RoundTrip/Command.antt =====
-- A command's result from SendResult of database/source/workmanager/work_manager.cc to
-- parseCommandResult of database/libomdb/connection.cc.
use open_mem_db.Prelude.{
  ℕ, ◌%◌, ◌^◌, ◌<◌, ◌≤◌, ◌≡◌, refl, some, none, List, [], ◌∷◌, arith, true, false, Option, ◌+◌,
  ◌&&◌, leb, ◌==◌, ==_iff, Bool-cases, inl, inr, if◌then◌else◌,
}
use open_mem_db.Result.{
  ManipResult, ResultStatus, success, failure, failure_db_unknown_state, failure_out_memory,
  failure_syntax, ManipStatus, done, err, err_unknown_statement, err_no_memory, err_table_not_exist,
  err_table_cmd_invalid, err_contention, err_partial, err_partial_contention, err_failed_constraint,
}
use open_mem_db.Engine.{of_command}
use open_mem_db.Wire.{Memory, read}
use open_mem_db.Wire.Packets.{
  status_code, manip_code, ResultPacket, metadata_image, header_image, sizeof_metadata,
  the_terminator,
}
use open_mem_db.Wire.Server.{
  accepted, command_metadata, command_packet_of, serialize_metadata_packet, serialize_result_packet,
  send_packets, send_result, send_both, connection_send, taken,
}
use open_mem_db.Wire.Images.{
  FitsMetadata, length-metadata_image, deserialize_result_meta_data_packet_lem, header_lem,
  length-header_image,
}
use open_mem_db.Wire.Laws.{
  take_all, length-read, received-HasBytes, serialize_metadata_packet-HasBytes, packet,
  header-HasBytes,
}
use open_mem_db.Client.{
  received, deserialize_result_meta_data_packet, deserialize_result_packet, ResultHolder,
  parse_command_result, send_message, bytes, CommandResult, pos, to_int,
}
use open_mem_db.Client.Rows.{zero_columns_fit}

status_small : (s : ResultStatus) → status_code s < 5
status_small success = omega arith
status_small failure = omega arith
status_small failure_db_unknown_state = omega arith
status_small failure_out_memory = omega arith
status_small failure_syntax = omega arith

manip_small : (s : ManipStatus) → manip_code s < 10
manip_small done = omega arith
manip_small err = omega arith
manip_small err_unknown_statement = omega arith
manip_small err_no_memory = omega arith
manip_small err_table_not_exist = omega arith
manip_small err_table_cmd_invalid = omega arith
manip_small err_contention = omega arith
manip_small err_partial = omega arith
manip_small err_partial_contention = omega arith
manip_small err_failed_constraint = omega arith

-- What the client makes of a command's result: nothing that is defined, if rows were affected.
abbrev pub answer_of : ManipResult → Option CommandResult
answer_of r =
    if r.rows_affected == 0
    then some (record { status = status_code r.status; num_affected = pos 0 })
    else none

module _ (r : ManipResult) (few : r.rows_affected < 2 ^ 32) where
  abbrev sent : ResultPacket
  sent = packet 5 (status_code r.status) 0 r.rows_affected the_terminator none

  command_packet_lem : command_packet_of r ≡ sent
  unfolding command_packet_of
  command_packet_lem =
      let e : r.rows_affected % 2 ^ 32 ≡ r.rows_affected = omega (arith, few) in rw (e) refl

  metadata-FitsMetadata : FitsMetadata (command_metadata r)
  unfolding command_metadata
  metadata-FitsMetadata = record {
    type_fits = omega arith;
    status_fits = omega (arith, status_small r.status);
    num_columns_fits = omega (arith, manip_small r.result);
    size_fits = omega arith;
    columns_fit = zero_columns_fit 20;
    columns_full = refl;
    terminator_fits = omega arith;
  }

  metadata_bytes : Memory → List ℕ
  metadata_bytes heap = read (serialize_metadata_packet heap (command_metadata r)) 0 sizeof_metadata

  client_metadata :
      (heap m : Memory)
      → deserialize_result_meta_data_packet (received m (metadata_bytes heap)) ≡ command_metadata r
  unfolding metadata_bytes
  client_metadata heap m =
      deserialize_result_meta_data_packet_lem (received m (metadata_bytes heap))
        (command_metadata r) metadata-FitsMetadata
        (received-HasBytes m (serialize_metadata_packet heap (command_metadata r)) 552 0
          (metadata_image (command_metadata r))
          (serialize_metadata_packet-HasBytes heap (command_metadata r))
          (omega (arith, length-metadata_image (command_metadata r) metadata-FitsMetadata)))

  abbrev data_bytes : Memory → List ℕ
  data_bytes heap = read (serialize_result_packet heap sent) 0 10

  client_header :
      (heap meta m : Memory)
      → parse_command_result (record {
        meta_data_packet = meta;
        result_packet = received m (data_bytes heap);
        result_packet_length = 10;
      })
        ≡ answer_of r
  unfolding parse_command_result deserialize_result_packet to_int
  client_header heap meta m =
      let memory = received m (data_bytes heap) in
      let (a, b, c, e) =
        header_lem memory sent
          (received-HasBytes m (serialize_result_packet heap sent) 10 0 (header_image sent)
            (header-HasBytes heap 5 (status_code r.status) 0 r.rows_affected the_terminator none)
            (omega (arith, length-header_image sent)))
          (omega arith) (omega (arith, status_small r.status)) (omega arith) (omega (arith, few)) in
      elim (Bool-cases (r.rows_affected == 0)) [
        | inl no_row ↦
            (let zero_rows : r.rows_affected ≡ 0 = (==_iff r.rows_affected 0).0 no_row in
              rw (no_row, b, e, parse_command_result) (rw (zero_rows) refl))
        | inr rows ↦
            (let past : (leb (10 + r.rows_affected) 10 && (r.rows_affected % 8 == 0)) ≡ false =
                ground (arith, rows) in
              rw (rows, e, parse_command_result) (rw (past) refl))
      ]

  -- The result of a command that affected fewer than 2^32 rows: on a valid connection, when the
  -- system takes both packets whole, SendResult succeeds. A client that receives them gets the status
  -- and no rows affected if the command affected none; if it affected some, parseCommandResult copies
  -- as many bytes from past the end of the second packet, which is undefined.
  pub parse_command_result-send_result :
      (n1 n2 k : ℕ) (heap1 heap2 m1 m2 : Memory)
      → 552 ≤ n1
      → 10 ≤ n2
      → (b1 : List ℕ) × (b2 : List ℕ) × (holder : ResultHolder) × (send_result true
            (accepted n1)
            (accepted n2)
            heap1
            heap2
            (of_command r)
          ≡ some (record { returned = true; sent = b1 ∷ b2 ∷ [] }))
        × (send_message (accepted k) (bytes b1) (λ size. bytes b2) m1 m2 ≡ some holder)
        × (parse_command_result holder ≡ answer_of r)
  unfolding send_result send_packets send_both connection_send taken send_message command_metadata
      metadata_bytes
  parse_command_result-send_result n1 n2 k heap1 heap2 m1 m2 e1 e2 =
      let b1 = metadata_bytes heap1 in
      let b2 = data_bytes heap2 in
      let long1 = length-read (serialize_metadata_packet heap1 (command_metadata r)) 0 552 in
      let long2 = length-read (serialize_result_packet heap2 sent) 0 10 in
      (
        b1,
        b2,
        record {
          meta_data_packet = received m1 b1;
          result_packet = received m2 b2;
          result_packet_length = 10;
        },
        rw
            (
              command_packet_lem,
              take_all n1 b1 (omega (arith, long1, e1)),
              take_all n2 b2 (omega (arith, long2, e2)),
            )
            refl,
        rw
            (
              take_all 552 b1 (omega (arith, long1)),
              client_metadata heap1 m1,
              take_all 10 b2 (omega (arith, long2)),
            )
            refl,
        client_header heap2 (received m1 b1) m2,
      )
