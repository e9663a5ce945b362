-- ===== src/Tests/Packets.antt =====
-- Results and statements in packets, on a query with two columns and two rows.
use open_mem_db.Prelude.{
  ℕ, ◌≡◌, refl, true, false, some, List, [], ◌∷◌, map, ◌++◌, arith, length, replicate,
}
use open_mem_db.Types.{big_int, type_code}
use open_mem_db.Result.{manip, ManipResult, success, done}
use open_mem_db.Engine.{QueryData, of_query, of_command}
use open_mem_db.Wire.{Memory}
use open_mem_db.Wire.Packets.{codes}
use open_mem_db.Wire.Server.{
  accepted, would_block, send_result, record_words, serialize_result_packet, Delivery,
  connection_send, send_both, send_packets, taken,
}
use open_mem_db.Wire.Laws.{packet, serialize_result_packet_past}
use open_mem_db.Wire.Sending.{Faithful, send_result-Faithful}
use open_mem_db.Client.{
  Result, ResultHolder, parse_query_result, parse_command_result, pos, send_message, bytes,
}
use open_mem_db.Client.Cursor.{walk, walk_lem}
use open_mem_db.Client.Rows.{described}
use open_mem_db.Client.Request.{
  CommandPacket, sql_statement, build_packet, serialize_command_packet, command_message,
  command_buffer, command_message-build_packet,
}
use open_mem_db.Client.RoundTrip.{Sendable}
use open_mem_db.Client.RoundTrip.Query.{parse_query_result-send_result}
use open_mem_db.Client.RoundTrip.Command.{parse_command_result-send_result}
use open_mem_db.Tests.{cell, cell-Fits}

abbrev noise : Memory
noise i = 7

abbrev answer : QueryData
answer = record {
  metadata =
      record { name = "id"; type = type_code big_int }
      ∷ record { name = "v"; type = type_code big_int }
      ∷ [];
  records = (cell big_int 1 ∷ cell big_int 10 ∷ []) ∷ (cell big_int 2 ∷ cell big_int 20 ∷ []) ∷ [];
}

answer-Sendable : Sendable answer
unfolding codes
answer-Sendable = record {
  has_columns = omega arith;
  few_columns = omega arith;
  columns_described = omega arith;
  records_wide = (
    (refl, (cell-Fits 1 (omega arith), (cell-Fits 10 (omega arith), tt))),
    ((refl, (cell-Fits 2 (omega arith), (cell-Fits 20 (omega arith), tt))), tt),
  );
  size_fits = omega arith;
}

parse_query_result-send_result_example :
    (b1 : List ℕ) × (b2 : List ℕ) × (holder : ResultHolder) × (send_result true
        (accepted 552)
        (accepted 42)
        noise
        noise
        (of_query answer)
      ≡ some (record { returned = true; sent = b1 ∷ b2 ∷ [] }))
    × (send_message (accepted 303) (bytes b1) (λ size. bytes b2) noise noise ≡ some holder)
    × (parse_query_result holder
        ≡ some (record {
          rows = map record_words answer.records ++ [] ∷ [];
          meta_data = map described answer.metadata;
          status = 0;
        }))
parse_query_result-send_result_example =
    parse_query_result-send_result answer answer-Sendable 552 42 303 noise noise noise noise
      (omega arith) (omega arith)

abbrev inserted_one : ManipResult
inserted_one = record (manip success done) { rows_affected = 1 }

parse_command_result-send_result_example :
    (b1 : List ℕ) × (b2 : List ℕ) × (holder : ResultHolder) × (send_result true
        (accepted 552)
        (accepted 10)
        noise
        noise
        (of_command (manip success done))
      ≡ some (record { returned = true; sent = b1 ∷ b2 ∷ [] }))
    × (send_message (accepted 303) (bytes b1) (λ size. bytes b2) noise noise ≡ some holder)
    × (parse_command_result holder ≡ some (record { status = 0; num_affected = pos 0 }))
parse_command_result-send_result_example =
    parse_command_result-send_result (manip success done) (omega arith) 552 10 303 noise noise noise
      noise (omega arith) (omega arith)

abbrev refused : Delivery
refused = record { returned = false; sent = [] }

send_result-Faithful_example : Faithful true would_block (accepted 10) refused
unfolding send_result send_packets send_both connection_send taken
send_result-Faithful_example =
    send_result-Faithful true would_block (accepted 10) noise noise (of_command inserted_one)
      refused refl

serialize_result_packet_past_example :
    (serialize_result_packet noise (packet 5 0 2 16 255 (some (1 ∷ 2 ∷ []))) 26 ≡ 255)
    × (serialize_result_packet noise (packet 5 0 2 16 255 (some (1 ∷ 2 ∷ []))) 27 ≡ 7)
serialize_result_packet_past_example =
    serialize_result_packet_past noise 5 0 2 16 255 (1 ∷ 2 ∷ []) 27 refl (omega arith)

abbrev two_rows : Result
two_rows = record { rows = (1 ∷ 10 ∷ []) ∷ (2 ∷ 20 ∷ []) ∷ [] ∷ []; meta_data = []; status = 0 }

walk_lem_example : walk 3 two_rows 1 ≡ some (some 20 ∷ some 10 ∷ [])
walk_lem_example = walk_lem ((1 ∷ 10 ∷ []) ∷ (2 ∷ 20 ∷ []) ∷ []) two_rows 1 3 refl (omega arith)

command_message-build_packet_example :
    (p : CommandPacket) × (build_packet sql_statement (codes "SELECT * FROM t;") (replicate 300 7)
      ≡ some p)
    × (length (serialize_command_packet p) ≡ 303)
    × (command_message (command_buffer noise (serialize_command_packet p))
        ≡ some (codes "SELECT * FROM t;"))
unfolding codes
command_message-build_packet_example =
    command_message-build_packet sql_statement (codes "SELECT * FROM t;") (replicate 300 7) noise
      (omega arith) (omega arith) refl
