-- ===== src/Wire/Server.antt =====
-- The server's side of a result: serializeMetaDataPacket and serializeResultPacket of
-- database/source/util/common.cc, Connection::send of database/source/util/network/connection.cc and
-- WorkManager::SendResult of database/source/workmanager/work_manager.cc. The results of the system
-- call `send` are arguments. `none` is a write past an array on the stack or the heap; the bytes of
-- a fresh buffer are an argument, and its one byte too few is in the memory beyond it.
use open_mem_db.Prelude.{
  ℕ, zero, suc, ◌+◌, ◌*◌, ◌%◌, ◌^◌, Bool, true, false, Option, none, some, List, [], ◌∷◌, ◌++◌,
  length, replicate,
}
use open_mem_db.Types.{pack}
use open_mem_db.Result.{ManipResult, RecordData, ResultStatus, success}
use open_mem_db.Engine.{ResultColumn, QueryData, JointResult, of_command, of_query}
use open_mem_db.Wire.{Memory, write, read}
use open_mem_db.Wire.Packets.{
  packet_code, result_metadata, result_data, status_code, manip_code, the_terminator, col_name_len,
  max_num_columns, PacketColumn, ResultMetaDataPacket, ResultPacket, sizeof_metadata, codes,
  metadata_image, header_image, words_image,
}

module _ {ℓ} {A : Type ℓ} where
  unfoldable pub take : ℕ → List A → List A
  take zero xs = []
  take (suc n) [] = []
  take (suc n) (x ∷ xs) = x ∷ take n xs

  -- The values written into an array from its start: none where they are too many.
  unfoldable pub fill : List A → List A → Option (List A)
  fill array [] = some array
  fill [] (v ∷ vs) = none
  fill (x ∷ array) (v ∷ vs) = elim (fill array vs) [ none ↦ none | some rest ↦ some (v ∷ rest) ]

-- serializeMetaDataPacket
unfoldable pub serialize_metadata_packet : Memory → ResultMetaDataPacket → Memory
serialize_metadata_packet m p = write (write m 0 (replicate sizeof_metadata 0)) 0 (metadata_image p)

-- serializeResultPacket
unfoldable pub serialize_result_packet : Memory → ResultPacket → Memory
serialize_result_packet m p =
    let headed = write m 0 (header_image p) in
    elim p.data_words [
      | none ↦ write headed 10 (p.terminator ∷ [])
      | some ws ↦
          write (write headed 10 (take p.result_size (words_image ws))) (9 + p.result_size + 1)
            (p.terminator ∷ [])
    ]

-- What the system call `send` returns: a count, or -1 with `errno`.
pub data SysSend : Type 0 where
  accepted : ℕ → SysSend
  would_block : SysSend
  failed : ℕ → SysSend

-- NetworkStatusCodes, those of `send`
pub data SendStatus : Type 0 where
  d_send_full d_send_part e_send : SendStatus

-- Connection::send, its status code
unfoldable pub connection_send : Bool → SysSend → SendStatus
connection_send false r = e_send
connection_send true (accepted n) = d_send_full
connection_send true would_block = d_send_part
connection_send true (failed e) = e_send

-- The bytes of the buffer that the system takes.
unfoldable pub taken : Bool → SysSend → List ℕ → List ℕ
taken true (accepted n) buffer = take n buffer
taken valid r buffer = []

-- What SendResult returns, and the bytes that each call of `send` takes.
pub record Delivery : Type 0 where
  pub returned : Bool
  pub sent : List (List ℕ)

-- The end of both branches of SendResult: the second packet goes out only after the first.
unfoldable pub send_both : Bool → SysSend → SysSend → List ℕ → List ℕ → Delivery
send_both valid r1 r2 first second = elim (connection_send valid r1) [
  | d_send_full ↦ elim (connection_send valid r2) [
    | d_send_full ↦ record {
      returned = true;
      sent = taken valid r1 first ∷ taken valid r2 second ∷ [];
    }
    | _ ↦ record { returned = false; sent = taken valid r1 first ∷ [] }
  ]
  | _ ↦ record { returned = false; sent = [] }
]

-- `strcpy` of a column's name into the zeroed array, and its type
unfoldable pub packet_column : ResultColumn → Option PacketColumn
packet_column c = elim (fill (replicate col_name_len 0) (codes c.name ++ 0 ∷ [])) [
  | none ↦ none
  | some bytes ↦ some (record { name = bytes; type = c.type })
]

unfoldable pub packet_columns : List ResultColumn → Option (List PacketColumn)
packet_columns [] = some []
packet_columns (c ∷ cs) = elim (packet_column c) [
  | none ↦ none
  | some p ↦ elim (packet_columns cs) [ none ↦ none | some ps ↦ some (p ∷ ps) ]
]

-- The words of the records, one after the other, with Tervel's status bits cleared.
unfoldable pub record_words : RecordData → List ℕ
record_words [] = []
record_words (d ∷ ds) = pack (record d { tervel_status = 0 }) ∷ record_words ds

unfoldable pub all_words : List RecordData → List ℕ
all_words [] = []
all_words (r ∷ rs) = record_words r ++ all_words rs

abbrev pub zero_columns : List PacketColumn
zero_columns = replicate max_num_columns (record { name = replicate col_name_len 0; type = 0 })

-- metadata_packet of the QUERY branch, once the size of the other packet is known
unfoldable pub query_metadata : ResultStatus → QueryData → ℕ → Option ResultMetaDataPacket
query_metadata success d size = elim (packet_columns d.metadata) [
  | none ↦ none
  | some cs ↦ elim (fill zero_columns cs) [
    | none ↦ none
    | some array ↦ some (record {
      type = packet_code result_metadata;
      status = status_code success;
      num_columns = length d.metadata;
      result_packet_size = size;
      columns = array;
      terminator = the_terminator;
    })
  ]
]
query_metadata s d size = some (record {
  type = packet_code result_metadata;
  status = status_code s;
  num_columns = 0;
  result_packet_size = size;
  columns = zero_columns;
  terminator = the_terminator;
})

-- result_packet of the QUERY branch; the sizes are a uint16_t and a uint32_t.
unfoldable pub query_packet : ResultStatus → QueryData → Option ResultPacket
query_packet success d =
    let row_len = length d.metadata % 2 ^ 16 in
    let result_size = 8 * (row_len * length d.records) in
    elim (fill (replicate (row_len * length d.records) 0) (all_words d.records)) [
      | none ↦ none
      | some words ↦ some (record {
        type = packet_code result_data;
        status = status_code success;
        row_len = row_len;
        result_size = result_size % 2 ^ 32;
        data_words = some words;
        terminator = the_terminator;
      })
    ]
query_packet s d = some (record {
  type = packet_code result_data;
  status = status_code s;
  row_len = 0;
  result_size = 0;
  data_words = none;
  terminator = 0;
})

-- The packets of the COMMAND branch
unfoldable pub command_metadata : ManipResult → ResultMetaDataPacket
command_metadata r = record {
  type = packet_code result_metadata;
  status = status_code r.status;
  num_columns = manip_code r.result;
  result_packet_size = 10;
  columns = zero_columns;
  terminator = the_terminator;
}

unfoldable pub command_packet_of : ManipResult → ResultPacket
command_packet_of r = record {
  type = packet_code result_data;
  status = status_code r.status;
  row_len = 0;
  result_size = r.rows_affected % 2 ^ 32;
  data_words = none;
  terminator = the_terminator;
}

-- A connection, whether it is valid, what `send` returns for each packet, and the memory that the
-- two buffers get.
module _ (valid : Bool) (r1 r2 : SysSend) (heap1 heap2 : Memory) where
  -- Both packets serialised into buffers of their sizes, and sent.
  unfoldable pub send_packets : ResultMetaDataPacket → ResultPacket → Delivery
  send_packets metadata result =
      send_both valid r1 r2 (read (serialize_metadata_packet heap1 metadata) 0 sizeof_metadata)
        (read (serialize_result_packet heap2 result) 0 metadata.result_packet_size)

  unfoldable pub send_query : ResultStatus → QueryData → Option Delivery
  send_query s d = elim (query_packet s d) [
    | none ↦ none
    | some result ↦ elim (query_metadata s d ((9 + result.result_size + 1) % 2 ^ 32)) [
      | none ↦ none
      | some metadata ↦ some (send_packets metadata result)
    ]
  ]

  -- SendResult
  unfoldable pub send_result : JointResult → Option Delivery
  send_result (of_query d) = send_query success d
  send_result (of_command r) = some (send_packets (command_metadata r) (command_packet_of r))
