-- ===== src/Client.antt =====
-- The client library: database/libomdb/serialization_helper.cc, the parsing and the exchange of
-- database/libomdb/connection.cc, and database/libomdb/libomdb_result.cc. What the socket calls
-- return is an argument. `none` is a division by zero, an exception or a read past an array.
pub mod Cursor
pub mod Rows
pub mod RoundTrip
pub mod Request
use open_mem_db.Prelude.{
  ℕ, zero, suc, ◌+◌, ◌*◌, ◌-◌, ◌&&◌, ◌/◌, ◌%◌, ◌^◌, Bool, true, false, Option, none, some, List, [],
  ◌∷◌, ◌++◌, if◌then◌else◌, ltb, leb, ◌==◌, length,
}
use open_mem_db.Wire.{Memory, write, field}
use open_mem_db.Wire.Packets.{
  PacketColumn, ResultMetaDataPacket, ResultPacket, read_columns, read_words, max_num_columns,
  sizeof_metadata,
}
use open_mem_db.Wire.Server.{take, SysSend, accepted, would_block, failed}

-- The memory after a call of `recv` has put bytes into a buffer.
unfoldable pub received : Memory → List ℕ → Memory
received m bytes = write m 0 bytes

-- DeserializeResultMetaDataPacket
unfoldable pub deserialize_result_meta_data_packet : Memory → ResultMetaDataPacket
deserialize_result_meta_data_packet m = record {
  type = field m 0 1;
  status = field m 1 2;
  num_columns = field m 3 4;
  result_packet_size = field m 7 4;
  columns = read_columns m 11 max_num_columns;
  terminator = field m 551 1;
}

-- DeserializeResultPacket, of a buffer of some length: none where the copy of the data reads past
-- the buffer, or writes past the array of whole words that it goes into. The terminator, which
-- nothing uses, is read one byte past the buffer of a packet that is received whole; it is what the
-- memory holds there.
unfoldable pub deserialize_result_packet : ℕ → Memory → Option ResultPacket
deserialize_result_packet length m =
    let size = field m 5 4 in
    if leb (10 + size) length && (size % 8 == 0)
    then some (record {
      type = field m 0 1;
      status = field m 1 2;
      row_len = field m 3 2;
      result_size = size;
      data_words = some (read_words m 10 (size / 8));
      terminator = field m (10 + size + 1) 1;
    })
    else none

-- struct MetaDataColumn: the member `type` is never set.
pub record MetaDataColumn : Type 0 where
  pub label : List ℕ
  pub sql_type : ℕ

-- Integers
pub data ℤ : Type 0 where
  pos negsuc : ℕ → ℤ

-- The conversion of a uint32_t to an int
unfoldable pub to_int : ℕ → ℤ
to_int n = if ltb n (2 ^ 31) then pos n else negsuc (2 ^ 32 - 1 - n)

-- struct CommandResult
pub record CommandResult : Type 0 where
  pub status : ℕ
  pub num_affected : ℤ

-- class Result: a ResultRow is its words.
pub record Result : Type 0 where
  pub rows : List (List ℕ)
  pub meta_data : List MetaDataColumn
  pub status : ℕ

unfoldable pub drop : ℕ → List ℕ → List ℕ
drop zero xs = xs
drop (suc n) [] = []
drop (suc n) (x ∷ xs) = drop n xs

-- The loops of parseData, over the words from `dataPointer` on
unfoldable pub parse_rows : ℕ → ℕ → List ℕ → List (List ℕ)
parse_rows zero row_len words = []
parse_rows (suc n) row_len words = take row_len words ∷ parse_rows n row_len (drop row_len words)

-- The words that a pointer to them reaches.
abbrev words_of : Option (List ℕ) → List ℕ
words_of none = []
words_of (some ws) = ws

-- parseData: an empty row comes last.
unfoldable pub parse_data : ResultPacket → Option (List (List ℕ))
parse_data p =
    if p.row_len * 8 == 0
    then none
    else some
        (parse_rows (p.result_size / (p.row_len * 8)) p.row_len (words_of p.data_words) ++ [] ∷ [])

-- std::string of an array of characters: the bytes before the first zero
unfoldable pub c_string : List ℕ → Option (List ℕ)
c_string [] = none
c_string (b ∷ bs) = elim (c_string bs) [
  | none ↦ if b == 0 then some [] else none
  | some rest ↦ if b == 0 then some [] else some (b ∷ rest)
]

-- parseMetaData: `packet.columns` has `max_num_columns` elements.
unfoldable pub parse_columns : ℕ → List PacketColumn → Option (List MetaDataColumn)
parse_columns zero cs = some []
parse_columns (suc n) [] = none
parse_columns (suc n) (c ∷ cs) = elim (c_string c.name) [
  | none ↦ none
  | some label ↦ elim (parse_columns n cs) [
    | none ↦ none
    | some rest ↦ some (record { label = label; sql_type = c.type } ∷ rest)
  ]
]

unfoldable pub parse_meta_data : ResultMetaDataPacket → Option (List MetaDataColumn)
parse_meta_data p = parse_columns p.num_columns p.columns

-- struct ResultHolder: the memory of the two packets, and the size of the second's buffer
pub record ResultHolder : Type 0 where
  pub meta_data_packet : Memory
  pub result_packet : Memory
  pub result_packet_length : ℕ

-- parseCommandResult
unfoldable pub parse_command_result : ResultHolder → Option CommandResult
parse_command_result holder =
    elim (deserialize_result_packet holder.result_packet_length holder.result_packet) [
      | none ↦ none
      | some packet ↦
          some (record { status = packet.status; num_affected = to_int packet.result_size })
    ]

-- parseQueryResult
unfoldable pub parse_query_result : ResultHolder → Option Result
parse_query_result holder =
    let meta = deserialize_result_meta_data_packet holder.meta_data_packet in
    elim (deserialize_result_packet holder.result_packet_length holder.result_packet) [
      | none ↦ none
      | some packet ↦ elim (parse_data packet) [
        | none ↦ none
        | some rows ↦ elim (parse_meta_data meta) [
          | none ↦ none
          | some columns ↦ some (record { rows = rows; meta_data = columns; status = meta.status })
        ]
      ]
    ]

-- A call of `recv`: the bytes that come, or -1
pub data SysRecv : Type 0 where
  bytes : List ℕ → SysRecv
  recv_failed : SysRecv

-- The exchange of sendMessage after the packet is built: `recv` puts at most the length asked for
-- into memory. The result is none for the holder that is left empty.
unfoldable pub send_message :
    SysSend → SysRecv → (ℕ → SysRecv) → Memory → Memory → Option ResultHolder
send_message would_block r1 r2 m1 m2 = none
send_message (failed e) r1 r2 m1 m2 = none
send_message (accepted n) recv_failed r2 m1 m2 = none
send_message (accepted n) (bytes b1) r2 m1 m2 =
    let first = received m1 (take sizeof_metadata b1) in
    let size = (deserialize_result_meta_data_packet first).result_packet_size in
    elim (r2 size) [
      | recv_failed ↦ none
      | bytes b2 ↦ some (record {
        meta_data_packet = first;
        result_packet = received m2 (take size b2);
        result_packet_length = size;
      })
    ]
