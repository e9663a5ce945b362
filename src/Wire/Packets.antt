-- ===== src/Wire/Packets.antt =====
-- database/include/util/packets.h, which database/libomdb/omdb_lib.h repeats: the packed structs of
-- a result, and the bytes that they lay out. An enumerator is its code and a word of data its 64
-- bits.
use Prim.Native.Char.{code}
use open_mem_db.Prelude.{ℕ, zero, suc, ◌+◌, String, Option, List, [], ◌∷◌, ◌++◌}
use open_mem_db.Result.{
  ResultStatus, success, failure, failure_db_unknown_state, failure_out_memory, failure_syntax,
  ManipStatus, done, err, err_unknown_statement, err_no_memory, err_table_not_exist,
  err_table_cmd_invalid, err_contention, err_partial, err_partial_contention, err_failed_constraint,
}
use open_mem_db.Wire.{Memory, le, read, field}

pub data PacketType : Type 0 where
  no_packet command_packet command_result connection result_metadata result_data invalid_packet :
      PacketType

abbrev pub packet_code : PacketType → ℕ
packet_code no_packet = 0
packet_code command_packet = 1
packet_code command_result = 2
packet_code connection = 3
packet_code result_metadata = 4
packet_code result_data = 5
packet_code invalid_packet = 6

abbrev pub status_code : ResultStatus → ℕ
status_code success = 0
status_code failure = 1
status_code failure_db_unknown_state = 2
status_code failure_out_memory = 3
status_code failure_syntax = 4

abbrev pub manip_code : ManipStatus → ℕ
manip_code done = 0
manip_code err = 1
manip_code err_unknown_statement = 2
manip_code err_no_memory = 3
manip_code err_table_not_exist = 4
manip_code err_table_cmd_invalid = 5
manip_code err_contention = 6
manip_code err_partial = 7
manip_code err_partial_contention = 8
manip_code err_failed_constraint = 9

-- THE_TERMINATOR, COL_NAME_LEN and MAX_NUM_COLUMNS
abbrev pub the_terminator : ℕ
the_terminator = 0xff

abbrev pub col_name_len : ℕ
col_name_len = 25

abbrev pub max_num_columns : ℕ
max_num_columns = 20

-- struct ResultColumn: the bytes of the name's array, and the type
pub record PacketColumn : Type 0 where
  pub name : List ℕ
  pub type : ℕ

pub record ResultMetaDataPacket : Type 0 where
  pub type : ℕ
  pub status : ℕ
  pub num_columns : ℕ
  pub result_packet_size : ℕ
  pub columns : List PacketColumn
  pub terminator : ℕ

-- `data` is none where the pointer is null.
pub record ResultPacket : Type 0 where
  pub type : ℕ
  pub status : ℕ
  pub row_len : ℕ
  pub result_size : ℕ
  pub data_words : Option (List ℕ)
  pub terminator : ℕ

-- sizeof(ResultMetaDataPacket): 11 bytes, the columns, and the terminator
abbrev pub sizeof_metadata : ℕ
sizeof_metadata = 552

-- The characters of a text, one byte each.
unfoldable pub codes : String → List ℕ
codes String.[] = []
codes (String.◌∷◌ c s) = code c ∷ codes s

unfoldable pub column_image : PacketColumn → List ℕ
column_image c = c.name ++ le 2 c.type

unfoldable pub columns_image : List PacketColumn → List ℕ
columns_image [] = []
columns_image (c ∷ cs) = column_image c ++ columns_image cs

-- The packed struct ResultMetaDataPacket in memory.
unfoldable pub metadata_image : ResultMetaDataPacket → List ℕ
metadata_image p =
    le 1 p.type
    ++ (le 2 p.status
        ++ (le 4 p.num_columns
            ++ (le 4 p.result_packet_size ++ (columns_image p.columns ++ le 1 p.terminator))))

-- The first nine bytes of the packed struct ResultPacket in memory.
unfoldable pub header_image : ResultPacket → List ℕ
header_image p = le 1 p.type ++ (le 2 p.status ++ (le 2 p.row_len ++ le 4 p.result_size))

-- An array of uint64_t in memory.
unfoldable pub words_image : List ℕ → List ℕ
words_image [] = []
words_image (w ∷ ws) = le 8 w ++ words_image ws

unfoldable pub read_words : Memory → ℕ → ℕ → List ℕ
read_words m i zero = []
read_words m i (suc n) = field m i 8 ∷ read_words m (8 + i) n

unfoldable pub read_columns : Memory → ℕ → ℕ → List PacketColumn
read_columns m i zero = []
read_columns m i (suc n) =
    record { name = read m i 25; type = field m (25 + i) 2 } ∷ read_columns m (27 + i) n
