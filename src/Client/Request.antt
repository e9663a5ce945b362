-- ===== src/Client/Request.antt =====
-- A statement on its way to the server: buildPacket of database/libomdb/connection.cc and
-- SerializeCommandPacket of database/libomdb/serialization_helper.cc, Connection::recv of
-- database/source/util/network/connection.cc and the copy of the packet that ReceiveCommand of
-- database/source/workmanager/work_manager.cc makes; and DeserializeCommandPacket of the library.
-- The bytes that a fresh struct or buffer holds are arguments.
use open_mem_db.Prelude.{
  ℕ, suc, ◌%◌, ◌<◌, ◌≤◌, ◌≡◌, refl, sym, ap, ◌∙◌, Bool, true, false, Option, none, some, List, [],
  ◌∷◌, ◌++◌, arith, length, length-append, append_assoc, replicate, All, if◌then◌else◌, ◌==◌,
}
use open_mem_db.Wire.{Memory, le, read, read_lem, write, HasBytes, HasBytes-append, write-HasBytes}
use open_mem_db.Wire.Packets.{packet_code, command_packet, the_terminator}
use open_mem_db.Wire.Server.{take, fill}
use open_mem_db.Wire.Laws.{take_all}
use open_mem_db.Client.{c_string}
use open_mem_db.Client.Rows.{IsChar, c_string_lem}

-- MESSAGE_SIZE and DB_NAME_LEN
abbrev pub message_size : ℕ
message_size = 300

abbrev pub db_name_len : ℕ
db_name_len = 50

-- enum CommandType
pub data CommandType : Type 0 where
  sql_statement db_command invalid_command : CommandType

abbrev pub command_code : CommandType → ℕ
command_code sql_statement = 1
command_code db_command = 2
command_code invalid_command = 3

-- struct CommandPacket
pub record CommandPacket : Type 0 where
  pub type : ℕ
  pub command_type : ℕ
  pub message : List ℕ
  pub terminator : ℕ

-- What strncpy copies of a text of some length: the bytes before its first zero, then zeros.
unfoldable pub strncpy : List ℕ → List ℕ
strncpy [] = []
strncpy (b ∷ bs) = elim (b == 0) [ true ↦ replicate (length (b ∷ bs)) 0 | false ↦ b ∷ strncpy bs ]

-- buildPacket, into a packet whose message holds the bytes `fresh`: none for a command that does
-- not fit the message with its end.
unfoldable pub build_packet : CommandType → List ℕ → List ℕ → Option CommandPacket
build_packet kind command fresh = elim (fill fresh (strncpy command ++ 0 ∷ [])) [
  | none ↦ none
  | some message ↦ some (record {
    type = packet_code command_packet;
    command_type = command_code kind;
    message = message;
    terminator = the_terminator;
  })
]

-- SerializeCommandPacket: the packed struct in memory
unfoldable pub serialize_command_packet : CommandPacket → List ℕ
serialize_command_packet p =
    le 1 p.type ++ (le 1 p.command_type ++ (p.message ++ le 1 p.terminator))

-- sizeof(CommandPacket)
abbrev pub sizeof_command : ℕ
sizeof_command = 303

-- What the system call `recv` gives the server: bytes, of which none are the end of the
-- connection, or -1 with `errno`.
pub data ServerRecv : Type 0 where
  got : List ℕ → ServerRecv
  again : ServerRecv
  reset : ServerRecv
  broken : ℕ → ServerRecv

-- NetworkStatusCodes, those of `recv`
pub data RecvStatus : Type 0 where
  d_recv_full d_recv_part e_recv e_close : RecvStatus

-- Connection::recv, its status code
unfoldable pub connection_recv : Bool → ServerRecv → RecvStatus
connection_recv false r = e_recv
connection_recv true (got []) = e_close
connection_recv true (got (b ∷ bs)) = d_recv_full
connection_recv true again = d_recv_part
connection_recv true reset = e_close
connection_recv true (broken e) = e_recv

-- `command.message` as a text, of the packet that ReceiveCommand copies from its buffer
unfoldable pub command_message : Memory → Option (List ℕ)
command_message buffer = c_string (read buffer 2 message_size)

-- The buffer after `recv` has put at most its size of bytes into it.
unfoldable pub command_buffer : Memory → List ℕ → Memory
command_buffer m bytes = write m 0 (take sizeof_command bytes)

-- mapStringToCommandType, on the first byte
unfoldable pub map_string_to_command_type : ℕ → CommandType
map_string_to_command_type b =
    if b == 2 then db_command else if b == 1 then sql_statement else invalid_command

-- DeserializeCommandPacket of the library: the command's type, and the bytes that go into the front
-- of the message.
unfoldable pub deserialize_command_packet : Memory → CommandType × List ℕ
deserialize_command_packet m = (map_string_to_command_type (m 0), read m 1 db_name_len)

strncpy_lem : (bs : List ℕ) → All IsChar bs → strncpy bs ≡ bs
unfolding strncpy
strncpy_lem [] h = refl
strncpy_lem (b ∷ bs) h =
    let nonzero : (b == 0) ≡ false = ground (arith, h.0) in
    rw (nonzero, strncpy) (ap (◌∷◌ b) (strncpy_lem bs h.1))

-- Values written to the front of any array leave the rest of it.
fill_front :
    (array vs : List ℕ)
    → length vs ≤ length array
    → (rest : List ℕ) × (fill array vs ≡ some (vs ++ rest)) × (length (vs ++ rest) ≡ length array)
unfolding fill
fill_front array [] h = (array, refl, refl)
fill_front [] (v ∷ vs) h = absurd (omega (arith, h))
fill_front (x ∷ array) (v ∷ vs) h =
    let (rest, ran, long) = fill_front array vs (omega (arith, h)) in
    (rest, rw (ran) refl, ap suc long)

length-serialize_command_packet :
    (p : CommandPacket) → length p.message ≡ 300 → length (serialize_command_packet p) ≡ 303
unfolding serialize_command_packet le
length-serialize_command_packet p long =
    omega (arith, length-append p.message (p.terminator % 256 ∷ []), long)

message-HasBytes :
    (p : CommandPacket) (m : Memory)
    → HasBytes m 0 (serialize_command_packet p)
    → HasBytes m 2 p.message
unfolding serialize_command_packet le
message-HasBytes p m h = (HasBytes-append m 2 p.message (p.terminator % 256 ∷ []) h.1.1).0

-- The message of a packet that the server receives whole.
message_lem :
    (p : CommandPacket) (m : Memory)
    → length p.message ≡ 300
    → read (command_buffer m (serialize_command_packet p)) 2 300 ≡ p.message
unfolding command_buffer
message_lem p m long =
    let image = serialize_command_packet p in
    let whole : take 303 image ≡ image =
      take_all 303 image (omega (arith, length-serialize_command_packet p long)) in
    let there = message-HasBytes p (write m 0 image) (write-HasBytes m 0 image) in
    rw (whole) (rw (sym long) (read_lem (write m 0 image) 2 p.message there))

-- A command of fewer than 300 characters, none of them zero, is packed whatever the fresh packet
-- holds; the server that receives the whole packet takes the command from it again.
pub command_message-build_packet :
    (kind : CommandType) (command fresh : List ℕ) (m : Memory)
    → length command < 300
    → All IsChar command
    → length fresh ≡ 300
    → (p : CommandPacket) × (build_packet kind command fresh ≡ some p)
      × (length (serialize_command_packet p) ≡ 303)
      × (command_message (command_buffer m (serialize_command_packet p)) ≡ some command)
unfolding build_packet command_message
command_message-build_packet kind command fresh m short chars room =
    let (rest, ran, long) =
      fill_front fresh (command ++ 0 ∷ [])
        (omega (arith, length-append command (0 ∷ []), short, room)) in
    let message = (command ++ 0 ∷ []) ++ rest in
    let p : CommandPacket = record {
      type = 1;
      command_type = command_code kind;
      message = message;
      terminator = 0xff;
    } in
    (
      p,
      rw (strncpy_lem command chars, build_packet) (rw (ran, build_packet) refl),
      length-serialize_command_packet p (long ∙ room),
      rw (message_lem p m (long ∙ room), command_message)
          (rw (append_assoc command (0 ∷ []) rest) (c_string_lem command rest chars)),
    )
