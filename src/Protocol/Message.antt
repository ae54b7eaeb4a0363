-- ===== src/Protocol/Message.antt =====
-- protocol.h and protocol.c: headers as bytes, and messages sent and received. A payload pointer is
-- `none` if it is NULL; malloc of a payload that is received does not fail.
pub mod RoundTrip
pub mod Delivery
use trabalho_distribuidos.Prelude.{
  ℕ, zero, suc, ◌+◌, ◌-◌, Bool, true, false, not, ◌&&◌, ◌||◌, Option, none, some, List, [], ◌∷◌,
  ◌++◌, length, take, drop, get_or, replicate, ◌==◌, ltb, leb, if◌then◌else◌,
}
use trabalho_distribuidos.Wire.{put_u32, put_u64, get_u32, get_u64}
use trabalho_distribuidos.Protocol.{max_payload_size}
use trabalho_distribuidos.Protocol.Crc.{crc32_update}
use trabalho_distribuidos.Protocol.Stream.{Stream, recv_exact}

-- PROTOCOL_VERSION and HEADER_WIRE_SIZE
abbrev pub protocol_version_used : ℕ
protocol_version_used = 1

abbrev pub header_wire_size : ℕ
header_wire_size = 98

pub record Header : Type 0 where
  pub protocol_version : ℕ
  pub message_type : ℕ
  pub source_node : List ℕ
  pub destination_node : List ℕ
  pub transaction_id : List ℕ
  pub timestamp : ℕ
  pub payload_size : ℕ
  pub checksum : ℕ

pub record Message : Type 0 where
  pub header : Header
  pub payload : Option (List ℕ)

-- message_init
unfoldable pub message_init : Message
message_init = record {
  header = record {
    protocol_version = protocol_version_used;
    message_type = 0;
    source_node = replicate 32 0;
    destination_node = replicate 32 0;
    transaction_id = replicate 16 0;
    timestamp = 0;
    payload_size = 0;
    checksum = 0;
  };
  payload = none;
}

-- The bytes at a payload pointer.
abbrev pub payload_bytes : Option (List ℕ) → List ℕ
payload_bytes none = []
payload_bytes (some bytes) = bytes

abbrev pub is_null : Option (List ℕ) → Bool
is_null none = true
is_null (some bytes) = false

-- The cases of the switch are the codes from M_JOIN, 0, to M_IST_BATCH, 26.
abbrev pub is_message_type : ℕ → Bool
is_message_type code = leb code 26

-- protocol_validate_header
unfoldable pub validate_header : Header → Bool
validate_header header =
    header.protocol_version == protocol_version_used
    && (is_message_type header.message_type && leb header.payload_size max_payload_size)

-- The fields, in the order of the wire.
unfoldable pub header_bytes : Header → List ℕ
header_bytes header =
    header.protocol_version
    ∷ header.message_type
    ∷ (header.source_node
        ++ (header.destination_node
            ++ (header.transaction_id
                ++ (put_u64 header.timestamp
                    ++ (put_u32 header.payload_size ++ put_u32 header.checksum)))))

-- protocol_serialize_header into a buffer of HEADER_WIRE_SIZE bytes
unfoldable pub serialize_header : Header → Option (List ℕ)
unfolding validate_header header_bytes
serialize_header header = if validate_header header then some (header_bytes header) else none

-- protocol_deserialize_header
unfoldable pub deserialize_header : List ℕ → Option Header
deserialize_header buffer =
    if ltb (length buffer) header_wire_size
    then none
    else some (record {
      protocol_version = get_or buffer 0 0;
      message_type = get_or buffer 1 0;
      source_node = take 32 (drop 2 buffer);
      destination_node = take 32 (drop 34 buffer);
      transaction_id = take 16 (drop 66 buffer);
      timestamp = get_u64 (drop 82 buffer);
      payload_size = get_u32 (drop 90 buffer);
      checksum = get_u32 (drop 94 buffer);
    })

-- What protocol_receive_message returns: PROTOCOL_CLOSED, PROTOCOL_ERROR or PROTOCOL_OK.
pub data Received : Type 0 where
  closed : Received
  error : Received
  received : (message : Message) → Received

module _ (crc : ℕ → List ℕ → ℕ) where
  -- The checksum of a header that is serialized, or is not valid, and of the payload behind it.
  unfoldable pub crc32_of : Option (List ℕ) → ℕ → Option (List ℕ) → ℕ
  crc32_of none size payload = 0
  crc32_of (some bytes) size payload =
      let first = crc32_update crc 0 bytes in
      if ltb 0 size then crc32_update crc first (take size (payload_bytes payload)) else first

  -- protocol_message_crc32
  unfoldable pub message_crc32 : Header → Option (List ℕ) → ℕ
  unfolding serialize_header crc32_of
  message_crc32 header payload =
      crc32_of (serialize_header (record header { checksum = 0 })) header.payload_size payload

  -- protocol_send_message: the bytes of the two calls of network_send_all, if both complete.
  unfoldable pub send_message : Message → Option (List ℕ)
  unfolding message_crc32
  send_message message =
      let header = message.header in
      if not (validate_header header) || (ltb 0 header.payload_size && is_null message.payload)
      then none
      else elim (serialize_header (record header {
        checksum = message_crc32 (record header { checksum = 0 }) message.payload;
      })) [
        | none ↦ none
        | some bytes ↦ some (bytes ++ take header.payload_size (payload_bytes message.payload))
      ]

  -- The end of protocol_receive_message: the checksum.
  accept : Header → Option (List ℕ) → Received
  accept header payload =
      if header.checksum == message_crc32 header payload
      then received (record { header = header; payload = payload })
      else error

  -- Once the payload is read, or the attempt failed.
  accept_payload : Header → Option (List ℕ) → Received
  accept_payload header none = error
  accept_payload header (some bytes) =
      if length bytes == header.payload_size then accept header (some bytes) else error

  accept_read : Header → Option (List ℕ) × Stream → Received × Stream
  unfolding accept_payload
  accept_read header (payload, stream) = (accept_payload header payload, stream)

  -- Once the header is read.
  receive_payload : Option Header → Stream → Received × Stream
  unfolding accept accept_read
  receive_payload none stream = (error, stream)
  receive_payload (some header) stream =
      if not (validate_header header)
      then (error, stream)
      else if ltb 0 header.payload_size
      then accept_read header (recv_exact stream header.payload_size)
      else (accept header none, stream)

  -- Once the first bytes are there, or the attempt failed.
  receive_header : Option (List ℕ) × Stream → Received × Stream
  unfolding receive_payload deserialize_header
  receive_header (none, stream) = (error, stream)
  receive_header (some bytes, stream) =
      if length bytes == 0
      then (closed, stream)
      else if not (length bytes == header_wire_size)
      then (error, stream)
      else receive_payload (deserialize_header bytes) stream

  -- protocol_receive_message
  unfoldable pub receive_message : Stream → Received × Stream
  unfolding receive_header
  receive_message stream = receive_header (recv_exact stream header_wire_size)
