-- ===== src/Protocol/Examples.antt =====
-- A checksum that obeys the laws of zlib's crc32, and runs of the protocol on it.
use trabalho_distribuidos.Prelude.{
  ℕ, ◌+◌, ◌%◌, ◌^◌, ◌≡◌, refl, List, [], ◌∷◌, ◌++◌, some, replicate, take, drop, arith, true,
}
use trabalho_distribuidos.Wire.{put_u32, put_u64}
use trabalho_distribuidos.Protocol.Stream.{Stream, ended, chunk, before, contents}
use trabalho_distribuidos.Protocol.Message.{
  Message, validate_header, header_bytes, send_message, received, receive_message,
}
use trabalho_distribuidos.Protocol.Message.RoundTrip.{FitsHeader}
use trabalho_distribuidos.Protocol.Message.Delivery.{stamped, wire_of, receive_message-send_message}
use trabalho_distribuidos.Protocol.Crc.{crc32_update, crc32_update-eq}

-- The sum of the bytes, modulo 2 ^ 16.
abbrev pub sum_of : ℕ → List ℕ → ℕ
sum_of start [] = start
sum_of start (b ∷ bytes) = sum_of ((start + b) % 2 ^ 16) bytes

sum_of-append : (start : ℕ) (xs ys : List ℕ) → sum_of (sum_of start xs) ys ≡ sum_of start (xs ++ ys)
sum_of-append start [] ys = refl
sum_of-append start (x ∷ xs) ys = sum_of-append ((start + x) % 2 ^ 16) xs ys

sum_of-nil : (start : ℕ) → sum_of start [] ≡ start
sum_of-nil start = refl

crc32_update-eq_example :
    crc32_update sum_of 5 (1 ∷ 2 ∷ 255 ∷ []) ≡ sum_of 5 (1 ∷ 2 ∷ 255 ∷ []) % 2 ^ 32
crc32_update-eq_example = crc32_update-eq sum_of sum_of-append sum_of-nil 5 (1 ∷ 2 ∷ 255 ∷ [])

-- A PING with a payload of three bytes, which arrives in three pieces with a byte of the next message.
abbrev ping : Message
ping = record {
  header = record {
    protocol_version = 1;
    message_type = 3;
    source_node = replicate 32 1;
    destination_node = replicate 32 2;
    transaction_id = replicate 16 3;
    timestamp = 1000;
    payload_size = 3;
    checksum = 0;
  };
  payload = some (7 ∷ 8 ∷ 9 ∷ []);
}

abbrev in_pieces : List ℕ → Stream
in_pieces bytes = before (take 40 bytes) (before (take 60 (drop 40 bytes)) (chunk 9 (1 ∷ []) ended))

ping_fits : FitsHeader ping.header
ping_fits = record {
  source = refl;
  destination = refl;
  transaction = refl;
  timestamp = omega arith;
  payload_size = omega arith;
  checksum = omega arith;
}

ping_arrives : contents (in_pieces (wire_of sum_of ping)) ≡ wire_of sum_of ping ++ 1 ∷ []
unfolding contents header_bytes put_u64 put_u32
ping_arrives = refl

ping_valid : validate_header ping.header ≡ true
unfolding validate_header
ping_valid = refl

receive_message-send_message_example :
    (send_message sum_of ping ≡ some (wire_of sum_of ping))
    × ((rest : Stream) × (receive_message sum_of (in_pieces (wire_of sum_of ping))
          ≡ (received (record { header = stamped sum_of ping; payload = ping.payload }), rest))
        × (contents rest ≡ 1 ∷ []))
receive_message-send_message_example =
    receive_message-send_message sum_of ping ping_fits (omega arith, refl) ping_valid
      (in_pieces (wire_of sum_of ping)) (1 ∷ []) ping_arrives
