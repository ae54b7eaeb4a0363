-- ===== src/Protocol.antt =====
-- protocol.h and protocol.c: the messages that the nodes exchange.
pub mod Crc
pub mod Stream
pub mod Message
pub mod Examples
use trabalho_distribuidos.Prelude.{ℕ, ◌*◌}

-- MAX_PAYLOAD_SIZE
abbrev pub max_payload_size : ℕ
max_payload_size = 5 * 1024 * 1024
