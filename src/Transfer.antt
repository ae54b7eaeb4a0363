-- ===== src/Transfer.antt =====
-- transfer_types.h and transfer_protocol.c: the payloads of the transfer messages. A buffer that is
-- filled from its start is the list of what is put in; a decoder that moves an offset forward returns the
-- bytes behind it. An array of characters is the list of the bytes before its NUL.
pub mod Document
pub mod Chunk
pub mod Announcement
pub mod Lookup
pub mod Transaction
mod Examples
use trabalho_distribuidos.Prelude.{
  ℕ, List, Option, none, some, Bool, true, false, ◌==◌, if◌then◌else◌, [], ◌∷◌,
}
use trabalho_distribuidos.Node.{NodeId}
use trabalho_distribuidos.Metadata.{ObjectId, MetadataChunk}

-- TransferSelectorType
abbrev pub selector_object_id : ℕ
selector_object_id = 1

abbrev pub selector_name : ℕ
selector_name = 2

-- TransferStoreOperation and TransferDownloadOperation
abbrev pub store_begin : ℕ
store_begin = 1

abbrev pub store_chunk : ℕ
store_chunk = 2

abbrev pub store_commit : ℕ
store_commit = 3

abbrev pub store_announce : ℕ
store_announce = 5

abbrev pub download_metadata : ℕ
download_metadata = 3

abbrev pub download_chunk : ℕ
download_chunk = 2

-- COMPRESSION_LZ4
abbrev pub compression_lz4 : ℕ
compression_lz4 = 1

abbrev pub object_id_size : ℕ
object_id_size = 32

pub record TransferDocument : Type 0 where
  pub id : ObjectId
  pub name : List ℕ
  pub file_size : ℕ
  pub chunk_count : ℕ
  pub compression : ℕ

-- TransferChunk; the decoded `data` is a part of the payload.
pub record TransferChunk : Type 0 where
  pub id : ObjectId
  pub index : ℕ
  pub offset : ℕ
  pub raw_size : ℕ
  pub compressed_size : ℕ
  pub hash : List ℕ
  pub contents : List ℕ

pub record TransferEndpoint : Type 0 where
  pub node_id : NodeId
  pub ip : List ℕ
  pub port : ℕ

-- TransferChunkLocations; peer_count is the length of the list.
pub record TransferChunkLocations : Type 0 where
  pub descriptor : MetadataChunk
  pub peers : List TransferEndpoint

pub record TransferLookupResult : Type 0 where
  pub document : TransferDocument
  pub chunks : List TransferChunkLocations

-- memchr(bytes, wanted, n) != NULL
abbrev pub has_byte : ℕ → List ℕ → Bool
has_byte wanted [] = false
has_byte wanted (byte ∷ bytes) = if byte == wanted then true else has_byte wanted bytes
