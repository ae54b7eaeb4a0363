-- ===== src/Directory.antt =====
-- directory.c: publishing and finding files, on top of the store of files and the table of members. Each
-- call of these locks for itself; here no other thread changes them between the calls of one lookup, and
-- the allocations succeed.
pub mod Holders
mod Examples
use trabalho_distribuidos.Prelude.{
  true, ℕ, zero, suc, ◌+◌, ◌-◌, ◌^◌, Bool, not, ◌&&◌, ◌||◌, Option, none, some, List, [], ◌∷◌, map,
  length, drop, bytes_eq, ◌==◌, ltb, leb, if◌then◌else◌, Result, ok, err, einval, eoverflow,
  enodata, ◌>>=◌,
}
use trabalho_distribuidos.Wire.{get_u32}
use trabalho_distribuidos.Node.{NodeId, c_string}
use trabalho_distribuidos.Metadata.{
  ObjectId, FileMetadata, MetadataChunk, MetadataStore, find_document,
}
use trabalho_distribuidos.Metadata.Peers.{chunk_peers, find_name}
use trabalho_distribuidos.Metadata.Announce.{announce, chunk_descriptor}
use trabalho_distribuidos.Membership.{SuperPeer, Member, is_active, find}
use trabalho_distribuidos.Transfer.{
  TransferDocument, TransferEndpoint, TransferChunkLocations, TransferLookupResult, compression_lz4,
  selector_object_id,
}

-- tolower, in the C locale.
abbrev pub lower : ℕ → ℕ
lower c = if leb b'A' c && leb c b'Z' then c + 32 else c

-- strcasecmp(document->name + length - 4U, ".pdf") == 0, for a name of at least 4 bytes.
abbrev pub is_pdf : List ℕ → Bool
is_pdf name =
    not (ltb (length name) 4)
    && bytes_eq (map lower (drop (length name - 4) name)) (b'.' ∷ b'p' ∷ b'd' ∷ b'f' ∷ [])

-- The metadata that directory_announce hands on.
abbrev pub announced : TransferDocument → NodeId → FileMetadata
announced document owner = record {
  object_id = document.id;
  filename = document.name;
  size = document.file_size;
  chunk_count = document.chunk_count;
  chunk_hashes = none;
  version = 1;
  owner = get_u32 owner;
}

-- directory_announce
unfoldable pub directory_announce :
    MetadataStore → TransferDocument → List MetadataChunk → NodeId → Result MetadataStore
directory_announce store document chunks owner =
    if not (document.compression == compression_lz4) || not (is_pdf document.name)
    then err einval
    else if ltb (2 ^ 32 - 1) document.chunk_count
    then err eoverflow
    else announce store (announced document owner) chunks owner

-- The endpoint of an owner, if it is an active member.
unfoldable pub endpoint_of : SuperPeer → NodeId → Option TransferEndpoint
endpoint_of table owner = elim (find table owner) [
  | err error ↦ none
  | ok member ↦
      if is_active member
      then some (record {
        node_id = owner;
        ip = c_string member.node.config.ip;
        port = member.node.config.port;
      })
      else none
]

-- The loop of directory_lookup over the owners of a chunk.
unfoldable pub endpoints : SuperPeer → List NodeId → List TransferEndpoint
unfolding endpoint_of
endpoints table [] = []
endpoints table (owner ∷ owners) =
    let rest = endpoints table owners in
    elim (endpoint_of table owner) [ none ↦ rest | some endpoint ↦ endpoint ∷ rest ]

-- A round of the loop over the chunks.
unfoldable pub find_chunk : MetadataStore → SuperPeer → ObjectId → ℕ → Result TransferChunkLocations
unfolding endpoints
find_chunk store table id index = chunk_descriptor store id index >>= λ descriptor.
    chunk_peers store id index >>= λ owners.
    if length (endpoints table owners) == 0
    then err enodata
    else ok (record { descriptor = descriptor; peers = endpoints table owners })

-- That loop: the rounds left and chunk_index.
unfoldable pub find_chunks :
    MetadataStore → SuperPeer → ObjectId → ℕ → ℕ → Result (List TransferChunkLocations)
unfolding find_chunk
find_chunks store table id zero index = ok []
find_chunks store table id (suc count) index = find_chunk store table id index >>= λ chunk.
    find_chunks store table id count (suc index) >>= λ chunks. ok (chunk ∷ chunks)

-- The document of an answer.
abbrev pub found_document : FileMetadata → TransferDocument
found_document document = record {
  id = document.object_id;
  name = document.filename;
  file_size = document.size;
  chunk_count = document.chunk_count;
  compression = compression_lz4;
}

-- directory_lookup
unfoldable pub directory_lookup :
    MetadataStore → SuperPeer → ℕ → ObjectId → List ℕ → Result TransferLookupResult
unfolding find_chunks
directory_lookup store table kind id name =
    (if kind == selector_object_id then ok id else find_name store name) >>= λ selected.
    find_document true store selected >>= λ document.
    find_chunks store table selected document.chunk_count 0 >>= λ chunks.
    ok (record { document = found_document document; chunks = chunks })
