-- ===== src/Transfer/Announcement.antt =====
-- transfer_protocol.c: a file with the descriptors of its chunks, as bytes.
pub mod RoundTrip
use trabalho_distribuidos.Prelude.{
  ℕ, zero, suc, ◌+◌, ◌-◌, ◌*◌, ◌/◌, not, ◌||◌, List, [], ◌∷◌, ◌++◌, length, drop, ◌==◌, ltb,
  if◌then◌else◌, Result, ok, err, emsgsize, ebadmsg, ◌>>=◌,
}
use trabalho_distribuidos.Protocol.{max_payload_size}
use trabalho_distribuidos.Metadata.{MetadataChunk}
use trabalho_distribuidos.Transfer.{TransferDocument, store_announce}
use trabalho_distribuidos.Transfer.Document.{
  document_wire_size, encode_document_at, decode_document_at,
}
use trabalho_distribuidos.Transfer.Chunk.{descriptor_size, encode_descriptor, decode_descriptor}

-- The loop over the chunks; `chunks` is the array of chunk_count elements.
unfoldable pub descriptors_bytes : List MetadataChunk → List ℕ
descriptors_bytes [] = []
descriptors_bytes (chunk ∷ chunks) = encode_descriptor chunk ++ descriptors_bytes chunks

-- transfer_encode_announcement
unfoldable pub encode_announcement : TransferDocument → List MetadataChunk → Result (List ℕ)
unfolding descriptors_bytes
encode_announcement document chunks =
    let base = document_wire_size document in
    if ltb max_payload_size base
      || ltb ((max_payload_size - base) / descriptor_size) document.chunk_count
    then err emsgsize
    else (do
      head ←
          encode_document_at document store_announce (base + document.chunk_count * descriptor_size)
      ok (head ++ descriptors_bytes chunks))

-- The loop over the descriptors: the rounds that are left.
unfoldable pub decode_descriptors : ℕ → List ℕ → List MetadataChunk
decode_descriptors zero bytes = []
decode_descriptors (suc count) bytes =
    decode_descriptor bytes ∷ decode_descriptors count (drop descriptor_size bytes)

-- transfer_decode_announcement from the decoded document on. The bound that the size of an element
-- puts on the count cannot be met, since the payload has more bytes than elements.
unfoldable pub accept_announcement :
    TransferDocument × List ℕ → Result (TransferDocument × List MetadataChunk)
unfolding decode_descriptors
accept_announcement (document, rest) =
    if document.chunk_count == 0
      || (ltb (length rest / descriptor_size) document.chunk_count
          || not (length rest == document.chunk_count * descriptor_size))
    then err ebadmsg
    else ok (document, decode_descriptors document.chunk_count rest)

-- transfer_decode_announcement
unfoldable pub decode_announcement : List ℕ → Result (TransferDocument × List MetadataChunk)
unfolding accept_announcement
decode_announcement payload = decode_document_at payload store_announce >>= accept_announcement
