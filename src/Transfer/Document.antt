-- ===== src/Transfer/Document.antt =====
-- transfer_protocol.c: the metadata of a file as bytes.
pub mod RoundTrip
pub mod Bounds
use trabalho_distribuidos.Prelude.{
  ℕ, ◌+◌, ◌*◌, ◌^◌, Bool, not, ◌&&◌, ◌||◌, List, [], ◌∷◌, ◌++◌, length, take, drop, get_or, ◌==◌,
  ltb, leb, if◌then◌else◌, Result, ok, err, einval, eoverflow, ebadmsg, ◌>>=◌,
}
use trabalho_distribuidos.Wire.{put_u16, put_u64, get_u16, get_u64}
use trabalho_distribuidos.Protocol.{max_payload_size}
use trabalho_distribuidos.Metadata.{ObjectId, metadata_name_size, chunks_of}
use trabalho_distribuidos.Transfer.{TransferDocument, compression_lz4, object_id_size, has_byte}

-- DOCUMENT_FIXED_SIZE
abbrev pub document_fixed_size : ℕ
document_fixed_size = object_id_size + 8 + 8 + 1 + 2

-- The name is shorter than its array, or fills it.
abbrev pub document_wire_size : TransferDocument → ℕ
document_wire_size document = 1 + document_fixed_size + length document.name

abbrev pub has_its_chunks : TransferDocument → Bool
has_its_chunks document = document.chunk_count == chunks_of document.file_size

-- The bytes that encode_document_at writes.
unfoldable pub document_bytes : TransferDocument → ℕ → List ℕ
document_bytes document operation =
    operation
    ∷ (document.id
        ++ (put_u64 document.file_size
            ++ (put_u64 document.chunk_count
                ++ (document.compression ∷ (put_u16 (length document.name) ++ document.name)))))

-- encode_document_at
unfoldable pub encode_document_at : TransferDocument → ℕ → ℕ → Result (List ℕ)
unfolding document_bytes
encode_document_at document operation capacity =
    if length document.name == 0
      || (leb metadata_name_size (length document.name)
          || (not (document.compression == compression_lz4)
              || (not (has_its_chunks document)
                  || ltb capacity (1 + document_fixed_size + length document.name))))
    then err einval
    else ok (document_bytes document operation)

-- The fields behind the identifier: the length of the name, all fields, and the bytes from the name on.
unfoldable pub document_at : ObjectId → List ℕ → ℕ × TransferDocument × List ℕ
document_at id after_id =
    let after_size = drop 8 after_id in
    let after_count = drop 8 after_size in
    let after_compression = drop 1 after_count in
    let after_length = drop 2 after_compression in
    let name_size = get_u16 after_compression in
    (
      name_size,
      record {
        id = id;
        name = take name_size after_length;
        file_size = get_u64 after_id;
        chunk_count = get_u64 after_size;
        compression = get_or after_count 0 0;
      },
      after_length,
    )

unfoldable pub document_fields : List ℕ → ℕ × TransferDocument × List ℕ
unfolding document_at
document_fields payload =
    document_at (take object_id_size (drop 1 payload)) (drop object_id_size (drop 1 payload))

-- decode_document_at from the length of the name on.
unfoldable pub accept_document : ℕ × TransferDocument × List ℕ → Result (TransferDocument × List ℕ)
accept_document (name_size, document, rest) =
    if name_size == 0
      || (leb metadata_name_size name_size
          || (ltb (length rest) name_size
              || (has_byte 0 document.name
                  || (has_byte b'/' document.name
                      || (not (document.compression == compression_lz4)
                          || not (has_its_chunks document))))))
    then err ebadmsg
    else ok (document, drop name_size rest)

-- decode_document_at, with the bytes behind the offset that it reports.
unfoldable pub decode_document_at : List ℕ → ℕ → Result (TransferDocument × List ℕ)
unfolding document_fields accept_document
decode_document_at payload expected_operation =
    if ltb (length payload) (1 + document_fixed_size)
      || not (get_or payload 0 0 == expected_operation)
    then err ebadmsg
    else accept_document (document_fields payload)

-- transfer_encode_document
unfoldable pub encode_document : TransferDocument → ℕ → Result (List ℕ)
unfolding encode_document_at
encode_document document operation =
    if ltb max_payload_size (document_wire_size document)
    then err eoverflow
    else encode_document_at document operation (document_wire_size document)

-- transfer_decode_document
unfoldable pub decode_document : List ℕ → ℕ → Result TransferDocument
unfolding decode_document_at
decode_document payload expected_operation = do
  decoded ← decode_document_at payload expected_operation
  if length decoded.1 == 0 then ok decoded.0 else err ebadmsg
