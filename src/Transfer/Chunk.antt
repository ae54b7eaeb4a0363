-- ===== src/Transfer/Chunk.antt =====
-- transfer_protocol.c: a chunk, the descriptor of a chunk, a request for a chunk, and an operation on an
-- object, as bytes.
pub mod RoundTrip
use trabalho_distribuidos.Prelude.{
  ℕ, ◌+◌, ◌*◌, ◌^◌, Bool, not, ◌&&◌, ◌||◌, List, [], ◌∷◌, ◌++◌, length, take, drop, get_or, ◌==◌,
  ltb, leb, if◌then◌else◌, Result, ok, err, einval, eoverflow, ebadmsg,
}
use trabalho_distribuidos.Wire.{put_u32, put_u64, get_u32, get_u64}
use trabalho_distribuidos.Protocol.{max_payload_size}
use trabalho_distribuidos.Metadata.{ObjectId, MetadataChunk, metadata_chunk_size}
use trabalho_distribuidos.Transfer.{TransferChunk, object_id_size, download_chunk}

abbrev pub descriptor_size : ℕ
descriptor_size = 56

-- encode_descriptor
unfoldable pub encode_descriptor : MetadataChunk → List ℕ
encode_descriptor chunk =
    put_u64 chunk.index
    ++ (put_u64 chunk.offset
        ++ (put_u32 chunk.raw_size ++ (put_u32 chunk.compressed_size ++ chunk.hash)))

-- decode_descriptor
unfoldable pub decode_descriptor : List ℕ → MetadataChunk
decode_descriptor input = record {
  index = get_u64 input;
  offset = get_u64 (drop 8 input);
  raw_size = get_u32 (drop 16 input);
  compressed_size = get_u32 (drop 20 input);
  hash = take object_id_size (drop 24 input);
}

-- CHUNK_FIXED_SIZE
abbrev pub chunk_fixed_size : ℕ
chunk_fixed_size = 1 + object_id_size + 8 + 8 + 4 + 4 + object_id_size

-- The bytes that transfer_encode_chunk writes.
unfoldable pub chunk_bytes : TransferChunk → ℕ → List ℕ
chunk_bytes chunk operation =
    operation
    ∷ (chunk.id
        ++ (put_u64 chunk.index
            ++ (put_u64 chunk.offset
                ++ (put_u32 chunk.raw_size
                    ++ (put_u32 chunk.compressed_size
                        ++ (chunk.hash ++ take chunk.compressed_size chunk.contents))))))

-- transfer_encode_chunk; `contents` is what chunk->data points to.
unfoldable pub encode_chunk : TransferChunk → ℕ → Result (List ℕ)
unfolding chunk_bytes
encode_chunk chunk operation =
    if chunk.raw_size == 0 || chunk.compressed_size == 0
    then err einval
    else if ltb max_payload_size (chunk_fixed_size + chunk.compressed_size)
    then err eoverflow
    else ok (chunk_bytes chunk operation)

-- The fields behind the identifier; `contents` is the rest of the payload.
unfoldable pub chunk_at : ObjectId → List ℕ → TransferChunk
chunk_at id after_id =
    let after_index = drop 8 after_id in
    let after_offset = drop 8 after_index in
    let after_raw = drop 4 after_offset in
    let after_compressed = drop 4 after_raw in
    record {
      id = id;
      index = get_u64 after_id;
      offset = get_u64 after_index;
      raw_size = get_u32 after_offset;
      compressed_size = get_u32 after_raw;
      hash = take object_id_size after_compressed;
      contents = drop object_id_size after_compressed;
    }

-- transfer_decode_chunk from its last test on.
unfoldable pub accept_chunk : TransferChunk → Result TransferChunk
accept_chunk chunk =
    if chunk.raw_size == 0
      || (ltb metadata_chunk_size chunk.raw_size
          || (chunk.compressed_size == 0 || not (length chunk.contents == chunk.compressed_size)))
    then err ebadmsg
    else ok chunk

-- transfer_decode_chunk
unfoldable pub decode_chunk : List ℕ → ℕ → Result TransferChunk
unfolding chunk_at accept_chunk
decode_chunk payload expected_operation =
    if ltb (length payload) chunk_fixed_size || not (get_or payload 0 0 == expected_operation)
    then err ebadmsg
    else accept_chunk
        (chunk_at (take object_id_size (drop 1 payload)) (drop object_id_size (drop 1 payload)))

-- transfer_encode_object_operation
unfoldable pub encode_object_operation : ℕ → ObjectId → List ℕ
encode_object_operation operation id = operation ∷ id

-- transfer_decode_object_operation
unfoldable pub decode_object_operation : List ℕ → ℕ → Result ObjectId
decode_object_operation payload expected_operation =
    if not (length payload == 1 + object_id_size) || not (get_or payload 0 0 == expected_operation)
    then err ebadmsg
    else ok (take object_id_size (drop 1 payload))

-- transfer_encode_chunk_request
unfoldable pub encode_chunk_request : ObjectId → ℕ → List ℕ
encode_chunk_request id index = download_chunk ∷ (id ++ put_u64 index)

-- transfer_decode_chunk_request
unfoldable pub decode_chunk_request : List ℕ → Result (ObjectId × ℕ)
decode_chunk_request payload =
    if not (length payload == 1 + object_id_size + 8) || not (get_or payload 0 0 == download_chunk)
    then err ebadmsg
    else ok (take object_id_size (drop 1 payload), get_u64 (drop object_id_size (drop 1 payload)))
