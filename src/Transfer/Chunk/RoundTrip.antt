-- ===== src/Transfer/Chunk/RoundTrip.antt =====
-- Chunks, descriptors and requests survive their encoding.
use mathlib.Core.List.{append-nil}
use trabalho_distribuidos.Prelude.{
  ℕ, ◌+◌, ◌^◌, ◌<◌, ◌≤◌, ◌≡◌, false, not, ◌||◌, List, [], ◌∷◌, ◌++◌, arith, length, ◌==◌, ok, ap,
  ◌∙◌, sym, length-append, take-append, drop-append,
}
use trabalho_distribuidos.Wire.{put_u32, put_u64, get_u64}
use trabalho_distribuidos.Wire.RoundTrip.{get_u32-put_u32, get_u64-put_u64, length-put_u64}
use trabalho_distribuidos.Protocol.{max_payload_size}
use trabalho_distribuidos.Metadata.{ObjectId, MetadataChunk, metadata_chunk_size}
use trabalho_distribuidos.Transfer.{TransferChunk, object_id_size, download_chunk}
use trabalho_distribuidos.Transfer.Chunk.{
  descriptor_size, encode_descriptor, decode_descriptor, chunk_fixed_size, encode_chunk_request,
  decode_chunk_request,
}

-- The fields of a descriptor fit their types, and the hash has 32 bytes.
pub record IsDescriptor (chunk : MetadataChunk) : Type 0 where
  pub index : chunk.index < 2 ^ 64
  pub offset : chunk.offset < 2 ^ 64
  pub raw_size : chunk.raw_size < 2 ^ 32
  pub compressed_size : chunk.compressed_size < 2 ^ 32
  pub hash : length chunk.hash ≡ object_id_size

pub length-encode_descriptor :
    (chunk : MetadataChunk)
    → IsDescriptor chunk
    → length (encode_descriptor chunk) ≡ descriptor_size
unfolding encode_descriptor put_u64 put_u32
length-encode_descriptor chunk is = omega (arith, is.hash)

pub decode_descriptor-encode_descriptor :
    (chunk : MetadataChunk) (rest : List ℕ)
    → IsDescriptor chunk
    → decode_descriptor (encode_descriptor chunk ++ rest) ≡ chunk
unfolding encode_descriptor decode_descriptor put_u64 put_u32
decode_descriptor-encode_descriptor chunk rest is =
    let tail : List ℕ = chunk.hash ++ rest in
    let c = get_u32-put_u32 chunk.compressed_size tail is.compressed_size in
    let r = get_u32-put_u32 chunk.raw_size (put_u32 chunk.compressed_size ++ tail) is.raw_size in
    let o =
      get_u64-put_u64 chunk.offset
        (put_u32 chunk.raw_size ++ (put_u32 chunk.compressed_size ++ tail)) is.offset in
    let n =
      get_u64-put_u64 chunk.index
        (put_u64 chunk.offset
          ++ (put_u32 chunk.raw_size ++ (put_u32 chunk.compressed_size ++ tail)))
        is.index in
    let h = take-append object_id_size chunk.hash rest is.hash in
    λ i. record { index = n i; offset = o i; raw_size = r i; compressed_size = c i; hash = h i }

-- A chunk that the code sends: the fields fit, the sizes are not zero, a chunk has at most 4 MiB, and
-- the payload fits a message.
pub record IsChunk (chunk : TransferChunk) : Type 0 where
  pub id : length chunk.id ≡ object_id_size
  pub index : chunk.index < 2 ^ 64
  pub offset : chunk.offset < 2 ^ 64
  pub some_raw : 0 < chunk.raw_size
  pub raw_size : chunk.raw_size ≤ metadata_chunk_size
  pub some_compressed : 0 < chunk.compressed_size
  pub compressed_size : chunk_fixed_size + chunk.compressed_size ≤ max_payload_size
  pub hash : length chunk.hash ≡ object_id_size
  pub contents : length chunk.contents ≡ chunk.compressed_size

module _ (chunk : TransferChunk) (operation : ℕ) (is : IsChunk chunk) where
  behind_id : List ℕ
  behind_id =
      put_u64 chunk.index
      ++ (put_u64 chunk.offset
          ++ (put_u32 chunk.raw_size
              ++ (put_u32 chunk.compressed_size ++ (chunk.hash ++ chunk.contents))))

-- A request for a chunk.
pub decode_chunk_request-encode_chunk_request :
    (id : ObjectId) (index : ℕ)
    → length id ≡ object_id_size
    → index < 2 ^ 64
    → decode_chunk_request (encode_chunk_request id index) ≡ ok (id, index)
unfolding decode_chunk_request encode_chunk_request
decode_chunk_request-encode_chunk_request id index size small =
    let good : (not (length (download_chunk ∷ (id ++ put_u64 index)) == 1 + object_id_size + 8)
          || not (download_chunk == download_chunk))
        ≡ false =
      ground (arith, length-append id (put_u64 index), length-put_u64 index) in
    rw good (
      (λ i. ok (
        take-append object_id_size id (put_u64 index) size i,
        get_u64 (drop-append object_id_size id (put_u64 index) size i),
      ))
      ∙ ap (λ (n : ℕ). ok (id, n))
          (ap get_u64 (sym (append-nil (put_u64 index))) ∙ get_u64-put_u64 index [] small))
