-- ===== src/Transfer/Announcement/RoundTrip.antt =====
-- An announcement survives its encoding.
use trabalho_distribuidos.Prelude.{
  ℕ, ◌+◌, ◌-◌, ◌*◌, ◌/◌, ◌<◌, ◌≤◌, ◌≡◌, refl, false, not, ◌||◌, List, [], ◌∷◌, ◌++◌, All, arith,
  length, ◌==◌, ltb, Result, ok, ◌>>=◌, ap, ◌∙◌, sym, length-append, drop-append,
}
use trabalho_distribuidos.Protocol.{max_payload_size}
use trabalho_distribuidos.Metadata.{MetadataChunk}
use trabalho_distribuidos.Transfer.{TransferDocument, store_announce}
use trabalho_distribuidos.Transfer.Document.{document_wire_size}
use trabalho_distribuidos.Transfer.Document.RoundTrip.{
  IsDocument, decode_document_at-document_bytes, encode_document_at-ok,
}
use trabalho_distribuidos.Transfer.Chunk.{descriptor_size, encode_descriptor}
use trabalho_distribuidos.Transfer.Chunk.RoundTrip.{
  IsDescriptor, length-encode_descriptor, decode_descriptor-encode_descriptor,
}
use trabalho_distribuidos.Transfer.Announcement.{
  descriptors_bytes, encode_announcement, decode_descriptors, accept_announcement,
  decode_announcement,
}

length-descriptors_bytes :
    (chunks : List MetadataChunk)
    → All IsDescriptor chunks
    → length (descriptors_bytes chunks) ≡ length chunks * descriptor_size
unfolding descriptors_bytes
length-descriptors_bytes [] h = refl
length-descriptors_bytes (c ∷ chunks) (is, h) = omega (
  arith,
  length-append (encode_descriptor c) (descriptors_bytes chunks),
  length-encode_descriptor c is,
  length-descriptors_bytes chunks h,
)

decode_descriptors-descriptors_bytes :
    (chunks : List MetadataChunk)
    → All IsDescriptor chunks
    → decode_descriptors (length chunks) (descriptors_bytes chunks) ≡ chunks
unfolding descriptors_bytes decode_descriptors
decode_descriptors-descriptors_bytes [] h = refl
decode_descriptors-descriptors_bytes (c ∷ chunks) (is, h) =
    (λ i.
      decode_descriptor-encode_descriptor c (descriptors_bytes chunks) is i
      ∷ decode_descriptors (length chunks) (
          drop-append descriptor_size (encode_descriptor c) (descriptors_bytes chunks)
            (length-encode_descriptor c is) i))
    ∙ ap (◌∷◌ c) (decode_descriptors-descriptors_bytes chunks h)

-- A file of at least one chunk that the code sends (IsDocument), with a descriptor for each chunk
-- that fits its fields, and in all at most MAX_PAYLOAD_SIZE bytes, is what
-- transfer_decode_announcement gives back from the bytes of transfer_encode_announcement.
pub decode_announcement-encode_announcement :
    (document : TransferDocument) (chunks : List MetadataChunk)
    → IsDocument document
    → All IsDescriptor chunks
    → length chunks ≡ document.chunk_count
    → 0 < document.chunk_count
    → document_wire_size document + document.chunk_count * descriptor_size ≤ max_payload_size
    → (encode_announcement document chunks >>= decode_announcement) ≡ ok (document, chunks)
unfolding encode_announcement decode_announcement accept_announcement
decode_announcement-encode_announcement document chunks is all count some' room =
    let base = document_wire_size document in
    let fits : (ltb max_payload_size base
          || ltb ((max_payload_size - base) / descriptor_size) document.chunk_count)
        ≡ false =
      ground arith in
    let head =
      encode_document_at-ok document store_announce (base + document.chunk_count * descriptor_size)
        is (omega arith) in
    let size = length-descriptors_bytes chunks all in
    let good : (document.chunk_count == 0
          || (ltb (length (descriptors_bytes chunks) / descriptor_size) document.chunk_count
              || not (length (descriptors_bytes chunks) == document.chunk_count * descriptor_size)))
        ≡ false =
      ground (arith, size) in
    let back : decode_descriptors document.chunk_count (descriptors_bytes chunks) ≡ chunks =
      ap (λ (n : ℕ). decode_descriptors n (descriptors_bytes chunks)) (sym count)
      ∙ decode_descriptors-descriptors_bytes chunks all in
    rw fits (
      ap
        (λ (r : Result (List ℕ)).
          (r >>= λ h. ok (h ++ descriptors_bytes chunks)) >>= decode_announcement)
        head
      ∙ ap (λ (r : Result (TransferDocument × List ℕ)). r >>= accept_announcement)
          (decode_document_at-document_bytes document store_announce (descriptors_bytes chunks) is)
      ∙ rw good (ap (λ (c : List MetadataChunk). ok (document, c)) back))
