-- ===== src/Transfer/Document/Bounds.antt =====
-- What transfer_decode_document accepts from the network.
use trabalho_distribuidos.Prelude.{
  ℕ, ◌+◌, ◌*◌, ◌%◌, ◌≢◌, [], ◌∷◌, All, ◌<◌, ◌≤◌, ◌≡◌, refl, true, false, not, ◌||◌, List, arith,
  length, take, drop, get_or, ◌==◌, ltb, leb, if◌then◌else◌, ok, err, ebadmsg, >>=-eq-ok,
  ok-injective, ap, ◌∙◌, subst, length-take, length-drop, Bool-cases, inl, inr,
}
use trabalho_distribuidos.Metadata.{metadata_name_size, metadata_chunk_size, chunks_of}
use trabalho_distribuidos.Transfer.{TransferDocument, compression_lz4, object_id_size, has_byte}
use trabalho_distribuidos.Transfer.Document.{
  document_fixed_size, document_wire_size, has_its_chunks, document_at, document_fields,
  accept_document, decode_document_at, decode_document,
}

-- A document that was accepted from a payload of the given size.
pub record IsAccepted (size : ℕ) (document : TransferDocument) : Type 0 where
  pub id : length document.id ≡ object_id_size
  pub some_name : 0 < length document.name
  pub short_name : length document.name < metadata_name_size
  pub no_nul : All (λ (c : ℕ). c ≢ 0) document.name
  pub no_slash : All (λ (c : ℕ). c ≢ b'/') document.name
  pub lz4 : document.compression ≡ compression_lz4
  pub enough_chunks : document.file_size ≤ document.chunk_count * metadata_chunk_size
  pub full_chunks :
      document.chunk_count * metadata_chunk_size < document.file_size + metadata_chunk_size
  pub whole : size ≡ document_wire_size document

has_byte-All :
    (wanted : ℕ) (bytes : List ℕ)
    → has_byte wanted bytes ≡ false
    → All (λ (c : ℕ). c ≢ wanted) bytes
has_byte-All wanted [] h = tt
has_byte-All wanted (byte ∷ bytes) h = elim (Bool-cases (byte == wanted)) [
  | inl same ↦ absurd (let k = rw same at h in cc)
  | inr differs ↦ (ground (arith, differs), has_byte-All wanted bytes (rw differs at h))
]

rounded_up :
    (count size : ℕ)
    → (count == chunks_of size) ≡ true
    → (size ≤ count * metadata_chunk_size)
      × (count * metadata_chunk_size < size + metadata_chunk_size)
rounded_up count size h = elim (Bool-cases (size % metadata_chunk_size == 0)) [
  | inl even ↦ ground (arith, h, even)
  | inr odd ↦ ground (arith, h, odd)
]

-- The fields before the tests: an identifier of 32 bytes, and the name out of the rest.
fields :
    (payload : List ℕ)
    → (1 + document_fixed_size) ≤ length payload
    → (length (document_fields payload).1.id ≡ object_id_size)
      × ((document_fields payload).1.name
          ≡ take (document_fields payload).0 (document_fields payload).2)
      × (length (document_fields payload).2 + (1 + document_fixed_size) ≡ length payload)
unfolding document_fields document_at
fields payload long = (
  length-take object_id_size (drop 1 payload) (omega (arith, length-drop 1 payload)),
  refl,
  omega (
    arith,
    length-drop 1 payload,
    length-drop object_id_size (drop 1 payload),
    length-drop 8 (drop object_id_size (drop 1 payload)),
    length-drop 8 (drop 8 (drop object_id_size (drop 1 payload))),
    length-drop 1 (drop 8 (drop 8 (drop object_id_size (drop 1 payload)))),
    length-drop 2 (drop 1 (drop 8 (drop 8 (drop object_id_size (drop 1 payload))))),
  ),
)

-- The tests that an accepted document passed.
accepted :
    (size : ℕ) (document found : TransferDocument) (text rest : List ℕ)
    → document.name ≡ take size text
    → accept_document (size, document, text) ≡ ok (found, rest)
    → length document.id ≡ object_id_size
    → length rest ≡ 0
    → IsAccepted (length text + (1 + document_fixed_size)) found
unfolding accept_document
accepted size document found text rest name h id nothing =
    elim (Bool-cases (
      size == 0
      || (leb metadata_name_size size
          || (ltb (length text) size
              || (has_byte 0 document.name
                  || (has_byte b'/' document.name
                      || (not (document.compression == compression_lz4)
                          || not (has_its_chunks document)))))))) [
                            | inl bad ↦ cc (rw bad at h)
                            | inr good ↦
                                let e = ok-injective (rw good at h) in
                                let same : document ≡ found =
                                  ap (λ (p : TransferDocument × List ℕ). p.0) e in
                                let left : drop size text ≡ rest =
                                  ap (λ (p : TransferDocument × List ℕ). p.1) e in
                                let short : size ≤ length text = ground arith in
                                let n : length document.name ≡ size =
                                  ap length name ∙ length-take size text short in
                                let chunks =
                                  rounded_up document.chunk_count document.file_size
                                    (ground arith) in
                                subst (IsAccepted (length text + (1 + document_fixed_size))) same
                                  (record {
                                    id = id;
                                    some_name = ground arith;
                                    short_name = ground arith;
                                    no_nul = has_byte-All 0 document.name (ground arith);
                                    no_slash = has_byte-All b'/' document.name (ground arith);
                                    lz4 = ground arith;
                                    enough_chunks = chunks.0;
                                    full_chunks = chunks.1;
                                    whole = omega (arith, length-drop size text, ap length left);
                                  })
                          ]

-- A document that transfer_decode_document accepts, whatever the payload: its name has 1 to 255 bytes,
-- none of them NUL or a slash; its identifier has 32 bytes, it is compressed with LZ4, its chunk count is
-- its size in chunks of 4 MiB, rounded up, and the payload is as long as the document and no longer.
pub decode_document-IsAccepted :
    (payload : List ℕ) (operation : ℕ) (document : TransferDocument)
    → decode_document payload operation ≡ ok document
    → IsAccepted (length payload) document
unfolding decode_document decode_document_at
decode_document-IsAccepted payload operation document h =
    let (decoded, e, last) =
      >>=-eq-ok (decode_document_at payload operation)
        (λ d. if length d.1 == 0 then ok d.0 else err ebadmsg) h in
    elim (Bool-cases
      (ltb (length payload) (1 + document_fixed_size) || not (get_or payload 0 0 == operation))) [
        | inl bad ↦ cc (rw bad at e)
        | inr good ↦ elim (Bool-cases (length decoded.1 == 0)) [
          | inr more ↦ cc (rw more at last)
          | inl nothing ↦
              let (id, name, long) = fields payload (ground arith) in
              let found : decoded.0 ≡ document = ok-injective (rw nothing at last) in
              let parsed : accept_document (document_fields payload) ≡ ok decoded = rw good at e in
              subst (λ (n : ℕ). IsAccepted n document) long
                (subst (IsAccepted (length (document_fields payload).2 + (1 + document_fixed_size)))
                  found
                  (accepted (document_fields payload).0 (document_fields payload).1 decoded.0
                    (document_fields payload).2 decoded.1 name parsed id (ground arith)))
        ]
      ]
