-- ===== src/Transfer/Document/RoundTrip.antt =====
-- The metadata of a file survives its encoding, alone or in front of other bytes.
use mathlib.Core.List.{append_assoc, append-nil}
use trabalho_distribuidos.Prelude.{
  ℕ, ◌+◌, ◌^◌, ◌<◌, ◌≤◌, ◌≡◌, refl, true, false, not, ◌||◌, List, [], ◌∷◌, ◌++◌, arith, length,
  take, ◌==◌, ==_refl, ltb, leb, Result, ok, ◌>>=◌, ap, ◌∙◌, sym, length-append, take-append,
  drop-append,
}
use trabalho_distribuidos.Wire.{put_u16, put_u64, get_u16}
use trabalho_distribuidos.Wire.RoundTrip.{get_u16-put_u16, get_u64-put_u64}
use trabalho_distribuidos.Protocol.{max_payload_size}
use trabalho_distribuidos.Metadata.{metadata_name_size}
use trabalho_distribuidos.Transfer.{TransferDocument, compression_lz4, object_id_size, has_byte}
use trabalho_distribuidos.Transfer.Document.{
  document_fixed_size, document_wire_size, has_its_chunks, document_bytes, encode_document_at,
  document_at, document_fields, accept_document, decode_document_at, encode_document,
  decode_document,
}

-- A document that the code sends: a name of a file of 1 to 255 bytes without NUL and slash, an identifier of
-- 32 bytes, sizes that fit their types, and the number of chunks of its size.
pub record IsDocument (document : TransferDocument) : Type 0 where
  pub id : length document.id ≡ object_id_size
  pub some_name : 0 < length document.name
  pub short_name : length document.name < metadata_name_size
  pub no_nul : has_byte 0 document.name ≡ false
  pub no_slash : has_byte b'/' document.name ≡ false
  pub size : document.file_size < 2 ^ 64
  pub count : document.chunk_count < 2 ^ 64
  pub lz4 : document.compression ≡ compression_lz4
  pub chunks : has_its_chunks document ≡ true

module _ (document : TransferDocument) (operation : ℕ) (rest : List ℕ)
    (is : IsDocument document) where
  behind_id : List ℕ
  behind_id =
      put_u64 document.file_size
      ++ (put_u64 document.chunk_count
          ++ (document.compression ∷ (put_u16 (length document.name) ++ (document.name ++ rest))))

  split : document_bytes document operation ++ rest ≡ operation ∷ (document.id ++ behind_id)
  unfolding document_bytes behind_id put_u64 put_u16
  split = simp append_assoc

  at_fields :
      document_at document.id behind_id ≡ (length document.name, document, document.name ++ rest)
  unfolding document_at behind_id put_u64 put_u16
  at_fields =
      let n : get_u16 (put_u16 (length document.name) ++ (document.name ++ rest))
          ≡ length document.name =
        get_u16-put_u16 (length document.name) _ (omega (arith, is.short_name)) in
      let name : take (get_u16 (put_u16 (length document.name) ++ (document.name ++ rest)))
            (document.name ++ rest)
          ≡ document.name =
        ap (λ (k : ℕ). take k (document.name ++ rest)) n
        ∙ take-append (length document.name) document.name rest refl in
      let size =
        get_u64-put_u64 document.file_size
          (put_u64 document.chunk_count
            ++ (document.compression ∷ (put_u16 (length document.name) ++ (document.name ++ rest))))
          is.size in
      let count =
        get_u64-put_u64 document.chunk_count
          (document.compression ∷ (put_u16 (length document.name) ++ (document.name ++ rest)))
          is.count in
      λ i. (
        n i,
        record {
          id = document.id;
          name = name i;
          file_size = size i;
          chunk_count = count i;
          compression = document.compression;
        },
        document.name ++ rest,
      )

  fields :
      document_fields (operation ∷ (document.id ++ behind_id))
      ≡ (length document.name, document, document.name ++ rest)
  unfolding document_fields
  fields =
      (λ i.
        document_at (take-append object_id_size document.id behind_id is.id i)
          (drop-append object_id_size document.id behind_id is.id i))
      ∙ at_fields

  accepts :
      accept_document (length document.name, document, document.name ++ rest) ≡ ok (document, rest)
  unfolding accept_document
  accepts =
      let bad : (length document.name == 0
            || (leb metadata_name_size (length document.name)
                || (ltb (length (document.name ++ rest)) (length document.name)
                    || (has_byte 0 document.name
                        || (has_byte b'/' document.name
                            || (not (document.compression == compression_lz4)
                                || not (has_its_chunks document)))))))
          ≡ false =
        ground (
          arith,
          is.some_name,
          is.short_name,
          length-append document.name rest,
          is.no_nul,
          is.no_slash,
          is.lz4,
          is.chunks,
        ) in
      rw bad (
        ap (λ (r : List ℕ). ok (document, r))
          (drop-append (length document.name) document.name rest refl))

  long :
      length (document.id ++ behind_id)
      ≡ object_id_size + (19 + (length document.name + length rest))
  unfolding behind_id put_u64 put_u16
  long = omega (arith, length-append document.id behind_id, is.id, length-append document.name rest)

  pub decode_document_at-document_bytes :
      decode_document_at (document_bytes document operation ++ rest) operation ≡ ok (document, rest)
  unfolding decode_document_at
  decode_document_at-document_bytes =
      let good : (ltb (length (operation ∷ (document.id ++ behind_id))) (1 + document_fixed_size)
            || not (operation == operation))
          ≡ false =
        ground (arith, long, ==_refl operation) in
      ap (λ (payload : List ℕ). decode_document_at payload operation) split
      ∙ rw good (ap accept_document fields ∙ accepts)

pub encode_document_at-ok :
    (document : TransferDocument) (operation capacity : ℕ)
    → IsDocument document
    → document_wire_size document ≤ capacity
    → encode_document_at document operation capacity ≡ ok (document_bytes document operation)
unfolding encode_document_at
encode_document_at-ok document operation capacity is room =
    let bad : (length document.name == 0
          || (leb metadata_name_size (length document.name)
              || (not (document.compression == compression_lz4)
                  || (not (has_its_chunks document)
                      || ltb capacity (1 + document_fixed_size + length document.name)))))
        ≡ false =
      ground (arith, is.some_name, is.short_name, is.lz4, is.chunks) in
    rw bad refl

-- A document that transfer_encode_document encodes under an operation, and that has an identifier of 32
-- bytes, a name of a file of 1 to 255 bytes without NUL and slash, sizes that fit their types and the
-- number of chunks of its size, is what transfer_decode_document gives back for that operation.
pub decode_document-encode_document :
    (document : TransferDocument) (operation : ℕ)
    → IsDocument document
    → (encode_document document operation >>= λ payload. decode_document payload operation)
      ≡ ok document
unfolding encode_document decode_document
decode_document-encode_document document operation is =
    let small : ltb max_payload_size (document_wire_size document) ≡ false =
      ground (arith, is.short_name) in
    let decoded : decode_document_at (document_bytes document operation) operation
        ≡ ok (document, []) =
      ap (λ (payload : List ℕ). decode_document_at payload operation)
        (sym (append-nil (document_bytes document operation)))
      ∙ decode_document_at-document_bytes document operation [] is in
    rw small (
      ap (λ (r : Result (List ℕ)). r >>= λ payload. decode_document payload operation)
        (encode_document_at-ok document operation (document_wire_size document) is (omega arith))
      ∙ rw decoded refl)
