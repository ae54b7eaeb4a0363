-- ===== src/Transfer/Examples.antt =====
-- A file of one chunk, and the messages about it.
use trabalho_distribuidos.Prelude.{
  ℕ, ◌≡◌, refl, none, List, [], ◌∷◌, arith, length, ok, ◌>>=◌, ◌++◌, replicate,
}
use trabalho_distribuidos.Node.Examples.{id_of, loopback_text}
use trabalho_distribuidos.Wire.{put_u16, put_u32, put_u64, get_u16, get_u64}
use trabalho_distribuidos.Metadata.{MetadataChunk}
use trabalho_distribuidos.Transfer.{
  TransferDocument, TransferChunk, TransferEndpoint, TransferLookupResult, store_begin,
  selector_object_id, selector_name,
}
use trabalho_distribuidos.Transfer.Document.{
  encode_document, decode_document, decode_document_at, document_fields, document_at,
  accept_document, document_bytes,
}
use trabalho_distribuidos.Transfer.Document.RoundTrip.{IsDocument, decode_document-encode_document}
use trabalho_distribuidos.Transfer.Document.Bounds.{IsAccepted, decode_document-IsAccepted}
use trabalho_distribuidos.Transfer.Chunk.{encode_descriptor}
use trabalho_distribuidos.Transfer.Chunk.RoundTrip.{IsDescriptor}
use trabalho_distribuidos.Transfer.Announcement.{encode_announcement, decode_announcement}
use trabalho_distribuidos.Transfer.Announcement.RoundTrip.{decode_announcement-encode_announcement}
use trabalho_distribuidos.Transfer.Lookup.{
  Selector, accept_selector, object_id_from_hex, pairs, digit, encode_lookup_request,
  decode_lookup_request, encode_lookup_result, decode_lookup_result, peers_bytes, endpoint_bytes,
  locations_bytes,
}
use trabalho_distribuidos.Transfer.Lookup.RoundTrip.{
  IsEndpoint, decode_lookup_result-encode_lookup_result,
}
use trabalho_distribuidos.Transfer.Lookup.Request.{
  IsAsked, decode_lookup_request-encode_lookup_request,
}
use trabalho_distribuidos.Transfer.Transaction.{
  Counters, fill_transaction_id, start, next, AllDiffer, Calls-AllDiffer, fill_clock, after_clock,
  failed_rounds,
}

abbrev name : List ℕ
name = b'a' ∷ b'.' ∷ b'p' ∷ b'd' ∷ b'f' ∷ []

abbrev document : TransferDocument
document = record { id = id_of 5; name = name; file_size = 10; chunk_count = 1; compression = 1 }

document-IsDocument : IsDocument document
document-IsDocument = record {
  id = refl;
  some_name = omega arith;
  short_name = omega arith;
  no_nul = refl;
  no_slash = refl;
  size = omega arith;
  count = omega arith;
  lz4 = refl;
  chunks = refl;
}

decode_document-encode_document_example :
    (encode_document document store_begin >>= λ payload. decode_document payload store_begin)
    ≡ ok document
decode_document-encode_document_example =
    decode_document-encode_document document store_begin document-IsDocument

decoded : decode_document (document_bytes document store_begin) store_begin ≡ ok document
unfolding decode_document decode_document_at document_fields document_at accept_document
    document_bytes put_u16 put_u64 get_u16 get_u64
decoded = refl

decode_document-IsAccepted_example :
    IsAccepted (length (document_bytes document store_begin)) document
decode_document-IsAccepted_example =
    decode_document-IsAccepted (document_bytes document store_begin) store_begin document decoded

abbrev chunk : TransferChunk
chunk = record {
  id = id_of 5;
  index = 0;
  offset = 0;
  raw_size = 10;
  compressed_size = 3;
  hash = id_of 9;
  contents = 1 ∷ 2 ∷ 3 ∷ [];
}

abbrev descriptor : MetadataChunk
descriptor = record { index = 0; offset = 0; raw_size = 10; compressed_size = 3; hash = id_of 9 }

descriptor-IsDescriptor : IsDescriptor descriptor
descriptor-IsDescriptor = record {
  index = omega arith;
  offset = omega arith;
  raw_size = omega arith;
  compressed_size = omega arith;
  hash = refl;
}

decode_announcement-encode_announcement_example :
    (encode_announcement document (descriptor ∷ []) >>= decode_announcement)
    ≡ ok (document, descriptor ∷ [])
decode_announcement-encode_announcement_example =
    decode_announcement-encode_announcement document (descriptor ∷ []) document-IsDocument
      (descriptor-IsDescriptor, tt) refl (omega arith) (omega arith)

abbrev endpoint : TransferEndpoint
endpoint = record { node_id = id_of 20; ip = loopback_text; port = 8000 }

endpoint-IsEndpoint : IsEndpoint endpoint
endpoint-IsEndpoint = record {
  node_id = refl;
  some_ip = omega arith;
  short_ip = omega arith;
  no_nul = refl;
  some_port = omega arith;
  port = omega arith;
}

abbrev answer : TransferLookupResult
answer = record {
  document = document;
  chunks = record { descriptor = descriptor; peers = endpoint ∷ [] } ∷ [];
}

answer_size : length (locations_bytes answer.chunks) ≡ 102
unfolding locations_bytes peers_bytes endpoint_bytes encode_descriptor put_u16 put_u32 put_u64
answer_size = refl

decode_lookup_result-encode_lookup_result_example :
    (encode_lookup_result answer >>= decode_lookup_result) ≡ ok answer
decode_lookup_result-encode_lookup_result_example =
    decode_lookup_result-encode_lookup_result answer document-IsDocument refl
      (descriptor-IsDescriptor, refl, (endpoint-IsEndpoint, tt), omega arith, tt)
      (omega (arith, answer_size))

-- Digits of both cases, which spell bytes 172 and 15.
abbrev spelling : List ℕ
spelling = (b'a' ∷ b'C' ∷ b'0' ∷ b'F' ∷ []) ++ replicate 60 b'7'

decode_lookup_request-encode_lookup_request_example :
    (asked : Selector) × ((encode_lookup_request spelling >>= decode_lookup_request) ≡ ok asked)
    × IsAsked spelling asked
decode_lookup_request-encode_lookup_request_example =
    decode_lookup_request-encode_lookup_request spelling (omega arith) (omega arith) refl refl

-- A request by identifier, and one by name.
requests :
    ((encode_lookup_request spelling >>= decode_lookup_request)
      ≡ ok (record { kind = selector_object_id; id = 172 ∷ 15 ∷ replicate 30 119; name = [] }))
    × ((encode_lookup_request name >>= decode_lookup_request)
        ≡ ok (record { kind = selector_name; id = replicate 32 0; name = name }))
unfolding encode_lookup_request decode_lookup_request object_id_from_hex pairs digit accept_selector
    put_u16 get_u16
requests = (refl, refl)

-- Two calls in one nanosecond, the second after an exchange that failed.
abbrev fresh : Counters
fresh = record { clock = 0; sequence = 0 }

abbrev first_call : List ℕ × Counters
first_call = fill_transaction_id 1000 [] 0 none fresh

abbrev second_call : List ℕ × Counters
second_call = fill_transaction_id 1000 (0 ∷ []) 1 none first_call.1

first_clock : first_call.1.clock ≡ 1000
unfolding fill_transaction_id fill_clock after_clock failed_rounds
first_clock = refl

Calls-AllDiffer_example : AllDiffer (second_call.0 ∷ first_call.0 ∷ [])
Calls-AllDiffer_example = Calls-AllDiffer fresh (second_call.0 ∷ first_call.0 ∷ []) second_call.1 (
    next 1000 (0 ∷ []) 1 none (next 1000 [] 0 none (start refl refl) (omega arith) refl refl)
      (omega (arith, first_clock)) refl refl)
