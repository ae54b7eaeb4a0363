-- ===== src/Transfer/Lookup.antt =====
-- transfer_protocol.c: the request for a file and the answer, as bytes.
pub mod RoundTrip
pub mod Request
use trabalho_distribuidos.Prelude.{
  ℕ, zero, suc, ◌+◌, ◌-◌, ◌*◌, ◌/◌, ◌%◌, Bool, not, ◌&&◌, ◌||◌, Option, none, some, List, [], ◌∷◌,
  ◌++◌, length, take, drop, get_or, replicate, ◌==◌, ltb, leb, if◌then◌else◌, Result, ok, err,
  einval, eoverflow, ebadmsg, ◌>>=◌,
}
use trabalho_distribuidos.Wire.{put_u16, get_u16}
use trabalho_distribuidos.Protocol.{max_payload_size}
use trabalho_distribuidos.Node.{NodeId, c_string, node_id_size, node_address_size}
use trabalho_distribuidos.Metadata.{ObjectId, MetadataChunk, metadata_name_size}
use trabalho_distribuidos.Membership.{size_max}
use trabalho_distribuidos.Transfer.{
  TransferDocument, TransferEndpoint, TransferChunkLocations, TransferLookupResult, object_id_size,
  download_metadata, selector_object_id, selector_name, has_byte,
}
use trabalho_distribuidos.Transfer.Document.{
  document_wire_size, encode_document_at, decode_document_at,
}
use trabalho_distribuidos.Transfer.Chunk.{descriptor_size, encode_descriptor, decode_descriptor}

-- ENDPOINT_FIXED_SIZE
abbrev pub endpoint_fixed_size : ℕ
endpoint_fixed_size = node_id_size + 1 + 2

-- A hexadecimal digit; `none` is the -1 of the code.
unfoldable pub digit : ℕ → Option ℕ
digit character =
    if leb b'0' character && leb character b'9'
    then some (character - b'0')
    else if leb b'a' character && leb character b'f'
    then some (character - b'a' + 10)
    else if leb b'A' character && leb character b'F'
    then some (character - b'A' + 10)
    else none

abbrev pub pair_of : Option ℕ → Option ℕ → Option (List ℕ) → Option (List ℕ)
pair_of (some high) (some low) (some bytes) = some ((high * 16 + low) ∷ bytes)
pair_of none low rest = none
pair_of (some high) none rest = none
pair_of (some high) (some low) none = none

-- The loop of object_id_from_hex.
unfoldable pub pairs : List ℕ → Option (List ℕ)
unfolding digit
pairs (first ∷ second ∷ digits) = pair_of (digit first) (digit second) (pairs digits)
pairs (first ∷ []) = some []
pairs [] = some []

-- object_id_from_hex
unfoldable pub object_id_from_hex : List ℕ → Option ObjectId
unfolding pairs
object_id_from_hex text = if length text == object_id_size * 2 then pairs text else none

-- transfer_encode_lookup_request
unfoldable pub encode_lookup_request : List ℕ → Result (List ℕ)
unfolding object_id_from_hex
encode_lookup_request selector = elim (object_id_from_hex selector) [
  | some id ↦ ok (selector_object_id ∷ (put_u16 object_id_size ++ id))
  | none ↦
      if length selector == 0 || leb metadata_name_size (length selector)
      then err einval
      else ok (selector_name ∷ (put_u16 (length selector) ++ selector))
]

-- What transfer_decode_lookup_request sets: the type, the identifier and the name.
pub record Selector : Type 0 where
  pub kind : ℕ
  pub id : ObjectId
  pub name : List ℕ

-- transfer_decode_lookup_request from its third test on; `text` is the payload from byte 3 on.
unfoldable pub accept_selector : ℕ → ℕ → List ℕ → Result Selector
accept_selector kind size text =
    if kind == selector_object_id
    then (if size == object_id_size
        then ok (record { kind = kind; id = take object_id_size text; name = [] })
        else err ebadmsg)
    else if size == 0
        || (leb metadata_name_size size
            || (has_byte 0 (take size text) || has_byte b'/' (take size text)))
    then err ebadmsg
    else ok (record { kind = kind; id = replicate object_id_size 0; name = take size text })

-- transfer_decode_lookup_request
unfoldable pub decode_lookup_request : List ℕ → Result Selector
unfolding accept_selector
decode_lookup_request payload =
    let kind = get_or payload 0 0 in
    let size = get_u16 (drop 1 payload) in
    if ltb (length payload) 3
    then err ebadmsg
    else if not (kind == selector_object_id || kind == selector_name)
        || not (3 + size == length payload)
    then err ebadmsg
    else accept_selector kind size (drop 3 payload)

-- The loop of transfer_encode_lookup_result over the peers of a chunk, with the size so far.
unfoldable pub peers_size : ℕ → List TransferEndpoint → Result ℕ
peers_size size [] = ok size
peers_size size (peer ∷ peers) =
    let rest = peers_size (size + (endpoint_fixed_size + length peer.ip)) peers in
    if length peer.ip == 0
      || (leb node_address_size (length peer.ip)
          || ltb (size_max - endpoint_fixed_size - length peer.ip) size)
    then err einval
    else rest

-- The loop over the chunks.
unfoldable pub chunks_size : ℕ → List TransferChunkLocations → Result ℕ
unfolding peers_size
chunks_size size [] = ok size
chunks_size size (chunk ∷ chunks) =
    if ltb 65535 (length chunk.peers) || ltb (size_max - 2 - descriptor_size) size
    then err eoverflow
    else peers_size (size + (2 + descriptor_size)) chunk.peers >>= λ later. chunks_size later chunks

unfoldable pub endpoint_bytes : TransferEndpoint → List ℕ
endpoint_bytes peer = peer.node_id ++ ((length peer.ip % 256) ∷ (peer.ip ++ put_u16 peer.port))

unfoldable pub peers_bytes : List TransferEndpoint → List ℕ
unfolding endpoint_bytes
peers_bytes [] = []
peers_bytes (peer ∷ peers) = endpoint_bytes peer ++ peers_bytes peers

unfoldable pub locations_bytes : List TransferChunkLocations → List ℕ
unfolding peers_bytes
locations_bytes [] = []
locations_bytes (chunk ∷ chunks) =
    encode_descriptor chunk.descriptor
    ++ (put_u16 (length chunk.peers) ++ (peers_bytes chunk.peers ++ locations_bytes chunks))

-- transfer_encode_lookup_result; `chunks` is the array of chunk_count elements.
unfoldable pub encode_lookup_result : TransferLookupResult → Result (List ℕ)
unfolding chunks_size locations_bytes
encode_lookup_result result =
    chunks_size (document_wire_size result.document) result.chunks >>= λ size.
    if ltb max_payload_size size
    then err eoverflow
    else encode_document_at result.document download_metadata size >>= λ head.
        ok (head ++ locations_bytes result.chunks)

-- A round of the loop of transfer_decode_lookup_result over the peers of a chunk, from the size of the
-- address on: `left` bytes are left, the next ones hold the address, then comes the port.
unfoldable pub accept_peer : NodeId → ℕ → ℕ → List ℕ → List ℕ → Result (TransferEndpoint × List ℕ)
accept_peer node_id ip_size left ip after_ip =
    if ip_size == 0
      || (leb node_address_size ip_size || (ltb left (ip_size + 2) || get_u16 after_ip == 0))
    then err ebadmsg
    else ok
        (record { node_id = node_id; ip = c_string ip; port = get_u16 after_ip }, drop 2 after_ip)

unfoldable pub peer_at : NodeId → List ℕ → Result (TransferEndpoint × List ℕ)
unfolding accept_peer
peer_at node_id after_id =
    let ip_size = get_or after_id 0 0 in
    let text = drop 1 after_id in
    accept_peer node_id ip_size (length text) (take ip_size text) (drop ip_size text)

unfoldable pub read_peer : List ℕ → Result (TransferEndpoint × List ℕ)
unfolding peer_at
read_peer bytes =
    if ltb (length bytes) endpoint_fixed_size
    then err ebadmsg
    else peer_at (take node_id_size bytes) (drop node_id_size bytes)

-- That loop, and the bytes behind the peers.
unfoldable pub decode_peers : ℕ → List ℕ → Result (List TransferEndpoint × List ℕ)
unfolding read_peer
decode_peers zero bytes = ok ([], bytes)
decode_peers (suc count) bytes = read_peer bytes >>= λ first.
    decode_peers count first.1 >>= λ peers. ok (first.0 ∷ peers.0, peers.1)

-- The loop over the chunks: the rounds left and chunk_index.
unfoldable pub decode_locations : ℕ → ℕ → List ℕ → Result (List TransferChunkLocations × List ℕ)
unfolding decode_peers
decode_locations zero index bytes = ok ([], bytes)
decode_locations (suc count) index bytes =
    if ltb (length bytes) (descriptor_size + 2) || not ((decode_descriptor bytes).index == index)
    then err ebadmsg
    else decode_peers (get_u16 (drop descriptor_size bytes)) (drop (descriptor_size + 2) bytes)
      >>= λ peers. decode_locations count (suc index) peers.1 >>= λ chunks.
          ok (record { descriptor = decode_descriptor bytes; peers = peers.0 } ∷ chunks.0, chunks.1)

-- transfer_decode_lookup_result from the decoded document on. The bound of the size of an element on the
-- count cannot be met: the payload has more bytes than elements.
unfoldable pub accept_lookup_result : TransferDocument × List ℕ → Result TransferLookupResult
unfolding decode_locations
accept_lookup_result (document, rest) =
    if ltb (length rest / (descriptor_size + 2)) document.chunk_count
    then err ebadmsg
    else decode_locations document.chunk_count 0 rest >>= λ chunks.
        if length chunks.1 == 0
        then ok (record { document = document; chunks = chunks.0 })
        else err ebadmsg

-- transfer_decode_lookup_result
unfoldable pub decode_lookup_result : List ℕ → Result TransferLookupResult
unfolding accept_lookup_result
decode_lookup_result payload = decode_document_at payload download_metadata >>= accept_lookup_result
