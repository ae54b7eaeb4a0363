-- ===== src/Transfer/Lookup/RoundTrip.antt =====
-- The answer to a request for a file survives its encoding.
use mathlib.Core.List.{append_assoc}
use trabalho_distribuidos.Prelude.{
  ℕ, suc, ◌+◌, ◌-◌, ◌*◌, ◌/◌, ◌%◌, ◌^◌, ◌<◌, ◌≤◌, ◌≡◌, refl, false, not, ◌||◌, List, [], ◌∷◌, ◌++◌,
  All, arith, length, drop, ◌==◌, ltb, leb, if◌then◌else◌, Result, ok, err, eoverflow, ◌>>=◌, ap,
  ◌∙◌, sym, length-append, take-append, drop-append, drop-past,
}
use trabalho_distribuidos.Wire.{put_u16, get_u16}
use trabalho_distribuidos.Wire.RoundTrip.{get_u16-put_u16, length-put_u16}
use trabalho_distribuidos.Protocol.{max_payload_size}
use trabalho_distribuidos.Node.{c_string, node_id_size, node_address_size}
use trabalho_distribuidos.Metadata.{MetadataChunk}
use trabalho_distribuidos.Membership.{size_max}
use trabalho_distribuidos.Transfer.{
  TransferDocument, TransferEndpoint, TransferChunkLocations, TransferLookupResult,
  download_metadata,
}
use trabalho_distribuidos.Transfer.Document.{document_wire_size, encode_document_at}
use trabalho_distribuidos.Transfer.Document.RoundTrip.{
  IsDocument, decode_document_at-document_bytes, encode_document_at-ok,
}
use trabalho_distribuidos.Transfer.Chunk.{descriptor_size, encode_descriptor, decode_descriptor}
use trabalho_distribuidos.Transfer.Chunk.RoundTrip.{
  IsDescriptor, length-encode_descriptor, decode_descriptor-encode_descriptor,
}
use trabalho_distribuidos.Transfer.Lookup.{
  endpoint_fixed_size, peers_size, chunks_size, endpoint_bytes, peers_bytes, locations_bytes,
  encode_lookup_result, accept_peer, peer_at, read_peer, decode_peers, decode_locations,
  accept_lookup_result, decode_lookup_result,
}

-- An endpoint that the code sends: an address of 1 to 45 bytes without NUL, and a port that is not 0.
pub record IsEndpoint (peer : TransferEndpoint) : Type 0 where
  pub node_id : length peer.node_id ≡ node_id_size
  pub some_ip : 0 < length peer.ip
  pub short_ip : length peer.ip < node_address_size
  pub no_nul : c_string peer.ip ≡ peer.ip
  pub some_port : 0 < peer.port
  pub port : peer.port < 2 ^ 16

module _ (peer : TransferEndpoint) (rest : List ℕ) (is : IsEndpoint peer) where
  abbrev behind_id : List ℕ
  behind_id = length peer.ip ∷ (peer.ip ++ (put_u16 peer.port ++ rest))

  split : endpoint_bytes peer ++ rest ≡ peer.node_id ++ behind_id
  unfolding endpoint_bytes put_u16
  split =
      let e : length peer.ip % 256 ≡ length peer.ip = omega (arith, is.short_ip) in
      rw e (simp append_assoc)

  accepts :
      accept_peer peer.node_id
        (length peer.ip)
        (length (peer.ip ++ (put_u16 peer.port ++ rest)))
        peer.ip
        (put_u16 peer.port ++ rest)
      ≡ ok (peer, rest)
  unfolding accept_peer
  accepts =
      let port = get_u16-put_u16 peer.port rest is.port in
      let good : (length peer.ip == 0
            || (leb node_address_size (length peer.ip)
                || (ltb (length (peer.ip ++ (put_u16 peer.port ++ rest))) (length peer.ip + 2)
                    || get_u16 (put_u16 peer.port ++ rest) == 0)))
          ≡ false =
        ground (
          arith,
          is.some_ip,
          is.short_ip,
          port,
          is.some_port,
          length-append peer.ip (put_u16 peer.port ++ rest),
          length-append (put_u16 peer.port) rest,
          length-put_u16 peer.port,
        ) in
      rw good (λ i. ok (
        record { node_id = peer.node_id; ip = is.no_nul i; port = port i },
        drop-append 2 (put_u16 peer.port) rest (length-put_u16 peer.port) i,
      ))

  pub read_peer-endpoint_bytes : read_peer (endpoint_bytes peer ++ rest) ≡ ok (peer, rest)
  unfolding read_peer
  read_peer-endpoint_bytes =
      let tail : List ℕ = put_u16 peer.port ++ rest in
      let long : ltb (length (peer.node_id ++ behind_id)) endpoint_fixed_size ≡ false = ground (
        arith,
        length-append peer.node_id behind_id,
        is.node_id,
        length-append peer.ip tail,
        length-append (put_u16 peer.port) rest,
        length-put_u16 peer.port,
        is.some_ip,
      ) in
      ap read_peer split
      ∙ rw long (
          (λ i.
            peer_at (take-append node_id_size peer.node_id behind_id is.node_id i)
              (drop-append node_id_size peer.node_id behind_id is.node_id i))
          ∙ (λ i.
              accept_peer peer.node_id (length peer.ip) (length (peer.ip ++ tail))
                (take-append (length peer.ip) peer.ip tail refl i)
                (drop-append (length peer.ip) peer.ip tail refl i))
          ∙ accepts)

length-endpoint_bytes :
    (peer : TransferEndpoint)
    → IsEndpoint peer
    → length (endpoint_bytes peer) ≡ endpoint_fixed_size + length peer.ip
unfolding endpoint_bytes
length-endpoint_bytes peer is = omega (
  arith,
  length-append peer.node_id ((length peer.ip % 256) ∷ (peer.ip ++ put_u16 peer.port)),
  length-append peer.ip (put_u16 peer.port),
  length-put_u16 peer.port,
  is.node_id,
)

decode_peers-peers_bytes :
    (peers : List TransferEndpoint) (rest : List ℕ)
    → All IsEndpoint peers
    → decode_peers (length peers) (peers_bytes peers ++ rest) ≡ ok (peers, rest)
unfolding decode_peers peers_bytes
decode_peers-peers_bytes [] rest h = refl
decode_peers-peers_bytes (p ∷ peers) rest (is, h) =
    let one : read_peer ((endpoint_bytes p ++ peers_bytes peers) ++ rest)
        ≡ ok (p, peers_bytes peers ++ rest) =
      ap read_peer (append_assoc (endpoint_bytes p) (peers_bytes peers) rest)
      ∙ read_peer-endpoint_bytes p (peers_bytes peers ++ rest) is in
    rw (one, decode_peers-peers_bytes peers rest h) refl

-- The chunks of an answer from the given index on: each has that index, a descriptor that fits, and fewer than 65536
-- peers.
abbrev pub AreLocations : ℕ → List TransferChunkLocations → Type 0
AreLocations index [] = Unit {0}
AreLocations index (chunk ∷ chunks) =
    IsDescriptor chunk.descriptor
    × (chunk.descriptor.index ≡ index)
    × All IsEndpoint chunk.peers
    × (length chunk.peers < 65536)
    × AreLocations (suc index) chunks

peers_size-eq :
    (size : ℕ) (peers : List TransferEndpoint)
    → All IsEndpoint peers
    → size + length (peers_bytes peers) ≤ max_payload_size
    → peers_size size peers ≡ ok (size + length (peers_bytes peers))
unfolding peers_size peers_bytes
peers_size-eq size [] h room = ap ok (omega arith)
peers_size-eq size (p ∷ peers) (is, h) room =
    let e = length-append (endpoint_bytes p) (peers_bytes peers) in
    let l = length-endpoint_bytes p is in
    let good : (length p.ip == 0
          || (leb node_address_size (length p.ip)
              || ltb (size_max - endpoint_fixed_size - length p.ip) size))
        ≡ false =
      ground (arith, is.some_ip, is.short_ip) in
    rw good (
      peers_size-eq (size + (endpoint_fixed_size + length p.ip)) peers h (omega arith)
      ∙ ap ok (omega arith))

length-locations :
    (chunk : TransferChunkLocations) (chunks : List TransferChunkLocations)
    → IsDescriptor chunk.descriptor
    → length (locations_bytes (chunk ∷ chunks))
      ≡ descriptor_size + 2 + length (peers_bytes chunk.peers) + length (locations_bytes chunks)
unfolding locations_bytes
length-locations chunk chunks is = omega (
  arith,
  length-append (encode_descriptor chunk.descriptor)
      (put_u16 (length chunk.peers) ++ (peers_bytes chunk.peers ++ locations_bytes chunks)),
  length-encode_descriptor chunk.descriptor is,
  length-append (put_u16 (length chunk.peers)) (peers_bytes chunk.peers ++ locations_bytes chunks),
  length-put_u16 (length chunk.peers),
  length-append (peers_bytes chunk.peers) (locations_bytes chunks),
)

-- The loop that measures an answer gives its length.
chunks_size-eq :
    (size index : ℕ) (chunks : List TransferChunkLocations)
    → AreLocations index chunks
    → size + length (locations_bytes chunks) ≤ max_payload_size
    → chunks_size size chunks ≡ ok (size + length (locations_bytes chunks))
unfolding chunks_size
chunks_size-eq size index [] h room = ap ok (unfold locations_bytes in omega arith)
chunks_size-eq size index (c ∷ chunks) (is, at', peers, few, h) room =
    let l = length-locations c chunks is in
    let good : (ltb 65535 (length c.peers) || ltb (size_max - 2 - descriptor_size) size) ≡ false =
      ground arith in
    let one = peers_size-eq (size + (2 + descriptor_size)) c.peers peers (omega arith) in
    rw good (
      ap (λ (r : Result ℕ). r >>= λ later. chunks_size later chunks) one
      ∙ chunks_size-eq (size + (2 + descriptor_size) + length (peers_bytes c.peers)) (suc index)
          chunks h (omega arith)
      ∙ ap ok (omega arith))

module _ (c : TransferChunkLocations) (chunks : List TransferChunkLocations)
    (is : IsDescriptor c.descriptor) where
  abbrev behind_descriptor : List ℕ
  behind_descriptor = put_u16 (length c.peers) ++ (peers_bytes c.peers ++ locations_bytes chunks)

  drop-descriptor :
      drop descriptor_size (encode_descriptor c.descriptor ++ behind_descriptor) ≡ behind_descriptor
  drop-descriptor =
      drop-append descriptor_size (encode_descriptor c.descriptor) behind_descriptor
        (length-encode_descriptor c.descriptor is)

  drop-count :
      drop (descriptor_size + 2) (encode_descriptor c.descriptor ++ behind_descriptor)
      ≡ peers_bytes c.peers ++ locations_bytes chunks
  drop-count =
      drop-past (encode_descriptor c.descriptor) behind_descriptor (descriptor_size + 2) 2
        (omega (arith, length-encode_descriptor c.descriptor is))
      ∙ drop-append 2 (put_u16 (length c.peers)) (peers_bytes c.peers ++ locations_bytes chunks)
          (length-put_u16 (length c.peers))

decode_locations-locations_bytes :
    (index : ℕ) (chunks : List TransferChunkLocations)
    → AreLocations index chunks
    → decode_locations (length chunks) index (locations_bytes chunks) ≡ ok (chunks, [])
unfolding decode_locations locations_bytes
decode_locations-locations_bytes index [] h = refl
decode_locations-locations_bytes index (c ∷ chunks) (is, at', peers, few, h) =
    let bytes : List ℕ = encode_descriptor c.descriptor ++ behind_descriptor c chunks is in
    let back : decode_descriptor bytes ≡ c.descriptor =
      decode_descriptor-encode_descriptor c.descriptor (behind_descriptor c chunks is) is in
    let count : get_u16 (drop descriptor_size bytes) ≡ length c.peers =
      ap get_u16 (drop-descriptor c chunks is)
      ∙ get_u16-put_u16 (length c.peers) (peers_bytes c.peers ++ locations_bytes chunks)
          (omega arith) in
    let good : (ltb (length bytes) (descriptor_size + 2)
          || not ((decode_descriptor bytes).index == index))
        ≡ false =
      ground (
        arith,
        length-append (encode_descriptor c.descriptor) (behind_descriptor c chunks is),
        length-encode_descriptor c.descriptor is,
        ap (λ (d : MetadataChunk). d.index) back,
        at',
        length-append (put_u16 (length c.peers)) (peers_bytes c.peers ++ locations_bytes chunks),
        length-put_u16 (length c.peers),
      ) in
    rw good (
      ap
        (λ (r : Result (List TransferEndpoint × List ℕ)). r >>= λ found.
          decode_locations (length chunks) (suc index) found.1 >>= λ others.
          ok
            (record { descriptor = decode_descriptor bytes; peers = found.0 } ∷ others.0, others.1))
        ((λ i. decode_peers (count i) (drop-count c chunks is i))
          ∙ decode_peers-peers_bytes c.peers (locations_bytes chunks) peers)
      ∙ (λ i. decode_locations-locations_bytes (suc index) chunks h i >>= λ others.
          ok (record { descriptor = back i; peers = c.peers } ∷ others.0, others.1)))

locations_long :
    (index : ℕ) (chunks : List TransferChunkLocations)
    → AreLocations index chunks
    → length chunks * (descriptor_size + 2) ≤ length (locations_bytes chunks)
locations_long index [] h = omega arith
locations_long index (c ∷ chunks) (is, at', peers, few, h) =
    omega (arith, length-locations c chunks is, locations_long (suc index) chunks h)

-- An answer whose document is one that the code sends (IsDocument), with one descriptor for each chunk
-- in their order, fewer than 65536 peers for each, addresses of 1 to 45 bytes and ports that are not 0,
-- and in all at most MAX_PAYLOAD_SIZE bytes, is what transfer_decode_lookup_result gives back from
-- the bytes of transfer_encode_lookup_result.
pub decode_lookup_result-encode_lookup_result :
    (result : TransferLookupResult)
    → IsDocument result.document
    → length result.chunks ≡ result.document.chunk_count
    → AreLocations 0 result.chunks
    → document_wire_size result.document + length (locations_bytes result.chunks) ≤ max_payload_size
    → (encode_lookup_result result >>= decode_lookup_result) ≡ ok result
unfolding encode_lookup_result decode_lookup_result accept_lookup_result
decode_lookup_result-encode_lookup_result result is count all room =
    let size = document_wire_size result.document + length (locations_bytes result.chunks) in
    let small : ltb max_payload_size size ≡ false = ground arith in
    let head = encode_document_at-ok result.document download_metadata size is (omega arith) in
    let body : decode_locations result.document.chunk_count 0 (locations_bytes result.chunks)
        ≡ ok (result.chunks, []) =
      ap (λ (n : ℕ). decode_locations n 0 (locations_bytes result.chunks)) (sym count)
      ∙ decode_locations-locations_bytes 0 result.chunks all in
    let fits : ltb (length (locations_bytes result.chunks) / (descriptor_size + 2))
          result.document.chunk_count
        ≡ false =
      ground (arith, locations_long 0 result.chunks all) in
    ap
      (λ (r : Result ℕ).
        (r >>= λ n.
        if ltb max_payload_size n
        then err eoverflow
        else encode_document_at result.document download_metadata n >>= λ h.
            ok (h ++ locations_bytes result.chunks))
        >>= decode_lookup_result)
      (chunks_size-eq (document_wire_size result.document) 0 result.chunks all room)
    ∙ rw small (
        ap
          (λ (r : Result (List ℕ)).
            (r >>= λ h. ok (h ++ locations_bytes result.chunks)) >>= decode_lookup_result)
          head
        ∙ ap (λ (r : Result (TransferDocument × List ℕ)). r >>= accept_lookup_result)
            (decode_document_at-document_bytes result.document download_metadata
              (locations_bytes result.chunks) is)
        ∙ rw (fits, body) refl)
