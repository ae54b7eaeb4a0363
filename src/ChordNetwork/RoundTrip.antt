-- ===== src/ChordNetwork/RoundTrip.antt =====
-- chord_network.c: a node that asks another one for a route.
use trabalho_distribuidos.Prelude.{
  ℕ, ◌≡◌, refl, Bool, true, false, List, ◌++◌, arith, length, length-append, ok, ℤ, ◌>>=◌, ap, ltb,
  not, ◌==◌, if◌then◌else◌,
}
use trabalho_distribuidos.Wire.{put_u16}
use trabalho_distribuidos.Node.{NodeId, Platform, config_validate, compute_id, init, node_id_size}
use trabalho_distribuidos.Chord.{Chord, ChordPeer, route}
use trabalho_distribuidos.Gossip.{
  config_bytes, encode_join_payload, decode_join_payload, join_payload_wire_size,
}
use trabalho_distribuidos.Gossip.RoundTrip.{IsConfig, decode_join_payload-encode_join_payload}
use trabalho_distribuidos.ChordNetwork.{
  Message, m_chord_route, decode_peer, encode_peer, read_route, handle, answer_request,
}

-- A peer whose identifier is that of its configuration, which is valid, with a canonical address.
pub record IsPeer (platform : Platform) (peer : ChordPeer) : Type 0 where
  pub config : IsConfig platform peer.config
  pub accepted : config_validate platform peer.config ≡ ok tt
  pub identified : compute_id platform peer.config ≡ ok peer.id

flag-bounds : (c : Bool) → ltb 1 (if c then 1 else 0) ≡ false
flag-bounds true = refl
flag-bounds false = refl

flag-back : (c : Bool) → not ((if c then 1 else 0) == 0) ≡ c
flag-back true = refl
flag-back false = refl

module _ (platform : Platform) (process_id : ℤ) where
  encoded :
      (peer : ChordPeer)
      → IsPeer platform peer
      → encode_peer platform process_id peer ≡ ok (config_bytes peer.config)
  unfolding encode_peer encode_join_payload
  encoded peer is = rw (is.accepted, encode_peer, encode_join_payload) refl

  config_bytes-size :
      (peer : ChordPeer)
      → IsPeer platform peer
      → length (config_bytes peer.config) ≡ join_payload_wire_size
  unfolding config_bytes put_u16
  config_bytes-size peer is =
      let a = length-append peer.config.ip (put_u16 peer.config.port ++ peer.config.uuid) in
      let b = length-append (put_u16 peer.config.port) peer.config.uuid in
      omega (arith, a, b, is.config.ip, is.config.uuid)

  decoded :
      (peer : ChordPeer)
      → IsPeer platform peer
      → decode_peer platform process_id (config_bytes peer.config) ≡ ok peer
  unfolding decode_peer init encode_join_payload
  decoded peer is =
      let trip =
        decode_join_payload-encode_join_payload platform peer.config is.config is.accepted in
      let known : decode_join_payload platform (config_bytes peer.config) ≡ ok peer.config =
        rw (is.accepted, encode_join_payload) at trip in
      rw (known, decode_peer, is.identified, init) refl

  -- The message with the answer of a node.
  abbrev pub reply : NodeId → ℕ × List ℕ → Message
  reply source (message_type, payload) = record {
    message_type = message_type;
    source_node = source;
    payload = payload;
  }

  -- What find_from reads from the answer of another node to M_CHORD_ROUTE, which that node writes in
  -- chord_network_handle, is the route of that node for the key, if the peer it names has a valid
  -- configuration with a canonical address, and the identifier of that configuration.
  pub read_route-handle :
      (chord : Chord) (asker source : NodeId) (key : NodeId)
      → length key ≡ node_id_size
      → IsPeer platform (route chord key).next
      → (handle platform process_id chord
            (record { message_type = m_chord_route; source_node = asker; payload = key })
          >>= λ (answer, after). read_route platform process_id (reply source answer))
        ≡ ok (route chord key)
  unfolding handle answer_request read_route
  read_route-handle chord asker source key size is =
      let e = encoded (route chord key).next is in
      let d = decoded (route chord key).next is in
      let n = config_bytes-size (route chord key).next is in
      let f = flag-bounds (route chord key).complete in
      let b = flag-back (route chord key).complete in
      rw (size, e, n, f, d)
        (ap (λ c. ok (record { next = (route chord key).next; complete = c })) b)
