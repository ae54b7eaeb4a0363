-- ===== src/ChordNetwork.antt =====
-- chord_network.c: the payloads of the overlay and the answers to other nodes. The ring state of a node changes
-- between the steps of a call only where the call itself changes it.
pub mod Lookup
pub mod Upkeep
pub mod Visited
pub mod Answers
pub mod Confirmed
pub mod Reach
pub mod RoundTrip
mod Examples
use trabalho_distribuidos.Prelude.{
  ℕ, zero, suc, ◌+◌, Bool, true, false, not, ◌&&◌, ◌||◌, Option, none, some, List, [], ◌∷◌, length,
  drop, ◌==◌, ltb, leb, if◌then◌else◌, Result, ok, err, einval, ebadmsg, eacces, eexist, eloop,
  ehostunreach, Errno, ◌≡◌, refl, ◌⊎◌, inl, inr, ◌>>=◌, ◌>>◌, require, ℤ, get_or,
}
use trabalho_distribuidos.Node.{NodeId, Node, Platform, init, node_id_size}
use trabalho_distribuidos.Chord.{
  Chord, ChordPeer, Hop, same_id, get_successor, get_predecessor, get_finger, route, notify,
  consider_predecessor, set_successor, set_finger,
}
use trabalho_distribuidos.Chord.Power.{finger_count, add_power}
use trabalho_distribuidos.Gossip.{encode_join_payload, decode_join_payload, join_payload_wire_size}

-- The message types of the overlay.
abbrev pub m_ack : ℕ
m_ack = 1

abbrev pub m_chord_info : ℕ
m_chord_info = 20

abbrev pub m_chord_route : ℕ
m_chord_route = 21

abbrev pub m_chord_predecessor : ℕ
m_chord_predecessor = 22

abbrev pub m_chord_notify : ℕ
m_chord_notify = 23

abbrev pub m_chord_finger : ℕ
m_chord_finger = 24

-- CHORD_ROUTE_WIRE_SIZE
abbrev pub chord_route_wire_size : ℕ
chord_route_wire_size = 1 + join_payload_wire_size

-- What the overlay reads of a Message; its size is the length of the payload.
pub record Message : Type 0 where
  pub message_type : ℕ
  pub source_node : NodeId
  pub payload : List ℕ

module _ (platform : Platform) (process_id : ℤ) where
  -- decode_peer and encode_peer
  unfoldable pub decode_peer : List ℕ → Result ChordPeer
  decode_peer payload = do
    config ← decode_join_payload platform payload
    node ← init platform process_id config
    ok (record { id = node.id; config = config })

  unfoldable pub encode_peer : ChordPeer → Result (List ℕ)
  encode_peer peer = encode_join_payload platform peer.config

  -- The answer to M_CHORD_ROUTE.
  unfoldable pub read_route : Message → Result Hop
  unfolding decode_peer
  read_route response =
      if not (response.message_type == m_chord_route)
        || (not (length response.payload == chord_route_wire_size)
            || ltb 1 (get_or response.payload 0 0))
      then err ebadmsg
      else elim (decode_peer (drop 1 response.payload)) [
        | err e ↦ err ebadmsg
        | ok next ↦ ok (record { next = next; complete = not (get_or response.payload 0 0 == 0) })
      ]

  -- The answer to M_CHORD_INFO is that of the node asked.
  unfoldable pub confirms : ChordPeer → Message → Bool
  unfolding decode_peer
  confirms next check = check.message_type == m_chord_info && elim (decode_peer check.payload) [
    | err e ↦ false
    | ok confirmed ↦ same_id confirmed.id next.id
  ]

  -- chord_network_handle without its M_CHORD_NOTIFY branch, which alone changes the state: the type and
  -- the payload of the answer.
  unfoldable pub answer_request : Chord → Message → Result (ℕ × List ℕ)
  unfolding encode_peer
  answer_request chord request =
      if request.message_type == m_chord_info && length request.payload == 0
      then (do payload ← encode_peer chord.local; ok (m_chord_info, payload))
      else if request.message_type == m_chord_route && length request.payload == node_id_size
      then (do
        payload ← encode_peer (route chord request.payload).next
        ok (m_chord_route, (if (route chord request.payload).complete then 1 else 0) ∷ payload))
      else if request.message_type == m_chord_predecessor && length request.payload == 0
      then elim (get_predecessor chord) [
        | none ↦ ok (m_chord_predecessor, [])
        | some peer ↦ do payload ← encode_peer peer; ok (m_chord_predecessor, payload)
      ]
      else if request.message_type == m_chord_finger && length request.payload == 1
      then (do
        peer ← get_finger chord (get_or request.payload 0 0)
        payload ← encode_peer peer
        ok (m_chord_finger, payload))
      else err einval

  -- The M_CHORD_NOTIFY branch; every failure is EACCES.
  unfoldable pub answer_notify : Chord → Message → Result Chord
  unfolding decode_peer
  answer_notify chord request =
      elim (do
        peer ← decode_peer request.payload
        require (same_id peer.id request.source_node) eacces
        notify platform chord peer) [ err e ↦ err eacces | ok after ↦ ok after ]

  -- chord_network_handle: the answer and the new state.
  unfoldable pub handle : Chord → Message → Result ((ℕ × List ℕ) × Chord)
  unfolding answer_request answer_notify
  handle chord request =
      if request.message_type == m_chord_notify && length request.payload == join_payload_wire_size
      then (do after ← answer_notify chord request; ok ((m_ack, []), after))
      else (do answer ← answer_request chord request; ok (answer, chord))
