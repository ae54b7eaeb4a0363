-- ===== src/ChordNetwork/Upkeep.antt =====
-- chord_network.c: chord_network_join and chord_network_maintain, which change the ring state of a node.
use trabalho_distribuidos.Prelude.{
  ℕ, not, ◌&&◌, ◌||◌, none, some, List, [], length, ◌==◌, ltb, if◌then◌else◌, Result, ok, err,
  einval, ebadmsg, eexist, ◌>>=◌, ◌>>◌, require, ℤ,
}
use trabalho_distribuidos.Node.{Platform}
use trabalho_distribuidos.Chord.{
  Chord, ChordPeer, same_id, get_successor, get_predecessor, consider_predecessor, set_successor,
  set_finger,
}
use trabalho_distribuidos.Chord.Power.{finger_count, add_power}
use trabalho_distribuidos.Gossip.{join_payload_wire_size}
use trabalho_distribuidos.ChordNetwork.{
  Message, m_ack, m_chord_info, m_chord_predecessor, m_chord_notify, decode_peer, encode_peer,
}
use trabalho_distribuidos.ChordNetwork.Lookup.{find_from, find}

module _ (platform : Platform) (process_id : ℤ) where
  -- The bootstrap node that an answer to M_CHORD_INFO describes, if the sender is that node.
  unfoldable pub read_bootstrap : Message → Result ChordPeer
  unfolding decode_peer
  read_bootstrap response =
      if not (response.message_type == m_chord_info)
        || not (length response.payload == join_payload_wire_size)
      then err ebadmsg
      else elim (decode_peer platform process_id response.payload) [
        | err e ↦ err ebadmsg
        | ok bootstrap ↦
            if same_id bootstrap.id response.source_node then ok bootstrap else err ebadmsg
      ]

  -- A call whose result is ignored.
  abbrev pub kept : Chord → Result Chord → Chord
  kept chord (err e) = chord
  kept chord (ok after) = after

  -- The answer to M_CHORD_PREDECESSOR.
  unfoldable pub consider_candidate : Chord → Message → Result Chord
  unfolding decode_peer
  consider_candidate chord response =
      if not (response.message_type == m_chord_predecessor)
        || not (length response.payload == 0 || length response.payload == join_payload_wire_size)
      then err ebadmsg
      else if length response.payload == join_payload_wire_size
      then (do
        candidate ← decode_peer platform process_id response.payload
        ok (kept chord (consider_predecessor platform chord candidate)))
      else ok chord

  module _ (call : ℕ → ChordPeer → ℕ → List ℕ → Result Message) where
    -- chord_network_join, with what the call of the bootstrap address gets.
    unfoldable pub join : Chord → Result Message → Result Chord
    unfolding read_bootstrap find_from
    join chord contact = do
      response ← contact
      bootstrap ← read_bootstrap response
      require (not (same_id chord.local.id bootstrap.id)) eexist
      successor ← (find_from platform process_id call chord bootstrap chord.local.id).0
      set_successor platform chord successor

    -- M_CHORD_NOTIFY to the successor and the answer to it.
    unfoldable pub notify_successor : Chord → Result (Unit {0})
    unfolding encode_peer
    notify_successor chord = do
      payload ← encode_peer platform process_id chord.local
      response ← call 0 (get_successor chord) m_chord_notify payload
      require (response.message_type == m_ack && length response.payload == 0) ebadmsg

    -- The first half of chord_network_maintain: stabilize and notify. A change made before a failure
    -- stays.
    unfoldable pub stabilize : Chord → Chord × Result (Unit {0})
    unfolding consider_candidate notify_successor
    stabilize chord =
        if same_id (get_successor chord).id chord.local.id
        then (
          elim (get_predecessor chord) [
            | none ↦ chord
            | some candidate ↦ kept chord (consider_predecessor platform chord candidate)
          ],
          ok tt,
        )
        else elim (do
          response ← call 0 (get_successor chord) m_chord_predecessor []
          consider_candidate chord response) [
            | err e ↦ (chord, err e)
            | ok after ↦ (after, notify_successor after)
          ]

    -- The second half: one entry of the finger table.
    unfoldable pub fix_finger : Chord → ℕ → Result Chord
    unfolding find
    fix_finger chord index = elim (add_power chord.local.id index) [
      | none ↦ err einval
      | some start ↦ do
        finger ← find platform process_id call chord start
        set_finger platform chord index finger
    ]

    -- chord_network_maintain
    unfoldable pub maintain : Chord → ℕ → Chord × Result (Unit {0})
    unfolding stabilize fix_finger
    maintain chord index =
        if not (ltb index finger_count) then (chord, err einval) else elim (stabilize chord).1 [
          | err e ↦ stabilize chord
          | ok done ↦ elim (fix_finger (stabilize chord).0 index) [
            | err e ↦ ((stabilize chord).0, err e)
            | ok after ↦ (after, ok tt)
          ]
        ]
