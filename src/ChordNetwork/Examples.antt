-- ===== src/ChordNetwork/Examples.antt =====
-- The ring of Chord.Examples among nodes that answer, or do not.
use trabalho_distribuidos.Prelude.{
  ◌==◌, if◌then◌else◌, ℕ, ◌+◌, ◌≤◌, ◌≡◌, refl, [], ◌∷◌, ◌++◌, arith, length, Result, ok, err, eio,
  pos, ◌>>=◌, compare_bytes, true, subst, sym, List,
}
use trabalho_distribuidos.Wire.{put_u16, get_u16}
use trabalho_distribuidos.Node.{
  NodeId, config_init_with_uuid, normalize_ip, compute_id, config_validate, address_bytes, init,
  equal, compare,
}
use trabalho_distribuidos.Node.Examples.{one_address, config_of, id_of}
use trabalho_distribuidos.Chord.{Chord, ChordPeer, create, route}
use trabalho_distribuidos.Chord.Interval.{open_closed}
use trabalho_distribuidos.Chord.Power.{finger_count}
use trabalho_distribuidos.Chord.Examples.{peer, local_node, ring}
use trabalho_distribuidos.Gossip.{decode_join_payload}
use trabalho_distribuidos.Transfer.Transaction.{AllDiffer}
use trabalho_distribuidos.ChordNetwork.{
  Message, m_chord_route, decode_peer, confirms, handle, read_route,
}
use trabalho_distribuidos.ChordNetwork.Lookup.{
  confirm, follow, ask, visit, is_visited, find_loop, find_from,
}
use trabalho_distribuidos.ChordNetwork.Visited.{find_from-visited}
use trabalho_distribuidos.ChordNetwork.Confirmed.{IsConfirmed, find_from-IsConfirmed}
use trabalho_distribuidos.ChordNetwork.RoundTrip.{IsPeer, reply, read_route-handle}

-- No node answers.
abbrev silent : ℕ → ChordPeer → ℕ → List ℕ → Result Message
silent hop target message_type payload = err eio

abbrev description : ℕ → ℕ → Message
description message_type n = record {
  message_type = message_type;
  source_node = id_of n;
  payload = (config_of n).ip ++ (put_u16 (config_of n).port ++ (config_of n).uuid);
}

-- Every node names the node of 90 as the owner, and that node answers with its configuration.
abbrev present : ℕ → ChordPeer → ℕ → List ℕ → Result Message
present hop target message_type payload =
    let whole = description message_type 90 in
    ok (
      if message_type == m_chord_route then record whole { payload = 1 ∷ whole.payload } else whole)

find_from-visited_example :
    (length (find_from one_address (pos 77) silent ring (peer 90) (id_of 120)).1 ≤ finger_count + 1)
    × AllDiffer (find_from one_address (pos 77) silent ring (peer 90) (id_of 120)).1
find_from-visited_example = find_from-visited one_address (pos 77) silent ring (peer 90) (id_of 120)

-- The lookup asks the node of 40, which names that of 90.
abbrev search : Result ChordPeer × List NodeId
search = find_from one_address (pos 77) present ring (peer 40) (id_of 50)

finds_owner : search.0 ≡ ok (peer 90)
unfolding create find_from find_loop is_visited visit ask follow confirm confirms read_route
    decode_peer decode_join_payload config_init_with_uuid normalize_ip init compute_id
    config_validate address_bytes equal put_u16 get_u16
finds_owner = refl

find_from-IsConfirmed_example :
    IsConfirmed one_address (pos 77) present ring (id_of 50) search.1 (peer 90)
find_from-IsConfirmed_example =
    find_from-IsConfirmed one_address (pos 77) present ring (peer 40) (id_of 50) (peer 90)
      finds_owner

-- The ring of Chord.Examples before it has learnt of a successor, told of a predecessor.
abbrev told : Chord
told = record (create local_node) { predecessor = peer 90; has_predecessor = true }

canonical :
    config_init_with_uuid one_address
      (b'1' ∷ b'2' ∷ b'7' ∷ b'.' ∷ b'0' ∷ b'.' ∷ b'0' ∷ b'.' ∷ b'1' ∷ [])
      8000
      (config_of 90).uuid
    ≡ ok (config_of 90)
unfolding config_init_with_uuid normalize_ip
canonical = refl

owner : (route ring (id_of 50)).next ≡ peer 90
unfolding create route open_closed equal compare compare_bytes
owner = refl

owner-IsPeer : IsPeer one_address (peer 90)
unfolding compute_id config_validate normalize_ip address_bytes put_u16
owner-IsPeer = record {
  config = record {
    ip = refl;
    uuid = refl;
    port = omega arith;
    terminated = refl;
    padded = refl;
    canonical = canonical;
  };
  accepted = refl;
  identified = refl;
}

read_route-handle_example :
    (handle one_address
        (pos 77)
        ring
        (record { message_type = m_chord_route; source_node = id_of 40; payload = id_of 50 })
      >>= λ (answer, after).
          read_route one_address (pos 77) (reply one_address (pos 77) (id_of 90) answer))
    ≡ ok (route ring (id_of 50))
read_route-handle_example =
    read_route-handle one_address (pos 77) ring (id_of 40) (id_of 90) (id_of 50) refl
      (subst (IsPeer one_address) (sym owner) owner-IsPeer)
