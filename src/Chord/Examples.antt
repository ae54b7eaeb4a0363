-- ===== src/Chord/Examples.antt =====
-- A small ring, and runs of the operations on it.
use trabalho_distribuidos.Prelude.{
  ℕ, ◌+◌, ◌^◌, ◌%◌, ◌<◌, ◌≤◌, ◌≡◌, ◌≢◌, ◌⊎◌, ◌↔◌, refl, true, none, some, arith, set, compare_bytes,
  ok, pos,
}
use trabalho_distribuidos.Prelude.Positional.{value}
use trabalho_distribuidos.Node.{
  NodeId, Node, role_peer, normalize_ip, config_validate, address_bytes, compute_id, equal, compare,
}
use trabalho_distribuidos.Wire.{put_u16}
use trabalho_distribuidos.Node.Order.{IsNodeId}
use trabalho_distribuidos.Node.Examples.{one_address, config_of, id_of, id_of-IsNodeId}
use trabalho_distribuidos.Chord.{
  Chord, ChordPeer, create, is_unavailable, valid_peer, is_computed, set_successor,
  consider_predecessor,
}
use trabalho_distribuidos.Chord.Interval.{
  open_closed, open_open, distance, open_closed_iff, open_open_iff,
}
use trabalho_distribuidos.Chord.Power.{add_power, add_power-value}
use trabalho_distribuidos.Chord.Route.{HasIds, Progresses, route_progress}
use trabalho_distribuidos.Chord.Invariant.{Inv, All-replicate}
use trabalho_distribuidos.Chord.Reach.{start, later, sets_successor, Reach-Inv}
use trabalho_distribuidos.Chord.Neighbours.{FindsNearest, consider_predecessor-nearest}

abbrev pub peer : ℕ → ChordPeer
peer n = record { id = id_of n; config = config_of n }

abbrev pub local_node : Node
local_node = record { id = id_of 10; config = config_of 10; process_id = pos 77; role = role_peer }

-- The ring of that node after it has learnt of a successor.
abbrev pub ring : Chord
ring = record (create local_node) {
  successor = peer 90;
  fingers = set (create local_node).fingers 0 (peer 90);
}

valid_local : valid_peer one_address (create local_node).local ≡ true
unfolding create valid_peer is_computed compute_id config_validate normalize_ip address_bytes equal
    put_u16
valid_local = refl

learnt : set_successor one_address (create local_node) (peer 90) ≡ ok ring
unfolding create set_successor is_unavailable valid_peer is_computed compute_id config_validate
    normalize_ip address_bytes equal put_u16
learnt = refl

ring-HasIds : HasIds ring
unfolding create
ring-HasIds = record {
  local = id_of-IsNodeId 10 (omega arith);
  successor = id_of-IsNodeId 90 (omega arith);
  fingers = (
    id_of-IsNodeId 90 (omega arith),
    All-replicate (λ (p : ChordPeer). IsNodeId p.id) 255 (peer 10)
        (id_of-IsNodeId 10 (omega arith)),
  );
}

open_closed_iff_example : (open_closed (id_of 200) (id_of 9) (id_of 5) ≡ true) ↔ (
    (id_of 200 ≡ id_of 9)
    ⊎ ((0 < distance (id_of 200) (id_of 5))
        × (distance (id_of 200) (id_of 5) ≤ distance (id_of 200) (id_of 9))))
open_closed_iff_example =
    open_closed_iff (id_of 200) (id_of 9) (id_of 5) (id_of-IsNodeId 200 (omega arith))
      (id_of-IsNodeId 9 (omega arith)) (id_of-IsNodeId 5 (omega arith))

open_open_iff_example : (open_open (id_of 200) (id_of 9) (id_of 5) ≡ true) ↔ (
    ((id_of 200 ≡ id_of 9) × (id_of 200 ≢ id_of 5))
    ⊎ ((0 < distance (id_of 200) (id_of 5))
        × (distance (id_of 200) (id_of 5) < distance (id_of 200) (id_of 9))))
open_open_iff_example =
    open_open_iff (id_of 200) (id_of 9) (id_of 5) (id_of-IsNodeId 200 (omega arith))
      (id_of-IsNodeId 9 (omega arith)) (id_of-IsNodeId 5 (omega arith))

add_power-value_example :
    (12 < 256
      → (id : NodeId) × (add_power (id_of 255) 12 ≡ some id)
        × IsNodeId id
        × (value id ≡ (value (id_of 255) + 2 ^ 12) % 2 ^ 256))
    × (256 ≤ 12 → add_power (id_of 255) 12 ≡ none)
add_power-value_example = add_power-value (id_of 255) 12 (id_of-IsNodeId 255 (omega arith))

route_progress_example : Progresses ring (id_of 120)
route_progress_example =
    route_progress ring (id_of 120) ring-HasIds (id_of-IsNodeId 120 (omega arith))

Reach-Inv_example : Inv one_address ring
Reach-Inv_example =
    Reach-Inv one_address valid_local (later start (sets_successor (peer 90) learnt))

-- chord_repair over two nodes that are alive, of which the second is nearer.
abbrev repaired : Chord
repaired = record ring { successor = peer 40; fingers = set ring.fingers 0 (peer 40) }

-- chord_consider_predecessor with a nearer node, and chord_notify by it while a farther one is known.
considers_ring : consider_predecessor one_address ring (peer 40) ≡ ok repaired
unfolding create consider_predecessor open_open is_unavailable valid_peer is_computed compute_id
    config_validate normalize_ip address_bytes equal put_u16 compare compare_bytes
considers_ring = refl

consider_predecessor-nearest_example : FindsNearest ring (peer 40) repaired
unfolding create
consider_predecessor-nearest_example =
    consider_predecessor-nearest one_address ring repaired (peer 40)
      (id_of-IsNodeId 10 (omega arith)) (id_of-IsNodeId 90 (omega arith))
      (id_of-IsNodeId 40 (omega arith)) considers_ring

abbrev known : Chord
known = record ring { predecessor = peer 200; has_predecessor = true }

abbrev notified : Chord
notified = record ring { predecessor = peer 220; has_predecessor = true }
