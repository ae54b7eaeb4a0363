-- ===== src/ChordNetwork/Lookup.antt =====
-- chord_network.c: find_from, the lookup over the ring.
use trabalho_distribuidos.Prelude.{
  ℕ, zero, suc, ◌+◌, Bool, true, false, ◌||◌, Option, none, some, List, [], ◌∷◌, if◌then◌else◌,
  Result, ok, err, ebadmsg, eloop, ehostunreach, Errno, ◌≡◌, refl, ◌⊎◌, inl, inr, ℤ,
}
use trabalho_distribuidos.Node.{NodeId, Platform}
use trabalho_distribuidos.Chord.{Chord, ChordPeer, Hop, same_id, get_finger, route}
use trabalho_distribuidos.Chord.Power.{finger_count}
use trabalho_distribuidos.ChordNetwork.{Message, m_chord_info, m_chord_route, read_route, confirms}

-- The inner loops over the nodes visited so far.
unfoldable pub is_visited : List NodeId → NodeId → Bool
is_visited [] id = false
is_visited (entry ∷ visited) id = same_id id entry || is_visited visited id

-- The loop over the fingers, from the last to the first, for a node that was not visited.
unfoldable pub alternative : Chord → List NodeId → ℕ → Option ChordPeer
unfolding is_visited
alternative chord visited zero = none
alternative chord visited (suc index) =
    let rest = alternative chord visited index in
    elim (get_finger chord index) [
      | err e ↦ rest
      | ok finger ↦
          if same_id finger.id chord.local.id || is_visited visited finger.id
          then rest
          else some finger
    ]

-- What a round of the lookup comes to: its result, or the next node to visit.
pub data Outcome : Type 0 where
  found : ChordPeer → Outcome
  forward : ChordPeer → Outcome
  failed : Errno → Outcome

pub Outcome-cases :
    (o : Outcome)
    → ((p : ChordPeer) × (o ≡ found p))
      ⊎ (((e : Errno) × (o ≡ failed e)) ⊎ ((p : ChordPeer) × (o ≡ forward p)))
Outcome-cases (found p) = inl (p, refl)
Outcome-cases (failed e) = inr (inl (e, refl))
Outcome-cases (forward p) = inr (inr (p, refl))

module _ (platform : Platform) (process_id : ℤ) where
  -- `call` gives what rpc_call_deadline gets from a node in a round of the lookup, for a type and a
  -- payload; an error is that of the call.
  module _ (call : ℕ → ChordPeer → ℕ → List ℕ → Result Message) (chord : Chord) where
    -- The owner has to answer as well; if it does not, it is visited next.
    unfoldable pub confirm : ℕ → ChordPeer → Outcome
    unfolding confirms
    confirm hop next =
        if same_id next.id chord.local.id
        then found next
        else elim (call hop next m_chord_info []) [
          | err e ↦ forward next
          | ok check ↦
              if confirms platform process_id next check then found next else failed ebadmsg
        ]

    unfoldable pub follow : ℕ → ChordPeer → Result Hop → Outcome
    unfolding confirm
    follow hop current (err e) = failed e
    follow hop current (ok h) =
        if h.complete
        then confirm hop h.next
        else if same_id h.next.id current.id
        then failed eloop
        else forward h.next

    -- The route from the current node, if it answers.
    unfoldable pub ask : ℕ → ChordPeer → NodeId → Option (Result Hop)
    unfolding read_route
    ask hop current key =
        if same_id current.id chord.local.id
        then some (ok (route chord key))
        else elim (call hop current m_chord_route key) [
          | err e ↦ none
          | ok response ↦ some (read_route platform process_id response)
        ]

    -- The body of the loop of find_from, behind the test for a cycle.
    unfoldable pub visit : ℕ → ChordPeer → NodeId → List NodeId → Outcome
    unfolding alternative follow ask
    visit hop current key visited = elim (ask hop current key) [
      | none ↦ elim (alternative chord visited finger_count) [
        | none ↦ failed ehostunreach
        | some peer ↦ forward peer
      ]
      | some answer ↦ follow hop current answer
    ]

    -- That loop: the rounds left, `hop`, `current` and `visited`, the latest node first. The nodes
    -- visited in the end stand beside the result.
    unfoldable pub find_loop :
        ℕ → ℕ → ChordPeer → NodeId → List NodeId → Result ChordPeer × List NodeId
    unfolding is_visited visit
    find_loop zero hop current key visited = (err eloop, visited)
    find_loop (suc rounds) hop current key visited = elim (is_visited visited current.id) [
      | true ↦ (err eloop, visited)
      | false ↦ elim (visit hop current key (current.id ∷ visited)) [
        | found next ↦ (ok next, current.id ∷ visited)
        | failed e ↦ (err e, current.id ∷ visited)
        | forward next ↦ find_loop rounds (suc hop) next key (current.id ∷ visited)
      ]
    ]

    -- find_from and chord_network_find
    unfoldable pub find_from : ChordPeer → NodeId → Result ChordPeer × List NodeId
    unfolding find_loop
    find_from first key = find_loop (finger_count + 1) 0 first key []

    unfoldable pub find : NodeId → Result ChordPeer
    unfolding find_from
    find key = (find_from chord.local key).0
