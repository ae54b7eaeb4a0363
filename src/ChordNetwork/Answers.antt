-- ===== src/ChordNetwork/Answers.antt =====
-- chord_network.c: what the answers of other nodes say of a node.
use trabalho_distribuidos.Prelude.{
  ◌⊎◌, ℕ, ◌≡◌, ◌∙◌, ap, sym, arith, inl, inr, true, false, not, ◌||◌, some, List, [], Bool-cases,
  Result, ok, ℤ, Result-cases, >>=-eq-ok, ok-injective, ==_iff, ◌==◌, ltb, length, drop, get_or,
}
use trabalho_distribuidos.Node.{Node, NodeConfig, NodeId, Platform, compute_id, init}
use trabalho_distribuidos.Node.Order.{equal_iff}
use trabalho_distribuidos.Gossip.{decode_join_payload}
use trabalho_distribuidos.Chord.{Chord, ChordPeer, Hop, same_id, route}
use trabalho_distribuidos.ChordNetwork.{
  Message, m_chord_info, m_chord_route, chord_route_wire_size, confirms, decode_peer, read_route,
}
use trabalho_distribuidos.ChordNetwork.Lookup.{ask}

tests :
    (kind size flag : ℕ)
    → (not (kind == m_chord_route) || (not (size == chord_route_wire_size) || ltb 1 flag)) ≡ false
    → (kind ≡ m_chord_route) × (size ≡ chord_route_wire_size) × (ltb 1 flag ≡ false)
tests kind size flag h = ground arith

one : (flag : ℕ) → ltb 1 flag ≡ false → not (flag == 0) ≡ true → flag ≡ 1
one flag low set = ground arith

module _ (platform : Platform) (process_id : ℤ) (call : ℕ → ChordPeer → ℕ → List ℕ → Result Message)
    (chord : Chord) where
  -- The bytes hold a configuration, and the identifier is that of this configuration.
  abbrev pub Identifies : List ℕ → NodeConfig → NodeId → Type 0
  Identifies bytes config id =
      (decode_join_payload platform bytes ≡ ok config) × (compute_id platform config ≡ ok id)

  -- The node is the local one, or it answered M_CHORD_INFO with a configuration that has its identifier.
  abbrev pub Answers : ℕ → ChordPeer → Type 0
  Answers hop peer =
      (peer.id ≡ chord.local.id)
      ⊎ ((check : Message) × (call hop peer m_chord_info [] ≡ ok check)
          × (check.message_type ≡ m_chord_info)
          × ((config : NodeConfig) × Identifies check.payload config peer.id))

  -- The current node, asked for the owner of the key, named the peer: the local node from its own state,
  -- another one in an answer to M_CHORD_ROUTE, whose first byte is 1 and whose others hold the peer.
  abbrev pub Names : ℕ → ChordPeer → NodeId → ChordPeer → Type 0
  Names hop current key peer =
      ((current.id ≡ chord.local.id) × (route chord key ≡ record { next = peer; complete = true }))
      ⊎ ((response : Message) × (call hop current m_chord_route key ≡ ok response)
          × (response.message_type ≡ m_chord_route)
          × (length response.payload ≡ chord_route_wire_size)
          × (get_or response.payload 0 0 ≡ 1)
          × Identifies (drop 1 response.payload) peer.config peer.id)

  decode_peer-Identifies :
      (bytes : List ℕ) (peer : ChordPeer)
      → decode_peer platform process_id bytes ≡ ok peer
      → Identifies bytes peer.config peer.id
  unfolding decode_peer init
  decode_peer-Identifies bytes peer h =
      let (config, c, e) = >>=-eq-ok (decode_join_payload platform bytes) _ h in
      let (node, n, f) = >>=-eq-ok (init platform process_id config) _ e in
      let (id, d, g) = >>=-eq-ok (compute_id platform config) _ n in
      let same : peer ≡ record { id = id; config = config } =
        sym (ok-injective f)
        ∙ ap (λ (m : Node). record { id = m.id; config = config }) (sym (ok-injective g)) in
      rw same (c, d)

  pub confirms-Identifies :
      (next : ChordPeer) (check : Message)
      → confirms platform process_id next check ≡ true
      → (check.message_type ≡ m_chord_info)
        × ((config : NodeConfig) × Identifies check.payload config next.id)
  unfolding confirms
  confirms-Identifies next check h = elim (Bool-cases (check.message_type == m_chord_info)) [
    | inr other ↦ absurd (let k = rw (other, confirms) at h in cc)
    | inl typed ↦
        let k = rw (typed, confirms) at h in
        elim (Result-cases (decode_peer platform process_id check.payload)) [
          | inl (e, failure) ↦ absurd (let l = rw failure at k in cc)
          | inr (confirmed, decoded) ↦
              let same : confirmed.id ≡ next.id =
                (equal_iff confirmed.id next.id).0 (rw decoded at k) in
              let (c, d) = decode_peer-Identifies check.payload confirmed decoded in
              ((==_iff _ _).0 typed, (confirmed.config, (c, rw⁻¹ same d)))
        ]
  ]

  read_route-Identifies :
      (response : Message) (peer : ChordPeer)
      → read_route platform process_id response ≡ ok (record { next = peer; complete = true })
      → (response.message_type ≡ m_chord_route)
        × (length response.payload ≡ chord_route_wire_size)
        × (get_or response.payload 0 0 ≡ 1)
        × Identifies (drop 1 response.payload) peer.config peer.id
  unfolding read_route
  read_route-Identifies response peer h =
      elim (Bool-cases (
        not (response.message_type == m_chord_route)
        || (not (length response.payload == chord_route_wire_size)
            || ltb 1 (get_or response.payload 0 0)))) [
              | inl bad ↦ absurd (let k = rw (bad, read_route) at h in cc)
              | inr good ↦
                  let k = rw (good, read_route) at h in
                  elim (Result-cases (decode_peer platform process_id (drop 1 response.payload))) [
                    | inl (e, failure) ↦ absurd (let l = rw failure at k in cc)
                    | inr (next, decoded) ↦
                        let hop = ok-injective (rw decoded at k) in
                        let same : next ≡ peer = ap (λ (r : Hop). r.next) hop in
                        let flag : not (get_or response.payload 0 0 == 0) ≡ true =
                          ap (λ (r : Hop). r.complete) hop in
                        let (typed, sized, low) = tests _ _ _ good in
                        (
                          typed,
                          sized,
                          one _ low flag,
                          decode_peer-Identifies (drop 1 response.payload) peer
                              (decoded ∙ ap (λ (p : ChordPeer). ok p) same),
                        )
                  ]
            ]

  pub ask-Names :
      (hop : ℕ) (current : ChordPeer) (key : NodeId) (peer : ChordPeer)
      → ask platform process_id call chord hop current key
        ≡ some (ok (record { next = peer; complete = true }))
      → Names hop current key peer
  unfolding ask
  ask-Names hop current key peer h = elim (Bool-cases (same_id current.id chord.local.id)) [
    | inl here ↦
        let k = rw (here, ask) at h in inl ((equal_iff current.id chord.local.id).0 here, cc)
    | inr there ↦
        let k = rw (there, ask) at h in
        elim (Result-cases (call hop current m_chord_route key)) [
          | inl (e, failure) ↦ absurd (let l = rw failure at k in cc)
          | inr (response, answer) ↦
              let l = rw answer at k in
              let (typed, sized, flag, identified) = read_route-Identifies response peer cc in
              inr (response, answer, typed, sized, flag, identified)
        ]
  ]
