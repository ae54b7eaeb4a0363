-- ===== src/ChordNetwork/Confirmed.antt =====
-- chord_network.c: the node that a lookup returns.
use trabalho_distribuidos.Prelude.{
  ℕ, zero, suc, ◌+◌, ◌≡◌, ◌∙◌, ap, refl, inl, inr, true, some, List, [], ◌∷◌, Bool-cases, Result,
  ok, err, ℤ, Result-cases, Option-cases, subst, ok-injective, length,
}
use trabalho_distribuidos.Node.{NodeId, Platform}
use trabalho_distribuidos.Node.Order.{equal_iff}
use trabalho_distribuidos.Chord.{Chord, ChordPeer, Hop, same_id}
use trabalho_distribuidos.Chord.Power.{finger_count}
use trabalho_distribuidos.ChordNetwork.{Message, m_chord_info, confirms}
use trabalho_distribuidos.ChordNetwork.Lookup.{
  found, Outcome-cases, is_visited, visit, find_loop, find_from, confirm, follow, ask, alternative,
}
use trabalho_distribuidos.ChordNetwork.Answers.{Answers, Names, ask-Names, confirms-Identifies}

module _ (platform : Platform) (process_id : ℤ) (call : ℕ → ChordPeer → ℕ → List ℕ → Result Message)
    (chord : Chord) where
  -- The last node visited named the peer as the owner of the key, and the peer answered in that round.
  abbrev pub IsConfirmed : NodeId → List NodeId → ChordPeer → Type 0
  IsConfirmed key visited peer =
      (current : ChordPeer) × (earlier : List NodeId) × (visited ≡ current.id ∷ earlier)
      × Names platform process_id call chord (length earlier) current key peer
      × Answers platform process_id call chord (length earlier) peer

  confirm-found :
      (hop : ℕ) (next peer : ChordPeer)
      → confirm platform process_id call chord hop next ≡ found peer
      → (next ≡ peer) × Answers platform process_id call chord hop next
  unfolding confirm
  confirm-found hop next peer h = elim (Bool-cases (same_id next.id chord.local.id)) [
    | inl same ↦ let e = rw same at h in (cc, inl ((equal_iff next.id chord.local.id).0 same))
    | inr other ↦
        let reply = rw other at h in
        elim (Result-cases (call hop next m_chord_info [])) [
          | inl (e, failure) ↦ absurd (let k = rw failure at reply in cc)
          | inr (check, answer) ↦
              let k = rw answer at reply in
              elim (Bool-cases (confirms platform process_id next check)) [
                | inl agrees ↦
                    let e = rw agrees at k in
                    let (typed, identified) =
                      confirms-Identifies platform process_id call chord next check agrees in
                    (cc, inr (check, answer, typed, identified))
                | inr differs ↦ absurd (let e = rw differs at k in cc)
              ]
        ]
  ]

  follow-found :
      (hop : ℕ) (current peer : ChordPeer) (answer : Result Hop)
      → follow platform process_id call chord hop current answer ≡ found peer
      → (answer ≡ ok (record { next = peer; complete = true }))
        × Answers platform process_id call chord hop peer
  unfolding follow
  follow-found hop current peer (err e) h = cc
  follow-found hop current peer (ok h) k = elim (Bool-cases h.complete) [
    | inl agrees ↦
        let (e, answers) = confirm-found hop h.next peer (rw agrees at k) in
        (
          (λ i. ok (record { next = e i; complete = agrees i })),
          subst (Answers platform process_id call chord hop) e answers,
        )
    | inr differs ↦
        let other = rw differs at k in
        elim (Bool-cases (same_id h.next.id current.id)) [
          | inl same ↦ absurd (let k = rw same at other in cc)
          | inr differs ↦ absurd (let k = rw differs at other in cc)
        ]
  ]

  visit-found :
      (hop : ℕ) (current peer : ChordPeer) (key : NodeId) (visited : List NodeId)
      → visit platform process_id call chord hop current key visited ≡ found peer
      → Names platform process_id call chord hop current key peer
        × Answers platform process_id call chord hop peer
  unfolding visit
  visit-found hop current peer key visited h =
      elim (Option-cases (ask platform process_id call chord hop current key)) [
        | inl silent ↦
            let k = rw (silent, visit) at h in
            elim (Option-cases (alternative chord visited finger_count)) [
              | inl nobody ↦ absurd (let e = rw nobody at k in cc)
              | inr (other, choice) ↦ absurd (let e = rw choice at k in cc)
            ]
        | inr (answer, reply) ↦
            let (e, answers) = follow-found hop current peer answer (rw (reply, visit) at h) in
            (
              ask-Names platform process_id call chord hop current key peer
                  (reply ∙ ap (λ (r : Result Hop). some r) e),
              answers,
            )
      ]

  find_loop-IsConfirmed :
      (rounds : ℕ) (current : ChordPeer) (key : NodeId) (visited : List NodeId) (peer : ChordPeer)
      → let search =
          find_loop platform process_id call chord rounds (length visited) current key visited in
        search.0 ≡ ok peer → IsConfirmed key search.1 peer
  unfolding find_loop
  find_loop-IsConfirmed zero current key visited peer h = cc
  find_loop-IsConfirmed (suc rounds) current key visited peer h =
      elim (Bool-cases (is_visited visited current.id)) [
        | inl again ↦ absurd (let e = rw (again, find_loop) at h in cc)
        | inr new ↦
            let k = rw (new, find_loop) at h in
            let seen = current.id ∷ visited in
            elim (Outcome-cases
              (visit platform process_id call chord (length visited) current key seen)) [
                | inl (next, e) ↦
                    let same : next ≡ peer = ok-injective (rw e at k) in
                    let (names, answers) =
                      visit-found (length visited) current peer key seen
                        (e ∙ ap (λ (p : ChordPeer). found p) same) in
                    rw (new, find_loop, e) (current, visited, refl, names, answers)
                | inr (inl (error, e)) ↦ absurd (let done = rw e at k in cc)
                | inr (inr (next, e)) ↦
                    rw (new, find_loop, e)
                      (find_loop-IsConfirmed rounds next key seen peer (rw e at k))
              ]
      ]

  -- A node that a lookup returns was named as the owner of the key by the node visited last: by the route
  -- of the local state, or in an answer to M_CHORD_ROUTE with the node's configuration, from which its
  -- identifier is computed. And it is the local node, or it answered M_CHORD_INFO in that round with a
  -- configuration from which its identifier is computed.
  pub find_from-IsConfirmed :
      (first : ChordPeer) (key : NodeId) (peer : ChordPeer)
      → (find_from platform process_id call chord first key).0 ≡ ok peer
      → IsConfirmed key (find_from platform process_id call chord first key).1 peer
  unfolding find_from
  find_from-IsConfirmed first key peer h =
      find_loop-IsConfirmed (finger_count + 1) first key [] peer h
