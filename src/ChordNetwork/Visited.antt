-- ===== src/ChordNetwork/Visited.antt =====
-- chord_network.c: the nodes that a lookup visits, which find_from keeps in an array of CHORD_FINGER_COUNT + 1
-- entries.
use trabalho_distribuidos.Prelude.{
  ℕ, zero, suc, ◌+◌, ◌≤◌, ◌≡◌, inl, inr, false, List, [], ◌∷◌, arith, length, Bool-cases, Result, ℤ,
  subst,
}
use trabalho_distribuidos.Node.{NodeId, Platform}
use trabalho_distribuidos.Node.Order.{equal_refl}
use trabalho_distribuidos.Chord.{Chord, ChordPeer, same_id}
use trabalho_distribuidos.Chord.Power.{finger_count}
use trabalho_distribuidos.Transfer.Transaction.{AllDiffer, Differs}
use trabalho_distribuidos.ChordNetwork.{Message}
use trabalho_distribuidos.ChordNetwork.Lookup.{
  Outcome-cases, is_visited, visit, find_loop, find_from,
}

is_visited-Differs :
    (visited : List NodeId) (id : NodeId) → is_visited visited id ≡ false → Differs id visited
unfolding is_visited
is_visited-Differs [] id h = tt
is_visited-Differs (entry ∷ visited) id h = elim (Bool-cases (same_id id entry)) [
  | inl same ↦ absurd cc
  | inr differs ↦ (
    λ e. absurd (
        let s = equal_refl id in
        let t : same_id id id ≡ false = subst (λ x. same_id id x ≡ false) e differs in cc),
    is_visited-Differs visited id (rw differs at h),
  )
]

module _ (platform : Platform) (process_id : ℤ) (call : ℕ → ChordPeer → ℕ → List ℕ → Result Message)
    (chord : Chord) where
  find_loop-visited :
      (rounds hop : ℕ) (current : ChordPeer) (key : NodeId) (visited : List NodeId)
      → AllDiffer visited
      → let after = (find_loop platform process_id call chord rounds hop current key visited).1 in
        (length after ≤ length visited + rounds) × AllDiffer after
  unfolding find_loop
  find_loop-visited zero hop current key visited h = (omega arith, h)
  find_loop-visited (suc rounds) hop current key visited h =
      elim (Bool-cases (is_visited visited current.id)) [
        | inl again ↦ rw (again, find_loop) (omega arith, h)
        | inr new ↦
            let differ : AllDiffer (current.id ∷ visited) =
              (is_visited-Differs visited current.id new, h) in
            elim (Outcome-cases
              (visit platform process_id call chord hop current key (current.id ∷ visited))) [
                | inl (next, e) ↦ rw (new, find_loop, e) (omega arith, differ)
                | inr (inl (error, e)) ↦ rw (new, find_loop, e) (omega arith, differ)
                | inr (inr (next, e)) ↦
                    let (bound, all) =
                      find_loop-visited rounds (suc hop) next key (current.id ∷ visited) differ in
                    rw (new, find_loop, e) (omega arith, all)
              ]
      ]

  -- Whatever the other nodes answer, a lookup visits at most CHORD_FINGER_COUNT + 1 nodes, as many as its
  -- array has entries, and none of them twice.
  pub find_from-visited :
      (first : ChordPeer) (key : NodeId)
      → let visited = (find_from platform process_id call chord first key).1 in
        (length visited ≤ finger_count + 1) × AllDiffer visited
  unfolding find_from
  find_from-visited first key = find_loop-visited (finger_count + 1) 0 first key [] tt
