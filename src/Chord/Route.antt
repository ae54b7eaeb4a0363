-- ===== src/Chord/Route.antt =====
-- What chord_route promises to the lookup that follows its hops.
use trabalho_distribuidos.Prelude.{
  ℕ, zero, suc, ◌+◌, ◌<◌, ◌≤◌, ◌≡◌, ◌≢◌, ◌⊎◌, inl, inr, refl, true, false, not, ◌&&◌, List, [], ◌∷◌,
  arith, All, Bool-cases, get_or, sym, &&-true,
}
use trabalho_distribuidos.Node.{NodeId}
use trabalho_distribuidos.Node.Order.{IsNodeId, equal_iff}
use trabalho_distribuidos.Chord.Interval.{
  open_closed, open_open, open_closed_iff, open_open_iff, distance, distance_split,
  distance-eq-zero_iff,
}
use trabalho_distribuidos.Chord.Power.{finger_count}
use trabalho_distribuidos.Chord.{Chord, ChordPeer, same_id, closest_finger, route}

-- Every identifier that the ring refers to has 32 bytes.
pub record HasIds (chord : Chord) : Type 0 where
  pub local : IsNodeId chord.local.id
  pub successor : IsNodeId chord.successor.id
  pub fingers : All (λ (peer : ChordPeer). IsNodeId peer.id) chord.fingers

All-get_or {ℓ} :
    {A : Type 0} (P : A → Type ℓ) (xs : List A) (i : ℕ) (d : A) → All P xs → P d → P (get_or xs i d)
All-get_or P [] i d h k = k
All-get_or P (x ∷ xs) zero d h k = h.0
All-get_or P (x ∷ xs) (suc i) d h k = All-get_or P xs i d h.1 k

pos_of_ne : (n : ℕ) → n ≢ 0 → 0 < n
pos_of_ne zero h = absurd (h refl)
pos_of_ne (suc n) h = omega arith

-- Strictly between the local node and the key.
abbrev IsCloser : Chord → NodeId → ChordPeer → Type 0
IsCloser chord key peer =
    IsNodeId peer.id
    × (0 < distance chord.local.id peer.id)
    × (distance chord.local.id peer.id < distance chord.local.id key)

-- What an answer of chord_route may be.
abbrev pub Progresses : Chord → NodeId → Type 0
Progresses chord key =
    let hop = route chord key in
    let local = chord.local.id in
    (hop.complete ≡ true
      → ((hop.next ≡ chord.local) × (key ≡ local))
        ⊎ ((hop.next ≡ chord.successor)
            × (key ≢ local)
            × ((chord.successor.id ≡ local)
                ⊎ ((0 < distance local key) × (distance local key ≤ distance local hop.next.id)))))
    × (hop.complete ≡ false
        → (0 < distance local hop.next.id)
          × (distance hop.next.id key < distance local key)
          × (distance local hop.next.id + distance hop.next.id key ≡ distance local key))

module _ (chord : Chord) (key : NodeId) (ids : HasIds chord) (vk : IsNodeId key) where
  open-IsCloser :
      (peer : ChordPeer)
      → IsNodeId peer.id
      → key ≢ chord.local.id
      → open_open chord.local.id key peer.id ≡ true
      → IsCloser chord key peer
  open-IsCloser peer vp other h =
      elim ((open_open_iff chord.local.id key peer.id ids.local vk vp).0 h) [
        | inl (same, _) ↦ absurd (other (sym same))
        | inr (ahead, near) ↦ (vp, ahead, near)
      ]

  closest_finger-IsCloser :
      (index : ℕ)
      → key ≢ chord.local.id
      → IsCloser chord key chord.successor
      → IsCloser chord key (closest_finger chord key index)
  unfolding closest_finger
  closest_finger-IsCloser zero other h = h
  closest_finger-IsCloser (suc index) other h =
      let finger = get_or chord.fingers index chord.local in
      let vf : IsNodeId finger.id =
        All-get_or (λ (peer : ChordPeer). IsNodeId peer.id) chord.fingers index chord.local
          ids.fingers ids.local in
      elim (Bool-cases
        (not (same_id finger.id chord.local.id) && open_open chord.local.id key finger.id)) [
          | inl hit ↦ rw hit (open-IsCloser finger vf other (&&-true _ _ hit).1)
          | inr miss ↦ rw miss (closest_finger-IsCloser index other h)
        ]

  -- An answer of chord_route is right, and a hop makes progress. If the search ends here, the owner
  -- is the local node for its own identifier; otherwise it is the successor, of a node that is alone
  -- or whose successor is the first node at or after the key. If it goes on, the next hop lies
  -- strictly between the local node and the key, so that less of the way is left from there.
  pub route_progress : Progresses chord key
  unfolding route
  route_progress = elim (Bool-cases (same_id key chord.local.id)) [
    | inl own ↦ rw own (λ _. inl (refl, (equal_iff key chord.local.id).0 own), λ e. cc)
    | inr other ↦ rw other (elim (Bool-cases (same_id chord.successor.id chord.local.id)) [
      | inl alone ↦
          rw alone (λ _. inr (refl, differs other, inl ((equal_iff _ _).0 alone)), λ e. cc)
      | inr company ↦
          rw company (elim (Bool-cases (open_closed chord.local.id chord.successor.id key)) [
            | inl owned ↦
                rw owned (λ _. inr (refl, differs other, inr (owner company owned)), λ e. cc)
            | inr beyond ↦ rw beyond (
              λ e. cc,
              λ _. ahead (closest_finger chord key finger_count) (
                  closest_finger-IsCloser finger_count (differs other)
                    (passed (differs other) company beyond)),
            )
          ])
    ])
  ]
    where
      differs : same_id key chord.local.id ≡ false → key ≢ chord.local.id
      differs h e = cc ((equal_iff key chord.local.id).1 e)

      apart :
          same_id chord.successor.id chord.local.id ≡ false → chord.local.id ≢ chord.successor.id
      apart h e = cc ((equal_iff chord.successor.id chord.local.id).1 (sym e))

      owner :
          same_id chord.successor.id chord.local.id ≡ false
          → open_closed chord.local.id chord.successor.id key ≡ true
          → (0 < distance chord.local.id key)
            × (distance chord.local.id key ≤ distance chord.local.id chord.successor.id)
      owner company h =
          elim ((open_closed_iff chord.local.id chord.successor.id key ids.local ids.successor vk).0
            h) [ inl same ↦ absurd (apart company same) | inr near ↦ near ]

      passed :
          key ≢ chord.local.id
          → same_id chord.successor.id chord.local.id ≡ false
          → open_closed chord.local.id chord.successor.id key ≡ false
          → IsCloser chord key chord.successor
      passed own company h =
          let far : 0 < distance chord.local.id chord.successor.id =
            pos_of_ne _
              (λ e. apart company ((distance-eq-zero_iff _ _ ids.local ids.successor).0 e)) in
          let away : 0 < distance chord.local.id key =
            pos_of_ne _ (λ e. own (sym ((distance-eq-zero_iff _ _ ids.local vk).0 e))) in
          let outside : ¬ (
              distance chord.local.id key ≤ distance chord.local.id chord.successor.id) =
            λ near.
              cc (h, (open_closed_iff _ _ key ids.local ids.successor vk).1 (inr (away, near))) in
          (ids.successor, far, omega arith)

      ahead :
          (peer : ChordPeer)
          → IsCloser chord key peer
          → (0 < distance chord.local.id peer.id)
            × (distance peer.id key < distance chord.local.id key)
            × (distance chord.local.id peer.id + distance peer.id key ≡ distance chord.local.id key)
      ahead peer (vp, far, near) =
          let split = distance_split chord.local.id peer.id key ids.local vp vk (omega arith) in
          (far, omega arith, split)
