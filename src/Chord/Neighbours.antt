-- ===== src/Chord/Neighbours.antt =====
-- chord_notify and chord_consider_predecessor only ever bring the neighbours nearer.
use trabalho_distribuidos.Prelude.{
  ◌<◌, ◌≤◌, ◌≡◌, ◌≢◌, ◌⊎◌, inl, inr, refl, true, false, not, ◌&&◌, ◌||◌, arith, Bool-cases,
  if◌then◌else◌, subst, sym, ok, ok-injective,
}
use trabalho_distribuidos.Node.{NodeId, Platform}
use trabalho_distribuidos.Prelude.Positional
use trabalho_distribuidos.Node.Order.{IsNodeId, equal_iff, ne_of_equal}
use trabalho_distribuidos.Chord.Interval.{open_open, open_open_iff, distance, distance-eq-zero_iff}
use trabalho_distribuidos.Chord.{Chord, ChordPeer, same_id, with_successor, consider_predecessor}
use trabalho_distribuidos.Chord.Invariant.{admit-IsUsable}

-- Outside an open interval from another node, a position is no nearer to its end.
module _ (start end value : NodeId) (vs : IsNodeId start) (ve : IsNodeId end)
    (vv : IsNodeId value) where
  outside_later :
      start ≢ end
      → value ≢ start
      → open_open start end value ≡ false
      → distance start end ≤ distance start value
  outside_later apart other h =
      let out : ¬ ((0 < distance start value) × (distance start value < distance start end)) =
        λ n. cc (h, (open_open_iff start end value vs ve vv).1 (inr n)) in
      let far : distance start value ≢ 0 =
        λ e. other (sym ((distance-eq-zero_iff start value vs vv).0 e)) in
      ground arith

-- What a notification by `peer` may do to the ring.
abbrev pub KeepsNearest : Chord → ChordPeer → Chord → Type 0
KeepsNearest chord peer after =
    (chord.has_predecessor ≡ true
      → (after.has_predecessor ≡ true)
        × (distance after.predecessor.id chord.local.id
            ≤ distance chord.predecessor.id chord.local.id))
    × (peer.id ≢ chord.local.id
        → (after.has_predecessor ≡ true)
          × (distance after.predecessor.id chord.local.id ≤ distance peer.id chord.local.id))
    × (after.successor ≡ chord.successor)
    × (after.fingers ≡ chord.fingers)

-- What a candidate for the place of the successor may do to the ring.
abbrev pub FindsNearest : Chord → ChordPeer → Chord → Type 0
FindsNearest chord peer after =
    (chord.successor.id ≢ chord.local.id
      → (after.successor.id ≢ chord.local.id)
        × (distance chord.local.id after.successor.id ≤ distance chord.local.id chord.successor.id))
    × (peer.id ≢ chord.local.id
        → (after.successor.id ≢ chord.local.id)
          × (distance chord.local.id after.successor.id ≤ distance chord.local.id peer.id))
    × (after.predecessor ≡ chord.predecessor)
    × (after.has_predecessor ≡ chord.has_predecessor)

-- The nearest known node stays the successor. If chord_consider_predecessor accepts a candidate, a
-- successor other than the local node is replaced only by one that is no farther clockwise, and if the
-- candidate is another node, the successor is another node afterwards and no farther than it. The
-- predecessor is left alone.
pub consider_predecessor-nearest :
    (platform : Platform) (chord after : Chord) (peer : ChordPeer)
    → IsNodeId chord.local.id
    → IsNodeId chord.successor.id
    → IsNodeId peer.id
    → consider_predecessor platform chord peer ≡ ok after
    → FindsNearest chord peer after
unfolding consider_predecessor
consider_predecessor-nearest platform chord after peer vl vs vc h =
    let (_, e) = admit-IsUsable platform chord peer _ after h in
    subst (FindsNearest chord peer) (ok-injective e) (
      split (Bool-cases (same_id peer.id chord.local.id))
        (Bool-cases (same_id chord.successor.id chord.local.id))
        (Bool-cases (open_open chord.local.id chord.successor.id peer.id)))
  where
    nearer_inside :
        chord.local.id ≢ chord.successor.id
        → open_open chord.local.id chord.successor.id peer.id ≡ true
        → distance chord.local.id peer.id ≤ distance chord.local.id chord.successor.id
    nearer_inside apart inside =
        elim ((open_open_iff chord.local.id chord.successor.id peer.id vl vs vc).0 inside) [
          | inl (same, _) ↦ absurd (apart same)
          | inr (far, near) ↦ omega arith
        ]

    split :
        (same_id peer.id chord.local.id ≡ true) ⊎ (same_id peer.id chord.local.id ≡ false)
        → (same_id chord.successor.id chord.local.id ≡ true)
          ⊎ (same_id chord.successor.id chord.local.id ≡ false)
        → (open_open chord.local.id chord.successor.id peer.id ≡ true)
          ⊎ (open_open chord.local.id chord.successor.id peer.id ≡ false)
        → FindsNearest chord peer (
            if not (same_id peer.id chord.local.id)
              && (same_id chord.successor.id chord.local.id
                  || open_open chord.local.id chord.successor.id peer.id)
            then with_successor chord peer
            else chord)
    split (inl own) p q =
        rw own (λ k. (k, omega arith), λ d. absurd (d ((equal_iff _ _).0 own)), refl, refl)
    split (inr foreign) (inl alone) q =
        rw (foreign, alone)
          (λ k. absurd (k ((equal_iff _ _).0 alone)), λ d. (d, omega arith), refl, refl)
    split (inr foreign) (inr company) (inl inside) =
        rw (foreign, company, inside)
          (
            λ k.
                (ne_of_equal peer.id chord.local.id foreign, nearer_inside (λ e. k (sym e)) inside),
            λ d. (d, omega arith),
            refl,
            refl,
          )
    split (inr foreign) (inr company) (inr outside) =
        rw (foreign, company, outside)
          (
            λ k. (k, omega arith),
            λ d. (
              ne_of_equal chord.successor.id chord.local.id company,
              outside_later chord.local.id chord.successor.id peer.id vl vs vc
                  (λ e. ne_of_equal chord.successor.id chord.local.id company (sym e)) d outside,
            ),
            refl,
            refl,
          )
