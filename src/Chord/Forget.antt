-- ===== src/Chord/Forget.antt =====
-- chord_forget and chord_allow keep the invariant: no table refers to a forgotten node.
use trabalho_distribuidos.Prelude.{
  suc, ◌<◌, ◌≡◌, ◌≢◌, inl, inr, refl, Bool, true, false, not, ◌&&◌, List, [], ◌∷◌, arith, All,
  Bool-cases, ap, if◌then◌else◌, get_or, map, subst, sym, ◌∙◌, length, All-map, ok, err, eperm,
  enomem, ok-injective,
}
use mathlib.Core.Bool.{false≢true}
use trabalho_distribuidos.Node.{NodeId, Platform}
use trabalho_distribuidos.Node.Order.{equal_ne, ne_of_equal}
use trabalho_distribuidos.Chord.{
  Chord, ChordPeer, same_id, is_unavailable, forget_finger, forget, without, allow,
}
use trabalho_distribuidos.Chord.Invariant.{IsUsable, Inv}

module _ (platform : Platform) where
  -- The nodes held to have failed, once `id` is among them.
  abbrev marked : List NodeId → NodeId → List NodeId
  marked unavailable id = if is_unavailable unavailable id then unavailable else id ∷ unavailable

  -- A peer other than a forgotten node stays usable.
  still-IsUsable :
      (unavailable : List NodeId) (id : NodeId) (peer : ChordPeer)
      → IsUsable platform unavailable peer
      → peer.id ≢ id
      → IsUsable platform (marked unavailable id) peer
  unfolding is_unavailable
  still-IsUsable unavailable id peer u other = elim (Bool-cases (is_unavailable unavailable id)) [
    | inl known ↦ rw known u
    | inr new ↦ rw new (record {
      valid = u.valid;
      available = rw (equal_ne id peer.id (λ e. other (sym e))) u.available;
    })
  ]

  module _ (unavailable : List NodeId) (id : NodeId) (local : ChordPeer) where
    forget_finger-IsUsable :
        (peer : ChordPeer)
        → IsUsable platform unavailable local
        → local.id ≢ id
        → IsUsable platform unavailable peer
        → IsUsable platform (marked unavailable id) (forget_finger id local peer)
    unfolding forget_finger
    forget_finger-IsUsable peer ul other u = elim (Bool-cases (same_id peer.id id)) [
      | inl hit ↦ rw hit (still-IsUsable unavailable id local ul other)
      | inr miss ↦ rw miss (still-IsUsable unavailable id peer u (ne_of_equal peer.id id miss))
    ]

    forget_fingers-IsUsable :
        (peers : List ChordPeer)
        → IsUsable platform unavailable local
        → local.id ≢ id
        → All (IsUsable platform unavailable) peers
        → All (IsUsable platform (marked unavailable id)) (map (forget_finger id local) peers)
    forget_fingers-IsUsable [] ul other h = tt
    forget_fingers-IsUsable (peer ∷ peers) ul other h =
        (forget_finger-IsUsable peer ul other h.0, forget_fingers-IsUsable peers ul other h.1)

  length-map : (f : ChordPeer → ChordPeer) (xs : List ChordPeer) → length (map f xs) ≡ length xs
  length-map f [] = refl
  length-map f (x ∷ xs) = ap suc (length-map f xs)

  get_or-map_first :
      (f : ChordPeer → ChordPeer) (xs : List ChordPeer) (d : ChordPeer)
      → 0 < length xs
      → get_or (map f xs) 0 d ≡ f (get_or xs 0 d)
  get_or-map_first f [] d h = absurd (omega arith)
  get_or-map_first f (x ∷ xs) d h = refl

  pub forget-Inv :
      (allocated : Bool) (chord : Chord) (id : NodeId) (after : Chord)
      → Inv platform chord
      → forget allocated chord id ≡ ok after
      → Inv platform after
  unfolding forget forget_finger
  forget-Inv allocated chord id after v h = elim (Bool-cases (same_id id chord.local.id)) [
    | inl own ↦ absurd (own_refused (rw own at h))
    | inr other ↦
        let apart : chord.local.id ≢ id = λ e. ne_of_equal id chord.local.id other (sym e) in
        elim (Bool-cases (not (is_unavailable chord.unavailable id) && not allocated)) [
          | inl full ↦ absurd (full_refused (rw (other, full) at h))
          | inr fits ↦ subst (Inv platform) (ok-injective (rw (other, fits) at h)) (record {
            local = still-IsUsable chord.unavailable id chord.local v.local apart;
            successor =
                forget_finger-IsUsable chord.unavailable id chord.local chord.successor v.local
                  apart v.successor;
            fingers =
                forget_fingers-IsUsable chord.unavailable id chord.local chord.fingers v.local apart
                  v.fingers;
            predecessor = still_predecessor;
            count = length-map _ chord.fingers ∙ v.count;
            first =
                get_or-map_first _ chord.fingers chord.local (omega (arith, v.count))
                ∙ ap (forget_finger id chord.local) v.first;
          })
        ]
  ]
    where
      own_refused : err eperm ≡ ok after → ⊥
      own_refused e = cc

      full_refused : err enomem ≡ ok after → ⊥
      full_refused e = cc

      still_predecessor :
          (if same_id chord.predecessor.id id then false else chord.has_predecessor) ≡ true
          → IsUsable platform (marked chord.unavailable id) chord.predecessor
            × (chord.predecessor.id ≢ chord.local.id)
      still_predecessor e = elim (Bool-cases (same_id chord.predecessor.id id)) [
        | inl hit ↦ absurd (false≢true (rw hit at e))
        | inr miss ↦
            let (u, p) = v.predecessor (rw miss at e) in
            (
              still-IsUsable chord.unavailable id chord.predecessor u
                  (ne_of_equal chord.predecessor.id id miss),
              p,
            )
      ]

  available-without :
      (unavailable : List NodeId) (id other : NodeId)
      → is_unavailable unavailable other ≡ false
      → is_unavailable (without unavailable id) other ≡ false
  unfolding is_unavailable without
  available-without [] id other h = refl
  available-without (entry ∷ entries) id other h =
      ground (arith, available-without entries id other)

  allow-IsUsable :
      (unavailable : List NodeId) (id : NodeId) (peer : ChordPeer)
      → IsUsable platform unavailable peer
      → IsUsable platform (without unavailable id) peer
  allow-IsUsable unavailable id peer u = record {
    valid = u.valid;
    available = available-without unavailable id peer.id u.available;
  }

  pub allow-Inv : (chord : Chord) (id : NodeId) → Inv platform chord → Inv platform (allow chord id)
  unfolding allow
  allow-Inv chord id v = record {
    local = allow-IsUsable chord.unavailable id chord.local v.local;
    successor = allow-IsUsable chord.unavailable id chord.successor v.successor;
    fingers =
        All-map (IsUsable platform chord.unavailable)
          (IsUsable platform (without chord.unavailable id)) (allow-IsUsable chord.unavailable id)
          chord.fingers v.fingers;
    predecessor = λ e.
        let (u, p) = v.predecessor e in
        (allow-IsUsable chord.unavailable id chord.predecessor u, p);
    count = v.count;
    first = v.first;
  }
