-- ===== src/Chord/Reach.antt =====
-- Every state that the operations reach from chord_create, in any order, keeps the invariant.
use trabalho_distribuidos.Prelude.{
  ℕ, ◌≡◌, inl, inr, refl, Bool, true, false, not, ◌||◌, List, [], ◌∷◌, arith, Bool-cases,
  if◌then◌else◌, set, subst, ◌∙◌, &&-true, length-set, length-replicate, Result, ok, einval,
  ehostunreach, ◌>>◌, require, require-ok, ok-injective, ltb, ◌==◌,
}
use trabalho_distribuidos.Node.{NodeId, Node, Platform}
use trabalho_distribuidos.Chord.Power.{finger_count}
use trabalho_distribuidos.Chord.{
  Chord, ChordPeer, same_id, create, is_unavailable, with_successor, valid_peer, set_successor,
  notify, consider_predecessor, set_finger, all_valid, consider, choose, repair, forget, allow,
}
use trabalho_distribuidos.Chord.Invariant.{
  IsUsable, Inv, All-set, All-replicate, with_successor-Inv, set_successor-Inv, notify-Inv,
  consider_predecessor-Inv, get_or-set_later,
}
use trabalho_distribuidos.Chord.Forget.{forget-Inv, allow-Inv}

module _ (platform : Platform) where
  pub create-Inv :
      (node : Node) → valid_peer platform (create node).local ≡ true → Inv platform (create node)
  unfolding create is_unavailable
  create-Inv node valid =
      let u : IsUsable platform [] (create node).local = record {
        valid = valid;
        available = refl;
      } in
      record {
        local = u;
        successor = u;
        fingers = All-replicate (IsUsable platform []) finger_count (create node).local u;
        predecessor = λ h. cc;
        count = length-replicate finger_count (create node).local;
        first = refl;
      }

  set_finger-Inv :
      (chord : Chord) (index : ℕ) (peer : ChordPeer) (after : Chord)
      → Inv platform chord
      → set_finger platform chord index peer ≡ ok after
      → Inv platform after
  unfolding set_finger
  set_finger-Inv chord index peer after v h =
      let (_, g) =
        require-ok (ltb index finger_count) einval
          (do
            require (valid_peer platform peer) einval
            if index == 0 then set_successor platform chord peer else later)
          h in
      let (valid, e) =
        require-ok (valid_peer platform peer) einval
          (if index == 0 then set_successor platform chord peer else later) g in
      elim (Bool-cases (index == 0)) [
        | inl first ↦ set_successor-Inv platform chord peer after v (rw first at e)
        | inr behind ↦
            let (here, k) = require-ok usable ehostunreach (ok done) (rw behind at e) in
            let u : IsUsable platform chord.unavailable peer = record {
              valid = valid;
              available = ground arith;
            } in
            subst (Inv platform) (ok-injective k) (record {
              local = v.local;
              successor = v.successor;
              fingers =
                  All-set (IsUsable platform chord.unavailable) chord.fingers index peer u
                    v.fingers;
              predecessor = v.predecessor;
              count = length-set chord.fingers index peer ∙ v.count;
              first =
                  get_or-set_later chord.fingers index peer chord.local (ground arith) ∙ v.first;
            })
      ]
    where
      usable : Bool
      usable = not (is_unavailable chord.unavailable peer.id)

      done : Chord
      done = record chord { fingers = set chord.fingers index peer }

      later : Result Chord
      later = do require usable ehostunreach; ok done

  if_first :
      (P : ChordPeer → Type 0) (test : Bool) (a b : ChordPeer × Bool)
      → P a.0
      → P b.0
      → P (if test then a else b).0
  if_first P true a b ha hb = ha
  if_first P false a b ha hb = hb

  choose-IsUsable :
      (chord : Chord) (chosen : ChordPeer × Bool) (alive : List ChordPeer)
      → IsUsable platform chord.unavailable chosen.0
      → all_valid platform alive ≡ true
      → IsUsable platform chord.unavailable (choose chord chosen alive).0
  unfolding choose consider all_valid
  choose-IsUsable chord chosen [] u h = u
  choose-IsUsable chord (chosen, selected) (peer ∷ alive) u h =
      choose-IsUsable chord (consider chord (chosen, selected) peer) alive
        (elim (Bool-cases
          (same_id peer.id chord.local.id || is_unavailable chord.unavailable peer.id)) [
            | inl skipped ↦ rw (skipped, consider) u
            | inr candidate ↦
                let fresh : IsUsable platform chord.unavailable peer = record {
                  valid = (&&-true _ _ h).0;
                  available = ground arith;
                } in
                rw (candidate, consider)
                  (if_first (IsUsable platform chord.unavailable) _ (peer, true) (chosen, selected)
                    fresh u)
          ])
        (&&-true _ _ h).1

  repair-Inv :
      (chord : Chord) (alive : List ChordPeer) (after : Chord)
      → Inv platform chord
      → repair platform chord alive ≡ ok after
      → Inv platform after
  unfolding repair
  repair-Inv chord alive after v h =
      let (valid, e) =
        require-ok (all_valid platform alive) einval
          (ok (with_successor chord (choose chord (chord.local, false) alive).0)) h in
      subst (Inv platform) (ok-injective e) (
        with_successor-Inv platform chord _
          (choose-IsUsable chord (chord.local, false) alive v.local valid) v)

  -- The calls that change the ring, as other threads may interleave them.
  pub data Step (chord : Chord) : Chord → Type 0 where
    sets_successor :
        {after : Chord} (peer : ChordPeer)
        → set_successor platform chord peer ≡ ok after
        → Step chord after
    notifies :
        {after : Chord} (peer : ChordPeer)
        → notify platform chord peer ≡ ok after
        → Step chord after
    considers :
        {after : Chord} (peer : ChordPeer)
        → consider_predecessor platform chord peer ≡ ok after
        → Step chord after
    sets_finger :
        {after : Chord} (index : ℕ) (peer : ChordPeer)
        → set_finger platform chord index peer ≡ ok after
        → Step chord after
    forgets :
        {after : Chord} (allocated : Bool) (id : NodeId)
        → forget allocated chord id ≡ ok after
        → Step chord after
    allows : {after : Chord} (id : NodeId) → allow chord id ≡ after → Step chord after
    repairs :
        {after : Chord} (alive : List ChordPeer)
        → repair platform chord alive ≡ ok after
        → Step chord after

  pub data Reach (node : Node) : Chord → Type 0 where
    start : Reach node (create node)
    later : {a b : Chord} → Reach node a → Step a b → Reach node b

  pub Step-Inv : {a b : Chord} → Step a b → Inv platform a → Inv platform b
  Step-Inv (sets_successor peer e) v = set_successor-Inv platform _ peer _ v e
  Step-Inv (notifies peer e) v = notify-Inv platform _ peer _ v e
  Step-Inv (considers peer e) v = consider_predecessor-Inv platform _ peer _ v e
  Step-Inv (sets_finger index peer e) v = set_finger-Inv _ index peer _ v e
  Step-Inv (forgets allocated id e) v = forget-Inv platform allocated _ id _ v e
  Step-Inv (allows id e) v = subst (Inv platform) e (allow-Inv platform _ id v)
  Step-Inv (repairs alive e) v = repair-Inv _ alive _ v e

  -- From a ring created for a node whose identifier is the hash of its configuration, whatever calls
  -- are made in whatever order: the table has 256 fingers of which the first is the successor; the
  -- successor and every finger are peers with a verified identifier that is not marked as failed; and
  -- so is the predecessor, when there is one, which is then not the local node.
  pub Reach-Inv :
      {node : Node} {chord : Chord}
      → valid_peer platform (create node).local ≡ true
      → Reach node chord
      → Inv platform chord
  Reach-Inv {node} valid start = create-Inv node valid
  Reach-Inv valid (later r step) = Step-Inv step (Reach-Inv valid r)
