-- ===== src/Chord/Invariant.antt =====
-- The invariant of the ring state over every interleaving of the operations that change it.
use trabalho_distribuidos.Prelude.{
  ℕ, zero, suc, ◌<◌, ◌≡◌, ◌≢◌, inl, inr, refl, Bool, true, false, not, List, [], ◌∷◌, arith, All,
  Bool-cases, if◌then◌else◌, get_or, set, subst, ◌∙◌, &&-true, length, length-set, replicate,
  Result, ok, err, einval, ehostunreach, ◌>>◌, ok-injective,
}
use trabalho_distribuidos.Node.{NodeId, Platform}
use trabalho_distribuidos.Node.Order.{equal_iff}
use trabalho_distribuidos.Chord.Power.{finger_count}
use trabalho_distribuidos.Chord.{
  Chord, ChordPeer, same_id, is_unavailable, with_successor, valid_peer, admit, set_successor,
  notify, consider_predecessor,
}

-- A peer that may stand in the tables: its identifier is the hash of its configuration, and it is
-- not among the nodes held to have failed.
pub record IsUsable (platform : Platform) (unavailable : List NodeId) (peer : ChordPeer)
    : Type 0 where
  pub valid : valid_peer platform peer ≡ true
  pub available : is_unavailable unavailable peer.id ≡ false

pub record Inv (platform : Platform) (chord : Chord) : Type 0 where
  pub local : IsUsable platform chord.unavailable chord.local
  pub successor : IsUsable platform chord.unavailable chord.successor
  pub fingers : All (IsUsable platform chord.unavailable) chord.fingers
  pub predecessor :
      chord.has_predecessor ≡ true
      → IsUsable platform chord.unavailable chord.predecessor
        × (chord.predecessor.id ≢ chord.local.id)
  pub count : length chord.fingers ≡ finger_count
  pub first : get_or chord.fingers 0 chord.local ≡ chord.successor

pub All-set :
    {A : Type 0} (P : A → Type 0) (xs : List A) (i : ℕ) (v : A)
    → P v
    → All P xs
    → All P (set xs i v)
All-set P [] i v p h = tt
All-set P (x ∷ xs) zero v p h = (p, h.1)
All-set P (x ∷ xs) (suc i) v p h = (h.0, All-set P xs i v p h.1)

pub All-replicate : {A : Type 0} (P : A → Type 0) (n : ℕ) (v : A) → P v → All P (replicate n v)
All-replicate P zero v p = tt
All-replicate P (suc n) v p = (p, All-replicate P n v p)

get_or-set_first :
    {A : Type 0} (xs : List A) (v d : A) → 0 < length xs → get_or (set xs 0 v) 0 d ≡ v
get_or-set_first [] v d h = absurd (omega arith)
get_or-set_first (x ∷ xs) v d h = refl

pub get_or-set_later :
    {A : Type 0} (xs : List A) (i : ℕ) (v d : A) → 0 < i → get_or (set xs i v) 0 d ≡ get_or xs 0 d
get_or-set_later xs zero v d h = absurd (omega arith)
get_or-set_later [] (suc i) v d h = refl
get_or-set_later (x ∷ xs) (suc i) v d h = refl

module _ (platform : Platform) where
  pub admit-IsUsable :
      (chord : Chord) (peer : ChordPeer) (rest : Result Chord) (after : Chord)
      → (admit platform chord peer >> rest) ≡ ok after
      → IsUsable platform chord.unavailable peer × (rest ≡ ok after)
  admit-IsUsable chord peer rest after h = elim (Bool-cases (valid_peer platform peer)) [
    | inl valid ↦ elim (Bool-cases (is_unavailable chord.unavailable peer.id)) [
      | inl gone ↦ absurd (refused (rw (valid, gone) at h))
      | inr here ↦ (record { valid = valid; available = here }, rw (valid, here) at h)
    ]
    | inr invalid ↦ absurd (refused' (rw invalid at h))
  ]
    where
      refused : err ehostunreach ≡ ok after → ⊥
      refused e = cc

      refused' : err einval ≡ ok after → ⊥
      refused' e = cc

  pub with_successor-Inv :
      (chord : Chord) (peer : ChordPeer)
      → IsUsable platform chord.unavailable peer
      → Inv platform chord
      → Inv platform (with_successor chord peer)
  with_successor-Inv chord peer u v = record {
    local = v.local;
    successor = u;
    fingers = All-set (IsUsable platform chord.unavailable) chord.fingers 0 peer u v.fingers;
    predecessor = v.predecessor;
    count = length-set chord.fingers 0 peer ∙ v.count;
    first = get_or-set_first chord.fingers peer chord.local (omega (arith, v.count));
  }

  -- Every update that succeeds keeps the invariant; what it returns on an error is the old state.
  pub set_successor-Inv :
      (chord : Chord) (peer : ChordPeer) (after : Chord)
      → Inv platform chord
      → set_successor platform chord peer ≡ ok after
      → Inv platform after
  unfolding set_successor
  set_successor-Inv chord peer after v h =
      let (u, e) = admit-IsUsable chord peer _ after h in
      subst (Inv platform) (ok-injective e) (with_successor-Inv chord peer u v)

  if_both :
      (P : Chord → Type 0) (test : Bool) (a b : Chord)
      → (test ≡ true → P a)
      → P b
      → P (if test then a else b)
  if_both P true a b ha hb = ha refl
  if_both P false a b ha hb = hb

  not-same : (a b : NodeId) → not (same_id a b) ≡ true → a ≢ b
  not-same a b h e = cc ((equal_iff a b).1 e)

  pub notify-Inv :
      (chord : Chord) (peer : ChordPeer) (after : Chord)
      → Inv platform chord
      → notify platform chord peer ≡ ok after
      → Inv platform after
  unfolding notify
  notify-Inv chord peer after v h =
      let (u, e) = admit-IsUsable chord peer _ after h in
      subst (Inv platform) (ok-injective e) (
        if_both (Inv platform) _ (record chord { predecessor = peer; has_predecessor = true }) chord
          (λ t. record {
            local = v.local;
            successor = v.successor;
            fingers = v.fingers;
            predecessor = λ _. (u, not-same peer.id chord.local.id (&&-true _ _ t).0);
            count = v.count;
            first = v.first;
          })
          v)

  pub consider_predecessor-Inv :
      (chord : Chord) (peer : ChordPeer) (after : Chord)
      → Inv platform chord
      → consider_predecessor platform chord peer ≡ ok after
      → Inv platform after
  unfolding consider_predecessor
  consider_predecessor-Inv chord peer after v h =
      let (u, e) = admit-IsUsable chord peer _ after h in
      subst (Inv platform) (ok-injective e) (
        if_both (Inv platform) _ (with_successor chord peer) chord
          (λ _. with_successor-Inv chord peer u v) v)
