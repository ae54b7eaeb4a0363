-- ===== src/Chord/Repair.antt =====
-- chord_repair chooses the first live node clockwise.
use Prim.Native.Nat
use trabalho_distribuidos.Prelude.{
  ℕ, ◌≡◌, ◌≢◌, ◌⊎◌, Bool, true, false, List, [], ◌∷◌, if◌then◌else◌,
}
use trabalho_distribuidos.Node.Order.{IsNodeId}
use trabalho_distribuidos.Chord.Interval.{ring_size, distance}
use trabalho_distribuidos.Chord.{Chord, ChordPeer, is_unavailable}

abbrev HasId : ChordPeer → Type 0
HasId peer = IsNodeId peer.id

-- A peer that may become the successor.
pub record IsCandidate (chord : Chord) (peer : ChordPeer) : Type 0 where
  pub other : peer.id ≢ chord.local.id
  pub available : is_unavailable chord.unavailable peer.id ≡ false

-- The way to the node chosen so far, and the whole ring while there is none.
way : Chord → ChordPeer × Bool → ℕ
way chord (peer, selected) = if selected then distance chord.local.id peer.id else ring_size

abbrev IsSound : Chord → ChordPeer × Bool → Type 0
IsSound chord (peer, selected) =
    HasId peer
    × (selected ≡ true → peer.id ≢ chord.local.id)
    × (selected ≡ false → peer ≡ chord.local)

-- The peer is one of the list.
abbrev pub OneOf : ChordPeer → List ChordPeer → Type 0
OneOf x [] = ⊥
OneOf x (y ∷ ys) = (x ≡ y) ⊎ OneOf x ys
