-- ===== src/ChordNetwork/Reach.antt =====
-- chord_network.c: the ring state of a node that joins, keeps up its tables and answers other nodes.
use trabalho_distribuidos.Prelude.{ℕ, ◌≡◌, List, Result, ok, ℤ}
use trabalho_distribuidos.Node.{Node, Platform}
use trabalho_distribuidos.Chord.{Chord, ChordPeer, create}
use trabalho_distribuidos.ChordNetwork.{Message, handle}
use trabalho_distribuidos.ChordNetwork.Upkeep.{maintain, join}

module _ (platform : Platform) (process_id : ℤ) where
  -- One call of the overlay, with whatever the other nodes answer.
  pub data NetworkStep (chord : Chord) : Chord → Type 0 where
    handles :
        {after : Chord} (request : Message) (answer : ℕ × List ℕ)
        → handle platform process_id chord request ≡ ok (answer, after)
        → NetworkStep chord after
    joins :
        {after : Chord} (call : ℕ → ChordPeer → ℕ → List ℕ → Result Message)
        (contact : Result Message)
        → join platform process_id call chord contact ≡ ok after
        → NetworkStep chord after
    maintains :
        {after : Chord} (call : ℕ → ChordPeer → ℕ → List ℕ → Result Message) (index : ℕ)
        → (maintain platform process_id call chord index).0 ≡ after
        → NetworkStep chord after

  pub data NetworkReach (node : Node) : Chord → Type 0 where
    begin : NetworkReach node (create node)
    more : {a b : Chord} → NetworkReach node a → NetworkStep a b → NetworkReach node b
