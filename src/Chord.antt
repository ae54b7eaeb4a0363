-- ===== src/Chord.antt =====
-- chord.h and chord.c: the routing state of one node of the ring. Each operation runs under the
-- mutex of the ring, so it is one step; it returns the new state, or the error with the state as it
-- was. Pointers are passed by value, and only the allocation of chord_forget may fail.
pub mod Interval
pub mod Power
pub mod Route
pub mod Invariant
pub mod Reach
pub mod Forget
pub mod Repair
pub mod Neighbours
pub mod Examples
use Interval.{open_closed, open_open, is_lt, is_gt}
use Power.{finger_count}
use trabalho_distribuidos.Prelude.{
  ℕ, zero, suc, ◌+◌, ◌-◌, ◌≡◌, Bool, true, false, not, ◌&&◌, ◌||◌, Option, none, some, List, [],
  ◌∷◌, ◌==◌, ltb, leb, if◌then◌else◌, Result, ok, err, einval, enomem, eperm, ehostunreach, ◌>>=◌,
  ◌>>◌, require, replicate, set, get_or, Ordering, map,
}
use trabalho_distribuidos.Node.{
  NodeId, NodeConfig, Node, Platform, node_id_size, node_address_size, node_uuid_size, compute_id,
  compare, equal,
}

pub record ChordPeer : Type 0 where
  pub id : NodeId
  pub config : NodeConfig

-- struct Chord, but for its mutex; the list of failed nodes holds their identifiers.
pub record Chord : Type 0 where
  pub local : ChordPeer
  pub successor : ChordPeer
  pub predecessor : ChordPeer
  pub fingers : List ChordPeer
  pub has_predecessor : Bool
  pub unavailable : List NodeId

-- A peer in zeroed memory.
abbrev pub zero_peer : ChordPeer
zero_peer = record {
  id = replicate node_id_size 0;
  config = record {
    ip = replicate node_address_size 0;
    port = 0;
    uuid = replicate node_uuid_size 0;
  };
}

abbrev pub same_id : NodeId → NodeId → Bool
same_id a b = equal (some a) (some b)

-- chord_create
unfoldable pub create : Node → Chord
create node = record {
  local = local;
  successor = local;
  predecessor = zero_peer;
  fingers = replicate finger_count local;
  has_predecessor = false;
  unavailable = [];
}
  where
    local : ChordPeer
    local = record { id = node.id; config = node.config }

-- unavailable_locked
unfoldable pub is_unavailable : List NodeId → NodeId → Bool
is_unavailable [] id = false
is_unavailable (entry ∷ entries) id = same_id entry id || is_unavailable entries id

-- chord_get_successor, chord_get_predecessor and chord_get_finger
unfoldable pub get_successor : Chord → ChordPeer
get_successor chord = chord.successor

unfoldable pub get_predecessor : Chord → Option ChordPeer
get_predecessor chord = if chord.has_predecessor then some chord.predecessor else none

unfoldable pub get_finger : Chord → ℕ → Result ChordPeer
get_finger chord index =
    if leb finger_count index then err einval else ok (get_or chord.fingers index chord.local)

-- `chord->successor = peer; chord->fingers[0] = peer`
abbrev pub with_successor : Chord → ChordPeer → Chord
with_successor chord peer = record chord { successor = peer; fingers = set chord.fingers 0 peer }

-- node_id_compare(a, b) > 0
abbrev pub is_after : NodeId → NodeId → Bool
is_after a b = is_gt (compare (some a) (some b))

-- a == b, on truth values
abbrev pub same : Bool → Bool → Bool
same true b = b
same false b = not b

-- One round of the loop of chord_repair: the successor chosen so far, and `selected`.
unfoldable pub consider : Chord → ChordPeer × Bool → ChordPeer → ChordPeer × Bool
consider chord (successor, selected) peer =
    if same_id peer.id chord.local.id || is_unavailable chord.unavailable peer.id
    then (successor, selected)
    else let after = is_after peer.id chord.local.id in
      let selected_after = is_after successor.id chord.local.id in
      if not selected
        || (after && not selected_after)
        || (same after selected_after && is_lt (compare (some peer.id) (some successor.id)))
      then (peer, true)
      else (successor, selected)

unfoldable pub choose : Chord → ChordPeer × Bool → List ChordPeer → ChordPeer × Bool
unfolding consider
choose chord chosen [] = chosen
choose chord chosen (peer ∷ alive) = choose chord (consider chord chosen peer) alive

module _ (platform : Platform) where
  unfoldable pub is_computed : ChordPeer → Result NodeId → Bool
  is_computed peer (ok calculated) = same_id calculated peer.id
  is_computed peer (err e) = false

  -- valid_peer: the identifier is the hash of the configuration.
  unfoldable pub valid_peer : ChordPeer → Bool
  unfolding is_computed
  valid_peer peer = is_computed peer (compute_id platform peer.config)

  -- The checks with which every update begins.
  abbrev pub admit : Chord → ChordPeer → Result (Unit {0})
  admit chord peer = do
    require (valid_peer peer) einval
    require (not (is_unavailable chord.unavailable peer.id)) ehostunreach

  -- chord_set_successor
  unfoldable pub set_successor : Chord → ChordPeer → Result Chord
  set_successor chord peer = do admit chord peer; ok (with_successor chord peer)

  -- chord_notify
  unfoldable pub notify : Chord → ChordPeer → Result Chord
  notify chord peer = do
    admit chord peer
    ok (
        if not (same_id peer.id chord.local.id)
          && (not chord.has_predecessor || open_open chord.predecessor.id chord.local.id peer.id)
        then record chord { predecessor = peer; has_predecessor = true }
        else chord)

  -- chord_consider_predecessor
  unfoldable pub consider_predecessor : Chord → ChordPeer → Result Chord
  consider_predecessor chord candidate = do
    admit chord candidate
    ok (
        if not (same_id candidate.id chord.local.id)
          && (same_id chord.successor.id chord.local.id
              || open_open chord.local.id chord.successor.id candidate.id)
        then with_successor chord candidate
        else chord)

  -- chord_set_finger
  unfoldable pub set_finger : Chord → ℕ → ChordPeer → Result Chord
  unfolding set_successor
  set_finger chord index peer = do
    require (ltb index finger_count) einval
    require (valid_peer peer) einval
    if index == 0 then set_successor chord peer else (do
      require (not (is_unavailable chord.unavailable peer.id)) ehostunreach
      ok (record chord { fingers = set chord.fingers index peer }))

  pub all_valid : List ChordPeer → Bool
  all_valid [] = true
  all_valid (peer ∷ peers) = valid_peer peer && all_valid peers

  -- chord_repair
  unfoldable pub repair : Chord → List ChordPeer → Result Chord
  unfolding all_valid choose
  repair chord alive = do
    require (all_valid alive) einval
    ok (with_successor chord (choose chord (chord.local, false) alive).0)

-- The hop of chord_route.
pub record Hop : Type 0 where
  pub next : ChordPeer
  pub complete : Bool

-- The loop of chord_route over the fingers below `index`, from the last to the first.
pub closest_finger : Chord → NodeId → ℕ → ChordPeer
closest_finger chord key zero = chord.successor
closest_finger chord key (suc index) =
    let finger = get_or chord.fingers index chord.local in
    let rest = closest_finger chord key index in
    if not (same_id finger.id chord.local.id) && open_open chord.local.id key finger.id
    then finger
    else rest

-- chord_route
unfoldable pub route : Chord → NodeId → Hop
unfolding closest_finger
route chord key =
    if same_id key chord.local.id
    then record { next = chord.local; complete = true }
    else if same_id chord.successor.id chord.local.id
        || open_closed chord.local.id chord.successor.id key
    then record { next = chord.successor; complete = true }
    else record { next = closest_finger chord key finger_count; complete = false }

-- The loop of chord_forget over the fingers.
pub forget_finger : NodeId → ChordPeer → ChordPeer → ChordPeer
forget_finger id local finger = if same_id finger.id id then local else finger

-- chord_forget; `allocated` is the outcome of malloc, which is called for a new entry only.
unfoldable pub forget : Bool → Chord → NodeId → Result Chord
unfolding forget_finger
forget allocated chord id =
    if same_id id chord.local.id
    then err eperm
    else let known = is_unavailable chord.unavailable id in
      if not known && not allocated
      then err enomem
      else ok (record chord {
        unavailable = if known then chord.unavailable else id ∷ chord.unavailable;
        has_predecessor = if same_id chord.predecessor.id id then false else chord.has_predecessor;
        successor = if same_id chord.successor.id id then chord.local else chord.successor;
        fingers = map (forget_finger id chord.local) chord.fingers;
      })

-- chord_allow: the first entry of the node is taken out.
unfoldable pub without : List NodeId → NodeId → List NodeId
without [] id = []
without (entry ∷ entries) id =
    let rest = without entries id in if same_id entry id then entries else entry ∷ rest

unfoldable pub allow : Chord → NodeId → Chord
unfolding without
allow chord id = record chord { unavailable = without chord.unavailable id }
