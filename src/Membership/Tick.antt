-- ===== src/Membership/Tick.antt =====
-- membership.c: what the failure detector does to the table, and the node to its own record.
use trabalho_distribuidos.Prelude.{
  ℕ, ◌+◌, Bool, not, ◌&&◌, ◌||◌, none, some, List, [], ◌∷◌, map, ◌==◌, ltb, leb, if◌then◌else◌,
  Result, ok, err, einval,
}
use trabalho_distribuidos.Node.{NodeId, Node}
use trabalho_distribuidos.Chord.{same_id}
use trabalho_distribuidos.Membership.{
  alive, suspect, failed, removed, Member, SuperPeer, find_member, with_member, transition,
}

-- The update of membership_probe.
unfoldable pub probed : ℕ → Bool → Member → Member
probed now success m = record m {
  probe_ms = now;
  failed_probes =
      if success then 0 else if ltb m.failed_probes 2 then m.failed_probes + 1 else m.failed_probes;
}

-- membership_probe
unfoldable pub probe : SuperPeer → NodeId → ℕ → ℕ → ℕ → Bool → SuperPeer
unfolding probed
probe table id incarnation sequence now success = elim (find_member table.members id) [
  | none ↦ table
  | some m ↦
      if (m.incarnation == incarnation && m.sequence == sequence)
        && (m.state == suspect && leb (m.probe_ms + 1000) now)
      then with_member table id (probed now success m)
      else table
]

-- The three tests of membership_tick for a member that is watched, each on what the last one left.
unfoldable pub tick_suspect : NodeId → ℕ → ℕ → Member → Member
unfolding transition
tick_suspect local now suspect_ms m =
    if m.state == alive && leb (m.observed_ms + suspect_ms) now
    then transition local m suspect
    else m

unfoldable pub tick_failed : NodeId → ℕ → ℕ → Member → Member
unfolding transition
tick_failed local now failed_ms m =
    if (m.state == suspect && leb (m.observed_ms + failed_ms) now) && leb 2 m.failed_probes
    then transition local m failed
    else m

unfoldable pub tick_removed : NodeId → ℕ → ℕ → Member → Member
unfolding transition
tick_removed local now removed_ms m =
    if m.state == failed && leb (m.observed_ms + removed_ms) now
    then transition local m removed
    else m

-- One round of the loop of membership_tick.
unfoldable pub tick_member : NodeId → ℕ → ℕ → ℕ → ℕ → Member → Member
unfolding tick_suspect tick_failed tick_removed
tick_member local now suspect_ms failed_ms removed_ms m =
    if same_id m.node.id local || not m.local_registration
    then m
    else tick_removed local now removed_ms
        (tick_failed local now failed_ms (tick_suspect local now suspect_ms m))

-- membership_tick
unfoldable pub tick : SuperPeer → ℕ → ℕ → ℕ → ℕ → Result SuperPeer
unfolding tick_member
tick table now suspect_ms failed_ms removed_ms =
    if suspect_ms == 0 || (leb failed_ms suspect_ms || leb removed_ms failed_ms)
    then err einval
    else ok (record table {
      members =
          map (tick_member table.local_node.id now suspect_ms failed_ms removed_ms) table.members;
    })

-- membership_local, on the first member.
unfoldable pub renew : Node → ℕ → ℕ → List Member → List Member
renew node incarnation sequence [] = []
renew node incarnation sequence (m ∷ ms) =
    record m {
      node = node;
      home = node.id;
      reporter = node.id;
      incarnation = incarnation;
      sequence = sequence;
      state = alive;
    }
    ∷ ms

unfoldable pub renew_local : SuperPeer → Node → ℕ → ℕ → Result SuperPeer
unfolding renew
renew_local table node incarnation sequence =
    if not (same_id table.local_node.id node.id)
    then err einval
    else ok (record table {
      local_node = node;
      members = renew node incarnation sequence table.members;
    })
