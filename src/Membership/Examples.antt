-- ===== src/Membership/Examples.antt =====
-- A superpeer with one tombstone in its table, and runs of the operations on it.
use mathlib.Core.List.{Permᴰ}
use trabalho_distribuidos.Prelude.{
  ℕ, ◌<◌, ◌≡◌, refl, true, false, not, ◌||◌, some, [], ◌∷◌, arith, map, if◌then◌else◌, ok, pos,
}
use trabalho_distribuidos.Node.{Node, equal, role_peer, role_superpeer}
use trabalho_distribuidos.Node.Examples.{one_address, config_of, id_of, id_of-IsNodeId}
use trabalho_distribuidos.Chord.{same_id}
use trabalho_distribuidos.Membership.{
  Member, SuperPeer, find_member, removed, alive, suspect, failed, create, transition,
  unregister_node,
}
use trabalho_distribuidos.Membership.Tick.{
  tick, tick_member, tick_suspect, tick_failed, tick_removed,
}
use trabalho_distribuidos.Membership.Updates.{register, merge}
use trabalho_distribuidos.Membership.Change.{Inv, IsLater}
use trabalho_distribuidos.Membership.Reach.{
  start, next, registers, merges, unregisters, create-Steps-Inv, Steps-tombstone,
}
use trabalho_distribuidos.Membership.Rumours.{
  IsPlain, rank, newest_all, merge_all, merge_all-Perm, merge_all-tombstone,
}
use trabalho_distribuidos.Membership.Detector.{silent_state, tick-state}

abbrev node_of : ℕ → ℕ → Node
node_of n role = record { id = id_of n; config = config_of n; process_id = pos 77; role = role }

abbrev member_of : ℕ → ℕ → ℕ → ℕ → ℕ → Member
member_of n role state incarnation sequence = record {
  node = node_of n role;
  state = state;
  last_seen = 1;
  home = id_of 10;
  reporter = id_of 10;
  incarnation = incarnation;
  sequence = sequence;
  version = 1;
  observed_ms = 100;
  probe_ms = 0;
  failed_probes = 2;
  local_registration = true;
}

-- The table of superpeer 10 with one more member.
abbrev table_with : Member → SuperPeer
table_with m = record {
  local_node = node_of 10 role_superpeer;
  members = member_of 10 role_superpeer alive 1 1 ∷ m ∷ [];
  capacity = 16;
}

abbrev gone : Member
gone = member_of 20 role_peer removed 4 7

gone-Inv : Inv (table_with gone)
unfolding equal
gone-Inv = record {
  unique = ((refl, tt), (tt, tt));
  first = (id_of 20 ∷ [], refl);
  limit = omega arith;
  room = omega arith;
}

gone_found : find_member (table_with gone).members (id_of 20) ≡ some gone
unfolding find_member equal
gone_found = refl

apart : same_id (table_with gone).local_node.id (id_of 20) ≡ false
unfolding equal
apart = refl

-- Peer 20 registers and is taken out again.
abbrev joined : SuperPeer
joined =
    (register one_address 500 true 2 100 (create 1 90 0 (node_of 10 role_superpeer))
      (node_of 20 role_peer) (id_of 10) 4).1

abbrev left : SuperPeer
left = (unregister_node joined (id_of 20)).1

create-Steps-Inv_example : Inv left
create-Steps-Inv_example =
    create-Steps-Inv one_address 500 1 90 0 (node_of 10 role_superpeer) left (
      next (next (start refl) (registers true 2 100 (node_of 20 role_peer) (id_of 10) 4 refl))
        (unregisters (id_of 20) refl))

-- A late registration, then a rumour of a new incarnation.
abbrev refused : SuperPeer
refused =
    (register one_address 500 true 2 100 (table_with gone) (node_of 20 role_peer) (id_of 10) 4).1

abbrev returned : SuperPeer
returned = (merge one_address 500 true 300 refused (member_of 20 role_peer alive 5 1)).1

Steps-tombstone_example :
    (later : Member) × (find_member returned.members (id_of 20) ≡ some later) × IsLater gone later
Steps-tombstone_example =
    Steps-tombstone one_address 500 (table_with gone) returned (id_of 20) gone gone-Inv
      (next (next (start refl) (registers true 2 100 (node_of 20 role_peer) (id_of 10) 4 refl))
        (merges true 300 (member_of 20 role_peer alive 5 1) refl))
      gone_found apart

abbrev rumour : ℕ → ℕ → Member
rumour state sequence = member_of 30 role_superpeer state 4 sequence

plain : (state sequence : ℕ) → state < removed → IsPlain (id_of 10) (rumour state sequence)
unfolding equal
plain state sequence h = record {
  reporter = id_of-IsNodeId 10 (omega arith);
  state = h;
  foreign = refl;
}

merge_all-Perm_example :
    (rank (merge_all (id_of 10) (rumour alive 1) (rumour suspect 2 ∷ rumour alive 3 ∷ []))
      ≡ rank (merge_all (id_of 10) (rumour alive 1) (rumour alive 3 ∷ rumour suspect 2 ∷ [])))
    × (rank (merge_all (id_of 10) (rumour alive 1) (rumour suspect 2 ∷ rumour alive 3 ∷ []))
        ≡ newest_all (rank (rumour alive 1)) (map rank (rumour suspect 2 ∷ rumour alive 3 ∷ [])))
merge_all-Perm_example =
    merge_all-Perm (id_of 10) (rumour alive 1) (rumour suspect 2 ∷ rumour alive 3 ∷ [])
      (rumour alive 3 ∷ rumour suspect 2 ∷ []) (plain alive 1 (omega arith))
      (plain suspect 2 (omega arith), (plain alive 3 (omega arith), tt)) (Permᴰ.swap refl refl)

merge_all-tombstone_example :
    ((merge_all (id_of 10) (rumour alive 1) (rumour alive 3 ∷ rumour removed 2 ∷ [])).state ≡ alive)
    × ((merge_all (id_of 10) (rumour alive 1) (rumour removed 2 ∷ rumour alive 3 ∷ [])).state
        ≡ removed)
merge_all-tombstone_example =
    merge_all-tombstone (id_of 10) (rumour alive 1) (rumour alive 3) (rumour removed 2)
      (plain alive 1 (omega arith)) refl refl refl refl refl refl (omega arith) (omega arith)

abbrev watched : Member
watched = member_of 20 role_peer alive 4 7

watched_found : find_member (table_with watched).members (id_of 20) ≡ some watched
unfolding find_member equal
watched_found = refl

-- 5000 milliseconds of silence, and two probes that failed.
ticked :
    tick (table_with watched) 5100 1000 3000 9000
    ≡ ok (table_with (record watched { state = failed; version = 3 }))
unfolding tick tick_member tick_suspect tick_failed tick_removed transition equal
ticked = refl

tick-state_example :
    (later : Member) × (find_member
        (table_with (record watched { state = failed; version = 3 })).members
        (id_of 20)
      ≡ some later)
    × (later.state ≡ (
        if same_id watched.node.id (id_of 10) || not watched.local_registration
        then alive
        else silent_state 1000 3000 9000 alive 2 5000))
tick-state_example =
    tick-state (table_with watched) (table_with (record watched { state = failed; version = 3 }))
      5100 1000 3000 9000 5000 (id_of 20) watched ticked watched_found refl (omega arith)
