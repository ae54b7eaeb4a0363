-- ===== src/Membership.antt =====
-- superpeer.h and membership.c: the table of the members that a superpeer knows. Every operation runs
-- under the mutex of the table. The clocks are arguments and natural numbers: `wall` is what time(NULL)
-- gives, `now` the monotonic clock in milliseconds. A difference of two times is compared by adding.
pub mod Updates
pub mod Tick
pub mod Table
pub mod Change
pub mod Later
pub mod Calls
pub mod Reach
pub mod Rumours
pub mod Detector
mod Examples
use trabalho_distribuidos.Prelude.{
  ℕ, zero, suc, ◌+◌, ◌-◌, ◌*◌, ◌/◌, ◌%◌, ◌^◌, ◌≡◌, refl, Bool, true, false, not, ◌&&◌, ◌||◌, Option,
  none, some, List, [], ◌∷◌, ◌++◌, map, length, replicate, ◌==◌, ltb, leb, if◌then◌else◌, Result,
  ok, err, einval, enospc, enomem, enoent, eperm, estale, eacces, Ordering, ◌>>=◌, ◌>>◌,
}
use trabalho_distribuidos.Node.{
  NodeId, Node, Platform, node_id_size, role_peer, role_superpeer, compare, equal, validate,
}
use trabalho_distribuidos.Chord.{same_id}
use trabalho_distribuidos.Chord.Interval.{is_gt}

-- SuperPeerMemberState, a number in messages and in comparisons
abbrev pub alive : ℕ
alive = 0

abbrev pub suspect : ℕ
suspect = 1

abbrev pub failed : ℕ
failed = 2

abbrev pub removed : ℕ
removed = 3

-- SuperPeerMember
pub record Member : Type 0 where
  pub node : Node
  pub state : ℕ
  pub last_seen : ℕ
  pub home : NodeId
  pub reporter : NodeId
  pub incarnation : ℕ
  pub sequence : ℕ
  pub version : ℕ
  pub observed_ms : ℕ
  pub probe_ms : ℕ
  pub failed_probes : ℕ
  pub local_registration : Bool

-- struct SuperPeer; the count of members is the length of the list.
pub record SuperPeer : Type 0 where
  pub local_node : Node
  pub members : List Member
  pub capacity : ℕ

-- SuperPeerRegistrationResult, but for the error
pub data Registration : Type 0 where
  updated added : Registration

abbrev pub default_capacity : ℕ
default_capacity = 16

-- The most members that grow_members_locked allows.
abbrev pub member_limit : ℕ
member_limit = 65536

abbrev pub size_max : ℕ
size_max = 2 ^ 64 - 1

-- find_member_index_locked: the first member with the identifier.
unfoldable pub find_member : List Member → NodeId → Option Member
find_member [] id = none
find_member (m ∷ ms) id = if same_id m.node.id id then some m else find_member ms id

-- A write to that member, through the index.
unfoldable pub put_member : List Member → NodeId → Member → List Member
put_member [] id new = []
put_member (m ∷ ms) id new =
    let rest = put_member ms id new in if same_id m.node.id id then new ∷ ms else m ∷ rest

abbrev pub with_member : SuperPeer → NodeId → Member → SuperPeer
with_member table id m = record table { members = put_member table.members id m }

-- set_member, with the two clocks that it reads.
unfoldable pub set_member : ℕ → ℕ → Node → Member
set_member wall now node = record {
  node = node;
  state = alive;
  last_seen = wall;
  home = replicate node_id_size 0;
  reporter = replicate node_id_size 0;
  incarnation = 0;
  sequence = 0;
  version = 0;
  observed_ms = now;
  probe_ms = 0;
  failed_probes = 0;
  local_registration = true;
}

-- transition, without its line on stdout.
unfoldable pub transition : NodeId → Member → ℕ → Member
transition local m state =
    if m.state == state
    then m
    else record m { state = state; reporter = local; version = (m.version + 1) % 2 ^ 64 }

-- grow_members_locked; `allocated` is false if realloc fails.
unfoldable pub grow : ℕ → Bool → SuperPeer → Result SuperPeer
grow member_size allocated table =
    let doubled = if table.capacity == 0 then default_capacity else table.capacity * 2 in
    if leb member_limit (length table.members)
    then err enospc
    else if ltb (length table.members) table.capacity
    then ok table
    else if ltb (size_max / 2) table.capacity || ltb (size_max / member_size) doubled
    then err enomem
    else if allocated
    then ok (record table { capacity = doubled })
    else err enomem

-- The new member at the end of the table.
abbrev pub add_member : SuperPeer → Member → SuperPeer
add_member table m = record table { members = table.members ++ m ∷ [] }

-- superpeer_create for the node of a valid configuration.
unfoldable pub create : ℕ → ℕ → ℕ → Node → SuperPeer
unfolding set_member
create wall now capacity node =
    let local = record node { role = role_superpeer } in
    record {
      local_node = local;
      members = set_member wall now local ∷ [];
      capacity = if capacity == 0 then default_capacity else capacity;
    }

-- superpeer_unregister_node
unfoldable pub unregister_node : SuperPeer → NodeId → Result (Unit {0}) × SuperPeer
unregister_node table id =
    if same_id table.local_node.id id
    then (err eperm, table)
    else elim (find_member table.members id) [
      | none ↦ (err enoent, table)
      | some m ↦ (
        ok tt,
        with_member table id (record m {
          state = removed;
          reporter = table.local_node.id;
          version = (m.version + 1) % 2 ^ 64;
        }),
      )
    ]

-- superpeer_find_member
unfoldable pub find : SuperPeer → NodeId → Result Member
find table id = elim (find_member table.members id) [
  | none ↦ err enoent
  | some m ↦ if m.state == removed then err enoent else ok m
]

-- A member that counts as registered here.
abbrev pub is_active : Member → Bool
is_active m = m.local_registration && ltb m.state failed

-- superpeer_member_count
unfoldable pub member_count : List Member → ℕ
member_count [] = 0
member_count (m ∷ ms) = if is_active m then suc (member_count ms) else member_count ms

-- superpeer_is_registered
unfoldable pub is_registered : SuperPeer → NodeId → Bool
is_registered table id = elim (find_member table.members id) [ none ↦ false | some m ↦ is_active m ]

-- membership_snapshot, when its allocation succeeds.
unfoldable pub snapshot : SuperPeer → List Member
snapshot table = table.members
