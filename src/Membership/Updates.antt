-- ===== src/Membership/Updates.antt =====
-- membership.c: what registrations, records from other superpeers and heartbeats do to the table.
use trabalho_distribuidos.Prelude.{
  ℕ, Bool, true, false, not, ◌&&◌, ◌||◌, none, some, ◌==◌, ltb, leb, if◌then◌else◌, Result, ok, err,
  einval, enoent, estale, eacces,
}
use trabalho_distribuidos.Node.{
  NodeId, Node, Platform, role_peer, role_superpeer, compare, validate,
}
use trabalho_distribuidos.Chord.{same_id}
use trabalho_distribuidos.Chord.Interval.{is_gt}
use trabalho_distribuidos.Membership.{
  alive, failed, removed, Member, SuperPeer, Registration, updated, added, find_member, with_member,
  add_member, set_member, transition, grow,
}

-- The end of membership_register, for a member that is known or new.
unfoldable pub refresh : Node → ℕ → ℕ → Node → NodeId → ℕ → Member → Member
unfolding transition
refresh local wall now node home incarnation m =
    let sequence = if incarnation == m.incarnation then m.sequence else 0 in
    let renewed = record m {
      node = node;
      home = home;
      incarnation = incarnation;
      sequence = sequence;
    } in
    record (transition local.id renewed alive) {
      reporter = local.id;
      observed_ms = now;
      last_seen = wall;
      failed_probes = 0;
      local_registration = node.role == role_superpeer || same_id home local.id;
    }

-- An incarnation that a registration of a known member must not have.
unfoldable pub is_stale : Member → ℕ → Bool
is_stale m incarnation =
    ltb incarnation m.incarnation || (leb failed m.state && leb incarnation m.incarnation)

-- The order of membership_merge on two records of a node.
unfoldable pub is_newer : Member → Member → Bool
is_newer incoming old =
    ltb old.incarnation incoming.incarnation
    || (incoming.incarnation == old.incarnation
        && (ltb old.sequence incoming.sequence
            || (incoming.sequence == old.sequence
                && (ltb old.state incoming.state
                    || (incoming.state == old.state
                        && (ltb old.version incoming.version
                            || (incoming.version == old.version
                                && is_gt
                                    (compare (some incoming.reporter) (some old.reporter)))))))))

-- The two exceptions that follow: a tombstone, and a peer of the local domain.
unfoldable pub may_replace : NodeId → Member → Member → Bool
unfolding is_newer
may_replace local old incoming =
    not (old.node.role == role_peer && same_id old.home local)
    && (not (old.state == removed && leb incoming.incarnation old.incarnation)
        && is_newer incoming old)

-- What membership_merge makes of a record that the table holds. The call of transition on the old
-- record is left out, since `*old = *incoming` overwrites all that it changes.
unfoldable pub merge_known : NodeId → Member → Member → Member
unfolding may_replace
merge_known local old incoming =
    let last_seen =
      if incoming.incarnation == old.incarnation
        && (old.state == alive || not (incoming.state == alive))
      then old.last_seen
      else 0 in
    if may_replace local old incoming
    then record incoming {
      observed_ms = old.observed_ms;
      last_seen = last_seen;
      local_registration = old.local_registration;
    }
    else old

-- A heartbeat that membership_heartbeat refuses.
unfoldable pub is_late : Member → Member → Bool
is_late m incoming =
    not (incoming.node.role == m.node.role)
    || (not (same_id incoming.home m.home)
        || (ltb incoming.incarnation m.incarnation
            || (incoming.incarnation == m.incarnation
                && (leb incoming.sequence m.sequence || leb failed m.state))))

-- What an accepted one changes.
unfoldable pub beat : NodeId → ℕ → ℕ → Member → Member → Member
unfolding transition
beat local wall now incoming m =
    record (transition local
      (record m { incarnation = incoming.incarnation; sequence = incoming.sequence }) alive) {
        observed_ms = now;
        last_seen = wall;
        failed_probes = 0;
      }

abbrev pub succeeds : Result (Unit {0}) → Bool
succeeds (ok done) = true
succeeds (err error) = false

-- `member_size` is the size of SuperPeerMember, which the compiler chooses.
module _ (platform : Platform) (member_size : ℕ) where
  -- membership_register
  unfoldable pub register :
      Bool → ℕ → ℕ → SuperPeer → Node → NodeId → ℕ → Result Registration × SuperPeer
  unfolding refresh is_stale
  register allocated wall now table node home incarnation =
      if not (succeeds (validate platform node))
      then (err einval, table)
      else elim (find_member table.members node.id) [
        | some m ↦ if is_stale m incarnation then (err estale, table) else (
          ok updated,
          with_member table node.id (refresh table.local_node wall now node home incarnation m),
        )
        | none ↦ elim (grow member_size allocated table) [
          | err error ↦ (err error, table)
          | ok larger ↦ (
            ok added,
            add_member larger (
                refresh table.local_node wall now node home incarnation (set_member wall now node)),
          )
        ]
      ]

  -- superpeer_register_node
  unfoldable pub register_node : Bool → ℕ → ℕ → SuperPeer → Node → Result Registration × SuperPeer
  register_node allocated wall now table node =
      register allocated wall now table node table.local_node.id 0

  -- What membership_merge does with a record of another node that the table does not hold.
  unfoldable pub merge_new : Bool → ℕ → SuperPeer → Member → Result (Unit {0}) × SuperPeer
  merge_new allocated now table incoming = elim (grow member_size allocated table) [
    | err error ↦ (err error, table)
    | ok larger ↦ (
      ok tt,
      add_member larger (record incoming {
        observed_ms = now;
        local_registration = incoming.node.role == role_superpeer;
      }),
    )
  ]

  -- membership_merge
  unfoldable pub merge : Bool → ℕ → SuperPeer → Member → Result (Unit {0}) × SuperPeer
  unfolding merge_new merge_known
  merge allocated now table incoming =
      if not (succeeds (validate platform incoming.node)) || ltb removed incoming.state
      then (err einval, table)
      else if same_id incoming.node.id table.local_node.id
      then (ok tt, table)
      else if incoming.node.role == role_peer && not (same_id incoming.home incoming.reporter)
      then (err eacces, table)
      else elim (find_member table.members incoming.node.id) [
        | none ↦ merge_new allocated now table incoming
        | some old ↦ (
          ok tt,
          with_member table incoming.node.id (merge_known table.local_node.id old incoming),
        )
      ]

  -- membership_heartbeat
  unfoldable pub heartbeat : ℕ → ℕ → SuperPeer → Member → Result (Unit {0}) × SuperPeer
  unfolding is_late beat
  heartbeat wall now table incoming =
      if not (succeeds (validate platform incoming.node))
        || (not (incoming.state == alive) || incoming.incarnation == 0)
      then (err einval, table)
      else elim (find_member table.members incoming.node.id) [
        | none ↦ (err enoent, table)
        | some m ↦ if is_late m incoming then (err estale, table) else (
          ok tt,
          with_member table incoming.node.id (beat table.local_node.id wall now incoming m),
        )
      ]
