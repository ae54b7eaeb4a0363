-- ===== src/Membership/Reach.antt =====
-- membership.c and superpeer.h: the tables that the calls reach, and what lasts along the way.
use trabalho_distribuidos.Prelude.{ℕ, ◌≡◌, refl, Bool, false, some, [], arith, ◌∙◌, ok}
use trabalho_distribuidos.Node.{NodeId, Node, Platform}
use trabalho_distribuidos.Chord.{same_id}
use trabalho_distribuidos.Membership.{
  Member, SuperPeer, find_member, set_member, create, unregister_node,
}
use trabalho_distribuidos.Membership.Tick.{probe, tick, renew_local}
use trabalho_distribuidos.Membership.Updates.{register, merge, heartbeat}
use trabalho_distribuidos.Membership.Calls.{
  register-Change, merge-Change, heartbeat-Change, probe-Change, tick-Change,
  unregister_node-Change, renew_local-Change,
}
use trabalho_distribuidos.Membership.Change.{
  Inv, IsLater, IsLater-refl, IsLater-trans, Change, Change-Inv, Change-IsLater, Change-local,
}

module _ (platform : Platform) (member_size : ℕ) where
  -- A call that changes the table. superpeer_register_node is a call of membership_register.
  pub data Step (t : SuperPeer) : SuperPeer → Type 0 where
    registers :
        {after : SuperPeer} (allocated : Bool) (wall now : ℕ) (node : Node) (home : NodeId)
        (incarnation : ℕ)
        → after ≡ (register platform member_size allocated wall now t node home incarnation).1
        → Step t after
    merges :
        {after : SuperPeer} (allocated : Bool) (now : ℕ) (incoming : Member)
        → after ≡ (merge platform member_size allocated now t incoming).1
        → Step t after
    beats :
        {after : SuperPeer} (wall now : ℕ) (incoming : Member)
        → after ≡ (heartbeat platform member_size wall now t incoming).1
        → Step t after
    probes :
        {after : SuperPeer} (id : NodeId) (incarnation sequence now : ℕ) (success : Bool)
        → after ≡ probe t id incarnation sequence now success
        → Step t after
    ticks :
        {after : SuperPeer} (now suspect_ms failed_ms removed_ms : ℕ)
        → tick t now suspect_ms failed_ms removed_ms ≡ ok after
        → Step t after
    unregisters :
        {after : SuperPeer} (id : NodeId) → after ≡ (unregister_node t id).1 → Step t after
    renews :
        {after : SuperPeer} (node : Node) (incarnation sequence : ℕ)
        → renew_local t node incarnation sequence ≡ ok after
        → Step t after

  -- The tables after any number of calls.
  pub data Steps (t : SuperPeer) : SuperPeer → Type 0 where
    start : {after : SuperPeer} → after ≡ t → Steps t after
    next : {mid after : SuperPeer} → Steps t mid → Step mid after → Steps t after

  Step-Change : (t after : SuperPeer) → Step t after → Change t after
  Step-Change t after (registers allocated wall now node home incarnation e) =
      rw e (register-Change platform member_size allocated wall now t node home incarnation)
  Step-Change t after (merges allocated now incoming e) =
      rw e (merge-Change platform member_size allocated now t incoming)
  Step-Change t after (beats wall now incoming e) =
      rw e (heartbeat-Change platform member_size wall now t incoming)
  Step-Change t after (probes id incarnation sequence now success e) =
      rw e (probe-Change t id incarnation sequence now success)
  Step-Change t after (ticks now suspect_ms failed_ms removed_ms h) =
      tick-Change t after now suspect_ms failed_ms removed_ms h
  Step-Change t after (unregisters id e) = rw e (unregister_node-Change t id)
  Step-Change t after (renews node incarnation sequence h) =
      renew_local-Change t after node incarnation sequence h

  Steps-Inv : (t after : SuperPeer) → Steps t after → Inv t → Inv after
  Steps-Inv t after (start e) v = rw e v
  Steps-Inv t after (next {mid} steps step) v =
      Change-Inv mid after (Step-Change mid after step) (Steps-Inv t mid steps v)

  Steps-local : (t after : SuperPeer) → Steps t after → after.local_node.id ≡ t.local_node.id
  Steps-local t after (start e) = rw e refl
  Steps-local t after (next {mid} steps step) =
      Change-local mid after (Step-Change mid after step) ∙ Steps-local t mid steps

  create-Inv : (wall now capacity : ℕ) (node : Node) → Inv (create wall now capacity node)
  unfolding create set_member
  create-Inv wall now capacity node = record {
    unique = (tt, tt);
    first = ([], refl);
    limit = omega arith;
    room = ground arith;
  }

  -- The table of a superpeer, after superpeer_create and any calls of membership_register,
  -- membership_merge, membership_heartbeat, membership_probe, membership_tick, membership_local and
  -- superpeer_unregister_node, in any order and with any outcome: no two members have one identifier, the
  -- first member is the local node, and there are at most 65536 members and never more than the capacity.
  pub create-Steps-Inv :
      (wall now capacity : ℕ) (node : Node) (after : SuperPeer)
      → Steps (create wall now capacity node) after
      → Inv after
  create-Steps-Inv wall now capacity node after steps =
      Steps-Inv (create wall now capacity node) after steps (create-Inv wall now capacity node)

  -- From a table that keeps the invariant, along any calls: a member other than the local node
  -- stays in the table under its identifier, its incarnation never goes back, and once it is
  -- REMOVED it stays REMOVED unless it comes back with a higher incarnation.
  pub Steps-tombstone :
      (t after : SuperPeer) (id : NodeId) (m : Member)
      → Inv t
      → Steps t after
      → find_member t.members id ≡ some m
      → same_id t.local_node.id id ≡ false
      → (later : Member) × (find_member after.members id ≡ some later) × IsLater m later
  Steps-tombstone t after id m v (start e) found other = (m, rw e found, IsLater-refl m)
  Steps-tombstone t after id m v (next {mid} steps step) found other =
      let (p, at', ahead) = Steps-tombstone t mid id m v steps found other in
      let (q, there, further) =
        Change-IsLater mid after id p (Step-Change mid after step) (Steps-Inv t mid steps v) at'
          (rw (Steps-local t mid steps) other) in
      (q, there, IsLater-trans m p q ahead further)
