-- ===== src/Membership/Calls.antt =====
-- membership.c and superpeer.h: each call is one of the changes of the table.
use trabalho_distribuidos.Prelude.{
  ℕ, ◌+◌, ◌*◌, ◌/◌, ◌%◌, ◌^◌, ◌<◌, ◌≤◌, ◌≡◌, inl, inr, refl, Bool, not, ◌&&◌, ◌||◌, none, arith,
  length, Bool-cases, Option-cases, if◌then◌else◌, ap, ◌∙◌, sym, ok, ltb, leb, ◌==◌, Result-cases,
  ok-injective,
}
use trabalho_distribuidos.Node.{NodeId, Node, Platform, validate, role_superpeer, role_peer}
use trabalho_distribuidos.Node.Order.{equal_iff}
use trabalho_distribuidos.Chord.{same_id}
use trabalho_distribuidos.Membership.{
  alive, suspect, default_capacity, size_max, set_member, grow, unregister_node, Member, SuperPeer,
  find_member, add_member, removed, member_limit,
}
use trabalho_distribuidos.Membership.Tick.{probed, probe, tick_member, tick, renew_local}
use trabalho_distribuidos.Membership.Updates.{
  refresh, is_stale, merge_known, is_late, beat, succeeds, register, merge_new, merge, heartbeat,
}
use trabalho_distribuidos.Membership.Later.{
  refresh-IsLater, merge_known-IsLater, beat-IsLater, tick_member-IsLater, refresh-node,
  probed-IsLater,
}
use trabalho_distribuidos.Membership.Table.{find_member-id}
use trabalho_distribuidos.Membership.Change.{Change, same, put, add, each, own}

-- A table with room for one more member.
record Grown (t larger : SuperPeer) : Type 0 where
  cap : ℕ
  larger_is : larger ≡ record t { capacity = cap }
  below : length t.members < member_limit
  more : length t.members ≤ t.capacity → length t.members < cap

grow-Grown :
    (member_size : ℕ) (allocated : Bool) (t larger : SuperPeer)
    → grow member_size allocated t ≡ ok larger
    → Grown t larger
unfolding grow
grow-Grown member_size allocated t larger h =
    elim (Bool-cases (leb member_limit (length t.members))) [
      | inl full ↦ cc (rw full at h)
      | inr below ↦ elim (Bool-cases (ltb (length t.members) t.capacity)) [
        | inl room ↦ record {
          cap = t.capacity;
          larger_is = sym (ok-injective (rw (below, room) at h));
          below = ground arith;
          more = λ e. ground arith;
        }
        | inr tight ↦
            elim (Bool-cases
              (ltb (size_max / 2) t.capacity || ltb (size_max / member_size) doubled)) [
                | inl big ↦ cc (rw (below, tight, big) at h)
                | inr fits ↦ elim (Bool-cases allocated) [
                  | inr failed' ↦ cc (rw (below, tight, fits, failed') at h)
                  | inl got ↦ record {
                    cap = doubled;
                    larger_is = sym (ok-injective (rw (below, tight, fits, got) at h));
                    below = ground arith;
                    more = λ e. ground arith;
                  }
                ]
              ]
      ]
    ]
  where
    doubled : ℕ
    doubled = if t.capacity == 0 then default_capacity else t.capacity * 2

add-Change :
    (t larger : SuperPeer) (new : Member)
    → Grown t larger
    → find_member t.members new.node.id ≡ none
    → Change t (add_member larger new)
add-Change t larger new g missing =
    add new g.cap missing g.below g.more (ap (λ (l : SuperPeer). add_member l new) g.larger_is)

module _ (platform : Platform) (member_size : ℕ) where
  pub register-Change :
      (allocated : Bool) (wall now : ℕ) (t : SuperPeer) (node : Node) (home : NodeId)
      (incarnation : ℕ)
      → Change t (register platform member_size allocated wall now t node home incarnation).1
  unfolding register
  register-Change allocated wall now t node home incarnation =
      elim (Bool-cases (not (succeeds (validate platform node)))) [
        | inl bad ↦ rw bad (same refl)
        | inr good ↦ elim (Option-cases (find_member t.members node.id)) [
          | inl missing ↦ elim (Result-cases (grow member_size allocated t)) [
            | inl (error, e) ↦ rw (good, missing, e) (same refl)
            | inr (larger, e) ↦
                rw (good, missing, e)
                  (add-Change t larger
                    (refresh t.local_node wall now node home incarnation (set_member wall now node))
                    (grow-Grown member_size allocated t larger e)
                    (ap (λ (n : Node). find_member t.members n.id)
                        (refresh-node t.local_node wall now node home incarnation
                          (set_member wall now node))
                      ∙ missing))
          ]
          | inr (m, found) ↦ elim (Bool-cases (is_stale m incarnation)) [
            | inl old ↦ rw (good, found, old) (same refl)
            | inr new ↦
                rw (good, found, new)
                  (put node.id m (refresh t.local_node wall now node home incarnation m) found
                    (refresh-IsLater t.local_node wall now node home incarnation m
                      (find_member-id t.members node.id m found) new)
                    refl)
          ]
        ]
      ]

  pub merge_new-Change :
      (allocated : Bool) (now : ℕ) (t : SuperPeer) (incoming : Member)
      → find_member t.members incoming.node.id ≡ none
      → Change t (merge_new platform member_size allocated now t incoming).1
  unfolding merge_new
  merge_new-Change allocated now t incoming missing =
      elim (Result-cases (grow member_size allocated t)) [
        | inl (error, e) ↦ rw (e, merge_new) (same refl)
        | inr (larger, e) ↦
            rw (e, merge_new)
              (add-Change t larger
                (record incoming {
                  observed_ms = now;
                  local_registration = incoming.node.role == role_superpeer;
                })
                (grow-Grown member_size allocated t larger e) missing)
      ]

  pub merge-Change :
      (allocated : Bool) (now : ℕ) (t : SuperPeer) (incoming : Member)
      → Change t (merge platform member_size allocated now t incoming).1
  unfolding merge
  merge-Change allocated now t incoming =
      elim (Bool-cases
        (not (succeeds (validate platform incoming.node)) || ltb removed incoming.state)) [
          | inl bad ↦ rw bad (same refl)
          | inr good ↦ elim (Bool-cases (same_id incoming.node.id t.local_node.id)) [
            | inl own' ↦ rw (good, own') (same refl)
            | inr other ↦
                elim (Bool-cases (
                  incoming.node.role == role_peer
                  && not (same_id incoming.home incoming.reporter))) [
                    | inl foreign ↦ rw (good, other, foreign) (same refl)
                    | inr allowed ↦ elim (Option-cases (find_member t.members incoming.node.id)) [
                      | inl missing ↦
                          rw (good, other, allowed, missing)
                            (merge_new-Change allocated now t incoming missing)
                      | inr (m, found) ↦
                          rw (good, other, allowed, found)
                            (put incoming.node.id m (merge_known t.local_node.id m incoming) found
                              (merge_known-IsLater t.local_node.id m incoming
                                (find_member-id t.members incoming.node.id m found))
                              refl)
                    ]
                  ]
          ]
        ]

  pub heartbeat-Change :
      (wall now : ℕ) (t : SuperPeer) (incoming : Member)
      → Change t (heartbeat platform member_size wall now t incoming).1
  unfolding heartbeat
  heartbeat-Change wall now t incoming =
      elim (Bool-cases (
        not (succeeds (validate platform incoming.node))
        || (not (incoming.state == alive) || incoming.incarnation == 0))) [
          | inl bad ↦ rw bad (same refl)
          | inr good ↦ elim (Option-cases (find_member t.members incoming.node.id)) [
            | inl missing ↦ rw (good, missing) (same refl)
            | inr (m, found) ↦ elim (Bool-cases (is_late m incoming)) [
              | inl late ↦ rw (good, found, late) (same refl)
              | inr fresh ↦
                  rw (good, found, fresh)
                    (put incoming.node.id m (beat t.local_node.id wall now incoming m) found
                      (beat-IsLater t.local_node.id wall now incoming m fresh) refl)
            ]
          ]
        ]

pub probe-Change :
    (t : SuperPeer) (id : NodeId) (incarnation sequence now : ℕ) (success : Bool)
    → Change t (probe t id incarnation sequence now success)
unfolding probe
probe-Change t id incarnation sequence now success =
    elim (Option-cases (find_member t.members id)) [
      | inl missing ↦ rw (missing, probe) (same refl)
      | inr (m, found) ↦
          elim (Bool-cases (
            (m.incarnation == incarnation && m.sequence == sequence)
            && (m.state == suspect && leb (m.probe_ms + 1000) now))) [
              | inr off ↦ rw (found, probe, off) (same refl)
              | inl on ↦
                  rw (found, probe, on)
                    (put id m (probed now success m) found (probed-IsLater now success m) refl)
            ]
    ]

pub tick-Change :
    (t after : SuperPeer) (now suspect_ms failed_ms removed_ms : ℕ)
    → tick t now suspect_ms failed_ms removed_ms ≡ ok after
    → Change t after
unfolding tick
tick-Change t after now suspect_ms failed_ms removed_ms h =
    elim (Bool-cases (suspect_ms == 0 || (leb failed_ms suspect_ms || leb removed_ms failed_ms))) [
      | inl bad ↦ cc (rw bad at h)
      | inr good ↦
          each (tick_member t.local_node.id now suspect_ms failed_ms removed_ms)
            (tick_member-IsLater t.local_node.id now suspect_ms failed_ms removed_ms)
            (sym (ok-injective (rw good at h)))
    ]

pub unregister_node-Change : (t : SuperPeer) (id : NodeId) → Change t (unregister_node t id).1
unfolding unregister_node
unregister_node-Change t id = elim (Bool-cases (same_id t.local_node.id id)) [
  | inl self ↦ rw self (same refl)
  | inr other ↦ elim (Option-cases (find_member t.members id)) [
    | inl missing ↦ rw (other, missing) (same refl)
    | inr (m, found) ↦
        rw (other, found)
          (put id m
            (record m {
              state = removed;
              reporter = t.local_node.id;
              version = (m.version + 1) % 2 ^ 64;
            })
            found (record { node = refl; incarnation = omega arith; tombstone = λ e. inl refl })
            refl)
  ]
]

pub renew_local-Change :
    (t after : SuperPeer) (node : Node) (incarnation sequence : ℕ)
    → renew_local t node incarnation sequence ≡ ok after
    → Change t after
unfolding renew_local
renew_local-Change t after node incarnation sequence h =
    elim (Bool-cases (same_id t.local_node.id node.id)) [
      | inr other ↦ cc (rw other at h)
      | inl self ↦
          own node incarnation sequence (sym ((equal_iff t.local_node.id node.id).0 self))
            (sym (ok-injective (rw self at h)))
    ]
