-- ===== src/Membership/Later.antt =====
-- membership.c: each update of a member gives a later record of it.
use trabalho_distribuidos.Prelude.{
  ℕ, ◌+◌, ◌<◌, ◌≤◌, ◌≡◌, ◌≢◌, inl, inr, refl, Bool, true, false, not, ◌&&◌, ◌||◌, arith, Bool-cases,
  if◌then◌else◌, ap, ◌∙◌, sym, leb, ◌==◌,
}
use trabalho_distribuidos.Node.{NodeId, Node}
use trabalho_distribuidos.Chord.{same_id}
use trabalho_distribuidos.Membership.{alive, suspect, failed, transition, Member, removed}
use trabalho_distribuidos.Membership.Tick.{
  probed, tick_suspect, tick_failed, tick_removed, tick_member,
}
use trabalho_distribuidos.Membership.Updates.{
  refresh, is_stale, is_newer, may_replace, merge_known, is_late, beat,
}
use trabalho_distribuidos.Membership.Change.{IsLater, IsLater-refl, IsLater-trans}

transition-node :
    (local : NodeId) (m : Member) (state : ℕ) → (transition local m state).node ≡ m.node
unfolding transition
transition-node local m state = ground arith

transition-incarnation :
    (local : NodeId) (m : Member) (state : ℕ)
    → (transition local m state).incarnation ≡ m.incarnation
unfolding transition
transition-incarnation local m state = ground arith

-- A transition of a member that is not removed.
pub transition-IsLater :
    (local : NodeId) (m : Member) (state : ℕ)
    → m.state ≢ removed
    → IsLater m (transition local m state)
transition-IsLater local m state h = record {
  node = ap (λ (n : Node). n.id) (transition-node local m state);
  incarnation = omega (arith, transition-incarnation local m state);
  tombstone = λ e. absurd (h e);
}

pub refresh-node :
    (local : Node) (wall now : ℕ) (node : Node) (home : NodeId) (incarnation : ℕ) (m : Member)
    → (refresh local wall now node home incarnation m).node ≡ node
unfolding refresh
refresh-node local wall now node home incarnation m =
    transition-node local.id
      (record m {
        node = node;
        home = home;
        incarnation = incarnation;
        sequence = if incarnation == m.incarnation then m.sequence else 0;
      })
      alive

pub refresh-IsLater :
    (local : Node) (wall now : ℕ) (node : Node) (home : NodeId) (incarnation : ℕ) (m : Member)
    → m.node.id ≡ node.id
    → is_stale m incarnation ≡ false
    → IsLater m (refresh local wall now node home incarnation m)
unfolding refresh is_stale
refresh-IsLater local wall now node home incarnation m e fresh = record {
  node = ap (λ (n : Node). n.id) (transition-node local.id renewed alive) ∙ sym e;
  incarnation = ground (arith, transition-incarnation local.id renewed alive);
  tombstone = λ gone. inr (ground (arith, transition-incarnation local.id renewed alive));
}
  where
    renewed : Member
    renewed = record m {
      node = node;
      home = home;
      incarnation = incarnation;
      sequence = if incarnation == m.incarnation then m.sequence else 0;
    }

-- The record that replaces another one is not of an earlier incarnation, and of a later one than a tombstone.
pub may_replace-incarnation :
    (local : NodeId) (old incoming : Member)
    → may_replace local old incoming ≡ true
    → (old.incarnation ≤ incoming.incarnation)
      × (old.state ≡ removed → old.incarnation < incoming.incarnation)
unfolding may_replace is_newer
may_replace-incarnation local old incoming h = (ground arith, λ e. ground arith)

pub merge_known-IsLater :
    (local : NodeId) (old incoming : Member)
    → old.node.id ≡ incoming.node.id
    → IsLater old (merge_known local old incoming)
unfolding merge_known
merge_known-IsLater local old incoming e = elim (Bool-cases (may_replace local old incoming)) [
  | inl newer ↦
      let (order, gone) = may_replace-incarnation local old incoming newer in
      rw newer (record { node = sym e; incarnation = order; tombstone = λ r. inr (gone r) })
  | inr kept ↦ rw kept (IsLater-refl old)
]

pub beat-IsLater :
    (local : NodeId) (wall now : ℕ) (incoming m : Member)
    → is_late m incoming ≡ false
    → IsLater m (beat local wall now incoming m)
unfolding beat is_late
beat-IsLater local wall now incoming m fresh = record {
  node = ap (λ (n : Node). n.id) (transition-node local base alive);
  incarnation = ground (arith, transition-incarnation local base alive);
  tombstone = λ gone. inr (ground (arith, transition-incarnation local base alive));
}
  where
    base : Member
    base = record m { incarnation = incoming.incarnation; sequence = incoming.sequence }

pub tick_suspect-IsLater :
    (local : NodeId) (now suspect_ms : ℕ) (m : Member)
    → IsLater m (tick_suspect local now suspect_ms m)
unfolding tick_suspect
tick_suspect-IsLater local now suspect_ms m =
    elim (Bool-cases (m.state == alive && leb (m.observed_ms + suspect_ms) now)) [
      | inl fires ↦ rw fires (transition-IsLater local m suspect (λ e. ground arith))
      | inr waits ↦ rw waits (IsLater-refl m)
    ]

pub tick_failed-IsLater :
    (local : NodeId) (now failed_ms : ℕ) (m : Member)
    → IsLater m (tick_failed local now failed_ms m)
unfolding tick_failed
tick_failed-IsLater local now failed_ms m =
    elim (Bool-cases
      ((m.state == suspect && leb (m.observed_ms + failed_ms) now) && leb 2 m.failed_probes)) [
        | inl fires ↦ rw fires (transition-IsLater local m failed (λ e. ground arith))
        | inr waits ↦ rw waits (IsLater-refl m)
      ]

pub tick_removed-IsLater :
    (local : NodeId) (now removed_ms : ℕ) (m : Member)
    → IsLater m (tick_removed local now removed_ms m)
unfolding tick_removed
tick_removed-IsLater local now removed_ms m =
    elim (Bool-cases (m.state == failed && leb (m.observed_ms + removed_ms) now)) [
      | inl fires ↦ rw fires (transition-IsLater local m removed (λ e. ground arith))
      | inr waits ↦ rw waits (IsLater-refl m)
    ]

pub tick_member-IsLater :
    (local : NodeId) (now suspect_ms failed_ms removed_ms : ℕ) (m : Member)
    → IsLater m (tick_member local now suspect_ms failed_ms removed_ms m)
unfolding tick_member
tick_member-IsLater local now suspect_ms failed_ms removed_ms m =
    elim (Bool-cases (same_id m.node.id local || not m.local_registration)) [
      | inl skipped ↦ rw skipped (IsLater-refl m)
      | inr watched ↦ rw watched (
          IsLater-trans m b (tick_removed local now removed_ms b)
            (IsLater-trans m a b (tick_suspect-IsLater local now suspect_ms m)
              (tick_failed-IsLater local now failed_ms a))
            (tick_removed-IsLater local now removed_ms b))
    ]
  where
    a : Member
    a = tick_suspect local now suspect_ms m

    b : Member
    b = tick_failed local now failed_ms a

pub probed-IsLater : (now : ℕ) (success : Bool) (m : Member) → IsLater m (probed now success m)
unfolding probed
probed-IsLater now success m = record {
  node = refl;
  incarnation = omega arith;
  tombstone = λ e. inl e;
}
