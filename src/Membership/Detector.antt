-- ===== src/Membership/Detector.antt =====
-- membership_tick: when the failure detector suspects, fails and removes a member.
use trabalho_distribuidos.Prelude.{
  ℕ, ◌+◌, ◌<◌, ◌≤◌, ◌≡◌, inl, inr, refl, false, not, ◌&&◌, ◌||◌, arith, Bool-cases, if◌then◌else◌,
  ◌∙◌, sym, ltb, leb, ◌==◌, ok, map, ok-injective, some,
}
use trabalho_distribuidos.Node.{NodeId}
use trabalho_distribuidos.Chord.{same_id}
use trabalho_distribuidos.Membership.{
  Member, SuperPeer, alive, suspect, failed, removed, transition, find_member,
}
use trabalho_distribuidos.Membership.Tick.{
  tick_suspect, tick_failed, tick_removed, tick_member, tick,
}
use trabalho_distribuidos.Membership.Table.{find_member-map}
use trabalho_distribuidos.Membership.Later.{tick_member-IsLater}

-- What a transition leaves alone.
record Keeps (m later : Member) : Type 0 where
  observed : later.observed_ms ≡ m.observed_ms
  probes : later.failed_probes ≡ m.failed_probes
  incarnation : later.incarnation ≡ m.incarnation
  sequence : later.sequence ≡ m.sequence

transition-Keeps : (local : NodeId) (m : Member) (state : ℕ) → Keeps m (transition local m state)
unfolding transition
transition-Keeps local m state = elim (Bool-cases (m.state == state)) [
  | inl there ↦
      rw there (record { observed = refl; probes = refl; incarnation = refl; sequence = refl })
  | inr apart ↦
      rw apart (record { observed = refl; probes = refl; incarnation = refl; sequence = refl })
]

transition-state :
    (local : NodeId) (m : Member) (state : ℕ) → (transition local m state).state ≡ state
unfolding transition
transition-state local m state = ground arith

module _ (local : NodeId) (now : ℕ) where
  suspect-Keeps : (ms : ℕ) (m : Member) → Keeps m (tick_suspect local now ms m)
  unfolding tick_suspect
  suspect-Keeps ms m = elim (Bool-cases (m.state == alive && leb (m.observed_ms + ms) now)) [
    | inl fires ↦ rw fires (transition-Keeps local m suspect)
    | inr waits ↦
        rw waits (record { observed = refl; probes = refl; incarnation = refl; sequence = refl })
  ]

  failed-Keeps : (ms : ℕ) (m : Member) → Keeps m (tick_failed local now ms m)
  unfolding tick_failed
  failed-Keeps ms m =
      elim (Bool-cases
        ((m.state == suspect && leb (m.observed_ms + ms) now) && leb 2 m.failed_probes)) [
          | inl fires ↦ rw fires (transition-Keeps local m failed)
          | inr waits ↦
              rw waits
                (record { observed = refl; probes = refl; incarnation = refl; sequence = refl })
        ]

  removed-Keeps : (ms : ℕ) (m : Member) → Keeps m (tick_removed local now ms m)
  unfolding tick_removed
  removed-Keeps ms m = elim (Bool-cases (m.state == failed && leb (m.observed_ms + ms) now)) [
    | inl fires ↦ rw fires (transition-Keeps local m removed)
    | inr waits ↦
        rw waits (record { observed = refl; probes = refl; incarnation = refl; sequence = refl })
  ]

  suspect-state :
      (ms : ℕ) (m : Member)
      → (tick_suspect local now ms m).state
        ≡ (if m.state == alive && leb (m.observed_ms + ms) now then suspect else m.state)
  unfolding tick_suspect
  suspect-state ms m = ground (arith, transition-state local m suspect)

  failed-state :
      (ms : ℕ) (m : Member)
      → (tick_failed local now ms m).state ≡ (
          if (m.state == suspect && leb (m.observed_ms + ms) now) && leb 2 m.failed_probes
          then failed
          else m.state)
  unfolding tick_failed
  failed-state ms m = ground (arith, transition-state local m failed)

  removed-state :
      (ms : ℕ) (m : Member)
      → (tick_removed local now ms m).state
        ≡ (if m.state == failed && leb (m.observed_ms + ms) now then removed else m.state)
  unfolding tick_removed
  removed-state ms m = ground (arith, transition-state local m removed)

-- The state of a watched member after it has been silent for `silence` milliseconds. A suspected
-- member becomes failed only after two probes have failed.
abbrev pub silent_state : ℕ → ℕ → ℕ → ℕ → ℕ → ℕ → ℕ
silent_state suspect_ms failed_ms removed_ms state probes silence =
    if ltb silence suspect_ms
    then state
    else if ltb silence failed_ms
    then (if state == alive then suspect else state)
    else if ltb state failed && ltb probes 2
    then suspect
    else if ltb silence removed_ms
    then (if ltb state failed then failed else state)
    else removed

tick_member-state :
    (local : NodeId) (now suspect_ms failed_ms removed_ms silence : ℕ) (m : Member)
    → suspect_ms < failed_ms
    → failed_ms < removed_ms
    → m.observed_ms + silence ≡ now
    → m.state ≤ removed
    → (same_id m.node.id local || not m.local_registration) ≡ false
    → (tick_member local now suspect_ms failed_ms removed_ms m).state
      ≡ silent_state suspect_ms failed_ms removed_ms m.state m.failed_probes silence
unfolding tick_member
tick_member-state local now suspect_ms failed_ms removed_ms silence m sf fr since bound watched =
    let a = tick_suspect local now suspect_ms m in
    let b = tick_failed local now failed_ms a in
    let ka = suspect-Keeps local now suspect_ms m in
    let kb = failed-Keeps local now failed_ms a in
    rw watched (
      removed-state local now removed_ms b
      ∙ ground (
        arith,
        ka.observed,
        ka.probes,
        kb.observed,
        suspect-state local now suspect_ms m,
        failed-state local now failed_ms a,
      ))

-- The tick applied to the member that stands in the table under an identifier.
tick-member :
    (t after : SuperPeer) (now suspect_ms failed_ms removed_ms : ℕ)
    → tick t now suspect_ms failed_ms removed_ms ≡ ok after
    → (suspect_ms < failed_ms)
      × (failed_ms < removed_ms)
      × (after ≡ record t {
        members = map (tick_member t.local_node.id now suspect_ms failed_ms removed_ms) t.members;
      })
unfolding tick
tick-member t after now suspect_ms failed_ms removed_ms h =
    elim (Bool-cases (suspect_ms == 0 || (leb failed_ms suspect_ms || leb removed_ms failed_ms))) [
      | inl bad ↦ cc (rw bad at h)
      | inr good ↦ (ground arith, ground arith, sym (ok-injective (rw good at h)))
    ]

-- membership_tick, when it accepts its three times: a member that registered here, is not the local
-- node and was last heard of `silence` milliseconds ago is in the state that silent_state gives: it
-- keeps its state below suspect_ms, is suspected from then on, is failed from failed_ms on but never
-- before two probes have failed, and removed from removed_ms on. Any other member keeps its state.
pub tick-state :
    (t after : SuperPeer) (now suspect_ms failed_ms removed_ms silence : ℕ) (id : NodeId)
    (m : Member)
    → tick t now suspect_ms failed_ms removed_ms ≡ ok after
    → find_member t.members id ≡ some m
    → m.observed_ms + silence ≡ now
    → m.state ≤ removed
    → (later : Member) × (find_member after.members id ≡ some later)
      × (later.state ≡ (
          if same_id m.node.id t.local_node.id || not m.local_registration
          then m.state
          else silent_state suspect_ms failed_ms removed_ms m.state m.failed_probes silence))
tick-state t after now suspect_ms failed_ms removed_ms silence id m h found since bound =
    let (sf, fr, e) = tick-member t after now suspect_ms failed_ms removed_ms h in
    let step = tick_member t.local_node.id now suspect_ms failed_ms removed_ms in
    (
      step m,
      rw e (
          find_member-map step t.members id m
            (λ x. (tick_member-IsLater t.local_node.id now suspect_ms failed_ms removed_ms x).node)
            found),
      elim (Bool-cases (same_id m.node.id t.local_node.id || not m.local_registration)) [
        | inl skipped ↦ rw skipped (unfold tick_member in rw skipped refl)
        | inr watched ↦ rw watched (
            tick_member-state t.local_node.id now suspect_ms failed_ms removed_ms silence m sf fr
              since bound watched)
      ],
    )
