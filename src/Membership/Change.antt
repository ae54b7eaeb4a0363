-- ===== src/Membership/Change.antt =====
-- membership.c: what a call can do to the table, and what every such change keeps.
use trabalho_distribuidos.Prelude.{
  ℕ, ◌+◌, ◌<◌, ◌≤◌, ◌≡◌, ◌⊎◌, inl, inr, refl, false, none, some, List, [], ◌∷◌, ◌++◌, map, arith,
  length, Bool-cases, ap, ◌∙◌, sym, subst, length-append,
}
use trabalho_distribuidos.Node.{NodeId, Node}
use trabalho_distribuidos.Node.Order.{equal_iff}
use trabalho_distribuidos.Chord.{same_id}
use trabalho_distribuidos.Membership.{
  Member, SuperPeer, find_member, with_member, add_member, removed, member_limit,
}
use trabalho_distribuidos.Membership.Tick.{renew}
use trabalho_distribuidos.Membership.Table.{
  ids, Unique, Unique-append, ids-append, length-ids, find_member-Absent, find_member-id,
  ids-put_member, ids-map, find_member-put, find_member-append, find_member-map, written,
}

-- The local node is the first member, every identifier stands once, and the table has room.
pub record Inv (table : SuperPeer) : Type 0 where
  pub unique : Unique (ids table.members)
  pub first : (others : List NodeId) × (ids table.members ≡ table.local_node.id ∷ others)
  pub limit : length table.members ≤ member_limit
  pub room : length table.members ≤ table.capacity

-- The node is the same, its incarnation does not go back, and a tombstone stays for one incarnation.
pub record IsLater (m later : Member) : Type 0 where
  pub node : later.node.id ≡ m.node.id
  pub incarnation : m.incarnation ≤ later.incarnation
  pub tombstone : m.state ≡ removed → (later.state ≡ removed) ⊎ (m.incarnation < later.incarnation)

pub IsLater-refl : (m : Member) → IsLater m m
IsLater-refl m = record { node = refl; incarnation = omega arith; tombstone = λ e. inl e }

pub IsLater-trans : (a b c : Member) → IsLater a b → IsLater b c → IsLater a c
IsLater-trans a b c ab bc = record {
  node = bc.node ∙ ab.node;
  incarnation = omega (arith, ab.incarnation, bc.incarnation);
  tombstone = λ e. elim (ab.tombstone e) [
    | inr up ↦ inr (omega (arith, bc.incarnation))
    | inl still ↦ elim (bc.tombstone still) [
      | inl gone ↦ inl gone
      | inr up ↦ inr (omega (arith, ab.incarnation))
    ]
  ];
}

-- The changes of the table.
pub data Change (t : SuperPeer) : SuperPeer → Type 0 where
  same : {after : SuperPeer} → after ≡ t → Change t after
  put :
      {after : SuperPeer} (id : NodeId) (m new : Member)
      → find_member t.members id ≡ some m
      → IsLater m new
      → after ≡ with_member t id new
      → Change t after
  add :
      {after : SuperPeer} (new : Member) (capacity : ℕ)
      → find_member t.members new.node.id ≡ none
      → length t.members < member_limit
      → (length t.members ≤ t.capacity → length t.members < capacity)
      → after ≡ add_member (record t { capacity = capacity }) new
      → Change t after
  each :
      {after : SuperPeer} (f : Member → Member)
      → ((m : Member) → IsLater m (f m))
      → after ≡ record t { members = map f t.members }
      → Change t after
  own :
      {after : SuperPeer} (node : Node) (incarnation sequence : ℕ)
      → node.id ≡ t.local_node.id
      → after ≡ record t { local_node = node; members = renew node incarnation sequence t.members }
      → Change t after

Inv-ids :
    (t after : SuperPeer)
    → Inv t
    → ids after.members ≡ ids t.members
    → after.local_node.id ≡ t.local_node.id
    → after.capacity ≡ t.capacity
    → Inv after
Inv-ids t after v e l c =
    let size : length after.members ≡ length t.members =
      sym (length-ids after.members) ∙ ap length e ∙ length-ids t.members in
    record {
      unique = rw e v.unique;
      first = (v.first.0, rw (e, l) v.first.1);
      limit = omega (arith, v.limit);
      room = omega (arith, v.room);
    }

ids-renew :
    (node : Node) (incarnation sequence : ℕ) (ms : List Member) (others : List NodeId)
    → ids ms ≡ node.id ∷ others
    → ids (renew node incarnation sequence ms) ≡ ids ms
unfolding renew
ids-renew node incarnation sequence [] others h = refl
ids-renew node incarnation sequence (m ∷ ms) others h = cc

Inv-add :
    (t : SuperPeer) (new : Member) (capacity : ℕ)
    → Inv t
    → find_member t.members new.node.id ≡ none
    → length t.members < member_limit
    → length t.members < capacity
    → Inv (add_member (record t { capacity = capacity }) new)
Inv-add t new capacity v none' limit room =
    let e : ids (t.members ++ new ∷ []) ≡ ids t.members ++ new.node.id ∷ [] =
      ids-append t.members new in
    let (others, first) = v.first in
    let more : length (t.members ++ new ∷ []) ≡ length t.members + 1 =
      length-append t.members (new ∷ []) in
    record {
      unique = rw e (
          Unique-append (ids t.members) new.node.id v.unique
            (find_member-Absent t.members new.node.id none'));
      first =
          (others ++ new.node.id ∷ [], e ∙ ap (λ (l : List NodeId). l ++ new.node.id ∷ []) first);
      limit = omega arith;
      room = omega arith;
    }

-- Every change keeps the invariant.
pub Change-Inv : (t after : SuperPeer) → Change t after → Inv t → Inv after
Change-Inv t after (same e) v = rw e v
Change-Inv t after (put id m new found later e) v = rw e (
    Inv-ids t (with_member t id new) v
      (ids-put_member t.members id new (later.node ∙ find_member-id t.members id m found)) refl
      refl)
Change-Inv t after (add new capacity missing limit room e) v =
    rw e (Inv-add t new capacity v missing limit (room v.room))
Change-Inv t after (each f later e) v = rw e (
    Inv-ids t (record t { members = map f t.members }) v (ids-map f t.members (λ m. (later m).node))
      refl refl)
Change-Inv t after (own node incarnation sequence e h) v = rw h (
    Inv-ids t (record t { local_node = node; members = renew node incarnation sequence t.members })
      v (ids-renew node incarnation sequence t.members v.first.0 (rw e v.first.1)) e refl)

find_member-renew :
    (node : Node) (incarnation sequence : ℕ) (ms : List Member) (q : NodeId) (others : List NodeId)
    → ids ms ≡ node.id ∷ others
    → same_id node.id q ≡ false
    → find_member (renew node incarnation sequence ms) q ≡ find_member ms q
unfolding renew find_member
find_member-renew node incarnation sequence [] q others h off = refl
find_member-renew node incarnation sequence (m ∷ ms) q others h off =
    let same : m.node.id ≡ node.id = cc in
    let off' : same_id m.node.id q ≡ false = cc (same, off) in rw (off, off') refl

written-IsLater :
    (id q : NodeId) (m new p : Member) (ms : List Member)
    → find_member ms id ≡ some m
    → find_member ms q ≡ some p
    → IsLater m new
    → IsLater p (written id q new p)
written-IsLater id q m new p ms fm fp later = elim (Bool-cases (same_id id q)) [
  | inr off ↦ rw off (IsLater-refl p)
  | inl at' ↦
      let e : id ≡ q = (equal_iff id q).0 at' in
      let k : some m ≡ some p = sym fm ∙ ap (find_member ms) e ∙ fp in
      let same' : m ≡ p = (cc (k)) in rw at' (subst (λ (x : Member). IsLater x new) same' later)
]

-- What a change does to a member other than the local node.
pub Change-IsLater :
    (t after : SuperPeer) (q : NodeId) (p : Member)
    → Change t after
    → Inv t
    → find_member t.members q ≡ some p
    → same_id t.local_node.id q ≡ false
    → (p' : Member) × (find_member after.members q ≡ some p') × IsLater p p'
Change-IsLater t after q p (same e) v f off = (p, rw e f, IsLater-refl p)
Change-IsLater t after q p (put id m new found later e) v f off = (
  written id q new p,
  rw e (find_member-put t.members id q p new (later.node ∙ find_member-id t.members id m found) f),
  written-IsLater id q m new p t.members found f later,
)
Change-IsLater t after q p (add new capacity missing limit room e) v f off =
    (p, rw e (find_member-append t.members new p q f), IsLater-refl p)
Change-IsLater t after q p (each g later e) v f off =
    (g p, rw e (find_member-map g t.members q p (λ m. (later m).node) f), later p)
Change-IsLater t after q p (own node incarnation sequence e h) v f off = (
  p,
  rw h (
      find_member-renew node incarnation sequence t.members q v.first.0 (rw e v.first.1) (rw e off)
      ∙ f),
  IsLater-refl p,
)

-- No change gives the local node another identifier.
pub Change-local : (t after : SuperPeer) → Change t after → after.local_node.id ≡ t.local_node.id
Change-local t after (same e) = rw e refl
Change-local t after (put id m new found later e) = rw e refl
Change-local t after (add new capacity missing limit room e) = rw e refl
Change-local t after (each g later e) = rw e refl
Change-local t after (own node incarnation sequence e h) = rw h e
