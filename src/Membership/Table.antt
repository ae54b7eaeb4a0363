-- ===== src/Membership/Table.antt =====
-- The table of members as a map from identifiers.
use trabalho_distribuidos.Prelude.{
  suc, ◌≡◌, inl, inr, refl, true, false, none, some, List, [], ◌∷◌, ◌++◌, map, arith, length, All,
  All-append, Bool-cases, if◌then◌else◌, ap, ◌∙◌, sym,
}
use trabalho_distribuidos.Node.{NodeId}
use trabalho_distribuidos.Node.Order.{equal_iff}
use trabalho_distribuidos.Chord.{same_id}
use trabalho_distribuidos.Membership.{Member, find_member, put_member}

-- The identifiers, in the order of the table.
abbrev pub ids : List Member → List NodeId
ids [] = []
ids (m ∷ ms) = m.node.id ∷ ids ms

-- No member has the identifier.
abbrev pub Absent : NodeId → List NodeId → Type 0
Absent id = All (λ (other : NodeId). same_id other id ≡ false)

-- One member for each identifier.
abbrev pub Unique : List NodeId → Type 0
Unique [] = Unit {0}
Unique (id ∷ others) = Absent id others × Unique others

pub same_id_comm : (a b : NodeId) → same_id a b ≡ false → same_id b a ≡ false
same_id_comm a b h = elim (Bool-cases (same_id b a)) [
  | inl e ↦ cc ((equal_iff a b).1 (sym ((equal_iff b a).0 e)))
  | inr e ↦ e
]

pub Unique-append :
    (front : List NodeId) (id : NodeId) → Unique front → Absent id front → Unique (front ++ id ∷ [])
Unique-append [] id u h = (tt, tt)
Unique-append (x ∷ front) id u h = (
  All-append (λ (other : NodeId). same_id other x ≡ false) front (id ∷ []) u.0
      (same_id_comm x id h.0, tt),
  Unique-append front id u.1 h.1,
)

pub ids-append : (ms : List Member) (m : Member) → ids (ms ++ m ∷ []) ≡ ids ms ++ m.node.id ∷ []
ids-append [] m = refl
ids-append (x ∷ ms) m = ap (◌∷◌ x.node.id) (ids-append ms m)

pub length-ids : (ms : List Member) → length (ids ms) ≡ length ms
length-ids [] = refl
length-ids (x ∷ ms) = ap suc (length-ids ms)

pub find_member-Absent :
    (ms : List Member) (id : NodeId) → find_member ms id ≡ none → Absent id (ids ms)
unfolding find_member
find_member-Absent [] id h = tt
find_member-Absent (m ∷ ms) id h = elim (Bool-cases (same_id m.node.id id)) [
  | inl hit ↦ cc (h, hit)
  | inr miss ↦ (miss, find_member-Absent ms id (rw miss at h))
]

-- What the search finds has the identifier.
pub find_member-id :
    (ms : List Member) (id : NodeId) (m : Member) → find_member ms id ≡ some m → m.node.id ≡ id
unfolding find_member
find_member-id [] id m h = cc
find_member-id (x ∷ ms) id m h = elim (Bool-cases (same_id x.node.id id)) [
  | inl hit ↦
      let e : x ≡ m = cc (h, hit) in
      ap (λ (y : Member). y.node.id) (sym e) ∙ (equal_iff x.node.id id).0 hit
  | inr miss ↦ find_member-id ms id m (rw miss at h)
]

-- A write under an identifier keeps the list of identifiers.
pub ids-put_member :
    (ms : List Member) (id : NodeId) (new : Member)
    → new.node.id ≡ id
    → ids (put_member ms id new) ≡ ids ms
unfolding put_member
ids-put_member [] id new e = refl
ids-put_member (x ∷ ms) id new e = elim (Bool-cases (same_id x.node.id id)) [
  | inl hit ↦ rw hit (ap (λ (i : NodeId). i ∷ ids ms) (e ∙ sym ((equal_iff x.node.id id).0 hit)))
  | inr miss ↦ rw miss (ap (◌∷◌ x.node.id) (ids-put_member ms id new e))
]

pub ids-map :
    (f : Member → Member) (ms : List Member)
    → ((m : Member) → (f m).node.id ≡ m.node.id)
    → ids (map f ms) ≡ ids ms
ids-map f [] h = refl
ids-map f (x ∷ ms) h = λ i. h x i ∷ ids-map f ms h i

-- The member behind `p` under the identifier q, after a write under `id`.
abbrev pub written : NodeId → NodeId → Member → Member → Member
written id q new p = if same_id id q then new else p

pub find_member-put :
    (ms : List Member) (id q : NodeId) (p new : Member)
    → new.node.id ≡ id
    → find_member ms q ≡ some p
    → find_member (put_member ms id new) q ≡ some (written id q new p)
unfolding find_member put_member
find_member-put [] id q p new e h = cc
find_member-put (x ∷ ms) id q p new e h = elim (Bool-cases (same_id x.node.id id)) [
  | inl hit ↦
      let same : x.node.id ≡ id = (equal_iff x.node.id id).0 hit in
      elim (Bool-cases (same_id id q)) [
        | inl yes' ↦ ground (arith, hit, yes', same)
        | inr no' ↦ ground (arith, hit, no', same)
      ]
  | inr miss ↦ elim (Bool-cases (same_id x.node.id q)) [
    | inl at' ↦
        let same : x.node.id ≡ q = (equal_iff x.node.id q).0 at' in
        let apart : same_id id q ≡ false = same_id_comm q id (rw same at miss) in
        ground (arith, miss, at', apart)
    | inr off ↦ rw (miss, off) (find_member-put ms id q p new e (rw off at h))
  ]
]

pub find_member-append :
    (ms : List Member) (m p : Member) (q : NodeId)
    → find_member ms q ≡ some p
    → find_member (ms ++ m ∷ []) q ≡ some p
unfolding find_member
find_member-append [] m p q h = cc
find_member-append (x ∷ ms) m p q h = elim (Bool-cases (same_id x.node.id q)) [
  | inl hit ↦ rw hit (rw hit at h)
  | inr miss ↦ rw miss (find_member-append ms m p q (rw miss at h))
]

pub find_member-map :
    (f : Member → Member) (ms : List Member) (q : NodeId) (p : Member)
    → ((m : Member) → (f m).node.id ≡ m.node.id)
    → find_member ms q ≡ some p
    → find_member (map f ms) q ≡ some (f p)
unfolding find_member
find_member-map f [] q p e h = cc
find_member-map f (x ∷ ms) q p e h = elim (Bool-cases (same_id x.node.id q)) [
  | inl hit ↦
      let there : same_id (f x).node.id q ≡ true = cc (e x, hit) in
      let k : some x ≡ some p = rw hit at h in
      let same : x ≡ p = (cc (k)) in rw there (ap (λ (y : Member). some (f y)) same)
  | inr miss ↦ rw (e x, miss) (find_member-map f ms q p e (rw miss at h))
]
