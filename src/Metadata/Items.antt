-- ===== src/Metadata/Items.antt =====
-- The availability items of an entry as a set of pairs of a chunk and a peer.
use trabalho_distribuidos.Prelude.{
  ℕ, suc, ◌+◌, ◌≤◌, ◌≡◌, inl, inr, refl, true, false, not, ◌&&◌, ◌||◌, List, [], ◌∷◌, ◌++◌, arith,
  length, Bool-cases, ap, ◌∙◌, sym, bytes_eq, bytes_eq_iff, bytes_eq_refl, ◌==◌, ltb, leb,
}
use trabalho_distribuidos.Node.{NodeId}
use trabalho_distribuidos.Metadata.{Availability, MetadataChunk}
use trabalho_distribuidos.Metadata.Peers.{is_item, has_item, unlink, drop_peer}
use trabalho_distribuidos.Metadata.Announce.{own_items, carry_items}

-- No pair stands twice.
abbrev pub Distinct : List Availability → Type 0
Distinct [] = Unit {0}
Distinct (item ∷ items) = (has_item items item.index item.peer ≡ false) × Distinct items

eq_comm : (a b : List ℕ) → bytes_eq a b ≡ bytes_eq b a
eq_comm a b = elim (Bool-cases (bytes_eq a b)) [
  | inl e ↦ e ∙ sym ((bytes_eq_iff b a).1 (sym ((bytes_eq_iff a b).0 e)))
  | inr e ↦ elim (Bool-cases (bytes_eq b a)) [
    | inl f ↦ cc ((bytes_eq_iff a b).1 (sym ((bytes_eq_iff b a).0 f)))
    | inr f ↦ e ∙ sym f
  ]
]

-- Two tests against the pair of one item.
same_pair :
    (x : Availability) (index i : ℕ) (peer p : NodeId)
    → is_item index peer x ≡ true
    → is_item i p x ≡ (index == i && bytes_eq peer p)
same_pair x index i peer p h =
    let e : x.peer ≡ peer = (bytes_eq_iff x.peer peer).0 (ground arith) in
    let same : bytes_eq x.peer p ≡ bytes_eq peer p = ap (λ (n : NodeId). bytes_eq n p) e in
    ground (arith, same)

-- An item that the test accepts has the peer and the index.
item_peer : (i : ℕ) (p : NodeId) (x : Availability) → is_item i p x ≡ true → x.peer ≡ p
item_peer i p x h = (bytes_eq_iff x.peer p).0 (ground arith)

item_index : (i : ℕ) (p : NodeId) (x : Availability) → is_item i p x ≡ true → x.index ≡ i
item_index i p x h = ground arith

-- Where the item is not of a peer, a test for that peer fails.
other_peer :
    (x : Availability) (i : ℕ) (peer p : NodeId)
    → bytes_eq x.peer peer ≡ false
    → is_item i p x ≡ true
    → bytes_eq peer p ≡ false
other_peer x i peer p off h = eq_comm peer p ∙ rw (item_peer i p x h) at off

other_pair :
    (x : Availability) (index i : ℕ) (peer p : NodeId)
    → is_item index peer x ≡ false
    → is_item i p x ≡ true
    → (index == i && bytes_eq peer p) ≡ false
other_pair x index i peer p off h =
    let e : x.peer ≡ p = item_peer i p x h in
    let f : x.index ≡ i = item_index i p x h in
    ground (arith, eq_comm peer p, ap (λ (n : NodeId). bytes_eq n peer) e)

pub has_item-append :
    (items : List Availability) (index i : ℕ) (peer p : NodeId)
    → has_item (items ++ record { index = index; peer = peer } ∷ []) i p
      ≡ (has_item items i p || (index == i && bytes_eq peer p))
unfolding has_item
has_item-append [] index i peer p = ground arith
has_item-append (x ∷ items) index i peer p = ground (arith, has_item-append items index i peer p)

pub Distinct-append :
    (items : List Availability) (index : ℕ) (peer : NodeId)
    → Distinct items
    → has_item items index peer ≡ false
    → Distinct (items ++ record { index = index; peer = peer } ∷ [])
unfolding has_item
Distinct-append [] index peer d h = (refl, tt)
Distinct-append (x ∷ items) index peer (apart, d) h = (
  has_item-append items index x.index peer x.peer ∙ ground (arith, eq_comm x.peer peer),
  Distinct-append items index peer d (ground arith),
)

-- Where an item stands once, unlinking the first unlinks all.
pub has_item-unlink :
    (items : List Availability) (index i : ℕ) (peer p : NodeId)
    → Distinct items
    → has_item (unlink items index peer) i p
      ≡ (has_item items i p && not (index == i && bytes_eq peer p))
unfolding has_item unlink
has_item-unlink [] index i peer p d = refl
has_item-unlink (x ∷ items) index i peer p (apart, d) = elim (Bool-cases (is_item index peer x)) [
  | inr miss ↦ elim (Bool-cases (is_item i p x)) [
    | inl at' ↦ rw (miss, at', other_pair x index i peer p miss at') refl
    | inr off ↦ rw (miss, off) (has_item-unlink items index i peer p d)
  ]
  | inl hit ↦ elim (Bool-cases (is_item i p x)) [
    | inl at' ↦
        let gone : has_item items i p ≡ false =
          sym (λ k. has_item items (item_index i p x at' k) (item_peer i p x at' k)) ∙ apart in
        rw (hit, at', gone, sym (same_pair x index i peer p hit) ∙ at') refl
    | inr off ↦ rw (hit, off, sym (same_pair x index i peer p hit) ∙ off) (ground arith)
  ]
]

pub has_item-drop_peer :
    (items : List Availability) (i : ℕ) (peer p : NodeId)
    → has_item (drop_peer items peer) i p ≡ (has_item items i p && not (bytes_eq peer p))
unfolding has_item drop_peer
has_item-drop_peer [] i peer p = refl
has_item-drop_peer (x ∷ items) i peer p =
    let ih = has_item-drop_peer items i peer p in
    elim (Bool-cases (bytes_eq x.peer peer)) [
      | inl mine ↦
          let e : bytes_eq x.peer p ≡ bytes_eq peer p =
            ap (λ (n : NodeId). bytes_eq n p) ((bytes_eq_iff x.peer peer).0 mine) in
          rw mine (ih ∙ ground (arith, e))
      | inr other ↦ elim (Bool-cases (is_item i p x)) [
        | inl at' ↦ rw (other, at', other_peer x i peer p other at') refl
        | inr off ↦ rw (other, off) ih
      ]
    ]

pub has_item-own_items :
    (owner : NodeId) (i j : ℕ) (chunks : List MetadataChunk) (items : List Availability)
    (p : NodeId)
    → has_item (own_items owner i chunks items) j p
      ≡ ((leb i j && (ltb j (i + length chunks) && bytes_eq owner p)) || has_item items j p)
unfolding has_item own_items
has_item-own_items owner i j [] items p = ground arith
has_item-own_items owner i j (c ∷ chunks) items p =
    has_item-own_items owner (suc i) j chunks (record { index = i; peer = owner } ∷ items) p
    ∙ ground arith

pub has_item-carry_items :
    (owner : NodeId) (olds items : List Availability) (j : ℕ) (p : NodeId)
    → has_item (carry_items owner olds items) j p
      ≡ ((has_item olds j p && not (bytes_eq owner p)) || has_item items j p)
unfolding has_item carry_items
has_item-carry_items owner [] items j p = refl
has_item-carry_items owner (x ∷ olds) items j p = elim (Bool-cases (bytes_eq x.peer owner)) [
  | inl mine ↦
      let e : x.peer ≡ owner = (bytes_eq_iff x.peer owner).0 mine in
      rw mine (has_item-carry_items owner olds items j p ∙ rw e (ground arith))
  | inr other ↦ rw other (
      has_item-carry_items owner olds (x ∷ items) j p ∙ elim (Bool-cases (is_item j p x)) [
        | inl at' ↦ rw (at', other_peer x j owner p other at') (ground arith)
        | inr off ↦ rw off refl
      ])
]

pub Distinct-unlink :
    (items : List Availability) (index : ℕ) (peer : NodeId)
    → Distinct items
    → Distinct (unlink items index peer)
unfolding unlink
Distinct-unlink [] index peer d = tt
Distinct-unlink (x ∷ items) index peer (apart, d) = elim (Bool-cases (is_item index peer x)) [
  | inl hit ↦ rw hit d
  | inr miss ↦ rw miss (
    has_item-unlink items index x.index peer x.peer d ∙ rw apart refl,
    Distinct-unlink items index peer d,
  )
]

pub Distinct-drop_peer :
    (items : List Availability) (peer : NodeId) → Distinct items → Distinct (drop_peer items peer)
unfolding drop_peer
Distinct-drop_peer [] peer d = tt
Distinct-drop_peer (x ∷ items) peer (apart, d) = elim (Bool-cases (bytes_eq x.peer peer)) [
  | inl hit ↦ rw hit (Distinct-drop_peer items peer d)
  | inr miss ↦ rw miss (
    has_item-drop_peer items x.index peer x.peer ∙ rw apart refl,
    Distinct-drop_peer items peer d,
  )
]

pub Distinct-own_items :
    (owner : NodeId) (i : ℕ) (chunks : List MetadataChunk) (items : List Availability)
    → Distinct items
    → ((j : ℕ) (p : NodeId) → i ≤ j → has_item items j p ≡ false)
    → Distinct (own_items owner i chunks items)
unfolding own_items has_item
Distinct-own_items owner i [] items d h = d
Distinct-own_items owner i (c ∷ chunks) items d h =
    Distinct-own_items owner (suc i) chunks (record { index = i; peer = owner } ∷ items)
      (h i owner (omega arith), d) (λ j p less. ground (arith, h j p (omega arith)))

pub Distinct-carry_items :
    (owner : NodeId) (olds items : List Availability)
    → Distinct olds
    → Distinct items
    → ((j : ℕ) (p : NodeId)
        → bytes_eq owner p ≡ false
        → has_item olds j p ≡ true
        → has_item items j p ≡ false)
    → Distinct (carry_items owner olds items)
unfolding carry_items has_item
Distinct-carry_items owner [] items dx d h = d
Distinct-carry_items owner (x ∷ olds) items (apart, dx) d h =
    elim (Bool-cases (bytes_eq x.peer owner)) [
      | inl mine ↦
          rw mine
            (Distinct-carry_items owner olds items dx d (λ j p off at'. h j p off (ground arith)))
      | inr other ↦ rw other (
          Distinct-carry_items owner olds (x ∷ items) dx
            (
              h x.index x.peer (eq_comm owner x.peer ∙ other)
                  (ground (arith, bytes_eq_refl x.peer)),
              d,
            )
            (λ j p off at'. elim (Bool-cases (is_item j p x)) [
              | inl same ↦
                  let gone : has_item olds j p ≡ false =
                    sym (λ k. has_item olds (item_index j p x same k) (item_peer j p x same k))
                    ∙ apart in
                  cc (gone, at')
              | inr differ ↦ rw differ (h j p off (ground (arith, differ)))
            ]))
    ]
