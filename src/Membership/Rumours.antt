-- ===== src/Membership/Rumours.antt =====
-- membership_merge on many records of one node: which of them lasts.
use Prim.Native.Nat
use mathlib.Core.List.{Permᴰ}
use trabalho_distribuidos.Prelude.{
  ℕ, ◌<◌, ◌≡◌, inl, inr, refl, true, false, ◌&&◌, List, [], ◌∷◌, arith, map, subst, All, Bool-cases,
  if◌then◌else◌, ap, ◌∙◌, sym, ltb, ◌==◌, Ordering,
}
use trabalho_distribuidos.Prelude.Positional.{value}
use trabalho_distribuidos.Node.{NodeId, role_peer}
use trabalho_distribuidos.Node.Order.{IsNodeId, compare-value}
use trabalho_distribuidos.Chord.{same_id}
use trabalho_distribuidos.Membership.{Member, removed, alive}
use trabalho_distribuidos.Membership.Updates.{is_newer, may_replace, merge_known}

-- What decides between two records of a node, the most important first.
abbrev pub rank : Member → List ℕ
rank m = m.incarnation ∷ m.sequence ∷ m.state ∷ m.version ∷ value m.reporter ∷ []

-- The later of two lists of numbers in the order of a dictionary.
pub newest : List ℕ → List ℕ → List ℕ
newest [] ys = ys
newest (x ∷ xs) [] = x ∷ xs
newest (x ∷ xs) (y ∷ ys) = elim (Nat.compare x y) [
  | Ordering.lt ↦ y ∷ ys
  | Ordering.gt ↦ x ∷ xs
  | Ordering.eq ↦ x ∷ newest xs ys
]

newest_cons :
    (x y : ℕ) (xs ys : List ℕ)
    → newest (x ∷ xs) (y ∷ ys)
      ≡ (if ltb x y then y ∷ ys else if ltb y x then x ∷ xs else x ∷ newest xs ys)
unfolding newest
newest_cons x y xs ys = ground arith

newest_comm : (xs ys : List ℕ) → newest xs ys ≡ newest ys xs
unfolding newest
newest_comm [] [] = refl
newest_comm [] (y ∷ ys) = refl
newest_comm (x ∷ xs) [] = refl
newest_comm (x ∷ xs) (y ∷ ys) = ground (arith, newest_comm xs ys)

-- The order in which two lists are taken in does not matter.
newest_swap : (xs ys zs : List ℕ) → newest xs (newest ys zs) ≡ newest ys (newest xs zs)
newest_swap [] [] zs = unfold newest in refl
newest_swap [] (y ∷ ys) zs = unfold newest in refl
newest_swap (x ∷ xs) [] zs = unfold newest in refl
newest_swap (x ∷ xs) (y ∷ ys) [] = unfold newest in newest_comm (x ∷ xs) (y ∷ ys)
newest_swap (x ∷ xs) (y ∷ ys) (z ∷ zs) = ground (
  arith,
  newest_swap xs ys zs,
  newest_comm xs ys,
  newest_cons y z ys zs,
  newest_cons x z xs zs,
  newest_cons x y xs ys,
  newest_cons x y xs (newest ys zs),
  newest_cons y x ys xs,
  newest_cons y x ys (newest xs zs),
)

-- A record that no exception of the merge concerns: not REMOVED, and not of a peer of this domain.
pub record IsPlain (local : NodeId) (m : Member) : Type 0 where
  pub reporter : IsNodeId m.reporter
  pub state : m.state < removed
  pub foreign : (m.node.role == role_peer && same_id m.home local) ≡ false

-- The order of the merge is that of the ranks.
is_newer-rank :
    (incoming old : Member)
    → IsNodeId incoming.reporter
    → IsNodeId old.reporter
    → (if is_newer incoming old then rank incoming else rank old)
      ≡ newest (rank incoming) (rank old)
unfolding is_newer newest
is_newer-rank incoming old vi vo =
    ground (arith, compare-value incoming.reporter old.reporter vi vo)

may_replace-plain :
    (local : NodeId) (old incoming : Member)
    → IsPlain local old
    → may_replace local old incoming ≡ is_newer incoming old
unfolding may_replace
may_replace-plain local old incoming plain =
    let s : (old.state == removed) ≡ false = ground (arith, plain.state) in
    rw (plain.foreign, s) refl

merge_known-rank :
    (local : NodeId) (old incoming : Member)
    → IsPlain local old
    → IsPlain local incoming
    → (rank (merge_known local old incoming) ≡ newest (rank incoming) (rank old))
      × IsPlain local (merge_known local old incoming)
unfolding merge_known
merge_known-rank local old incoming po pi = elim (Bool-cases (is_newer incoming old)) [
  | inl yes' ↦
      let test : may_replace local old incoming ≡ true =
        may_replace-plain local old incoming po ∙ yes' in
      (
        rw (merge_known, test) (rw yes' at (is_newer-rank incoming old pi.reporter po.reporter)),
        rw (merge_known, test)
            (record { reporter = pi.reporter; state = pi.state; foreign = pi.foreign }),
      )
  | inr no' ↦
      let test : may_replace local old incoming ≡ false =
        may_replace-plain local old incoming po ∙ no' in
      (
        rw (merge_known, test) (rw no' at (is_newer-rank incoming old pi.reporter po.reporter)),
        rw (merge_known, test) po,
      )
]

-- The records of one node taken in one after another.
abbrev pub merge_all : NodeId → Member → List Member → Member
merge_all local old [] = old
merge_all local old (m ∷ ms) = merge_all local (merge_known local old m) ms

abbrev pub newest_all : List ℕ → List (List ℕ) → List ℕ
newest_all best [] = best
newest_all best (r ∷ rs) = newest_all (newest r best) rs

merge_all-rank :
    (local : NodeId) (old : Member) (ms : List Member)
    → IsPlain local old
    → All (IsPlain local) ms
    → rank (merge_all local old ms) ≡ newest_all (rank old) (map rank ms)
merge_all-rank local old [] po ps = refl
merge_all-rank local old (m ∷ ms) po (p, ps) =
    let (e, plain) = merge_known-rank local old m po p in
    merge_all-rank local (merge_known local old m) ms plain ps
    ∙ ap (λ (r : List ℕ). newest_all r (map rank ms)) e

newest_all-Perm :
    (best : List ℕ) {rs qs : List (List ℕ)} → Permᴰ rs qs → newest_all best rs ≡ newest_all best qs
newest_all-Perm best Permᴰ.nil = refl
newest_all-Perm best (Permᴰ.cons {b = b} {l₁ = l₁} e d) =
    ap (λ (r : List ℕ). newest_all (newest r best) l₁) e ∙ newest_all-Perm (newest b best) d
newest_all-Perm best (Permᴰ.swap {a = a} {b = b} {l = l} e f) =
    ap (λ (r : List ℕ). newest_all r l) (newest_swap b a best)
    ∙ (λ i. newest_all (newest (e i) (newest (f i) best)) l)
newest_all-Perm best (Permᴰ.trans c d) = newest_all-Perm best c ∙ newest_all-Perm best d

map-Perm : {ms ns : List Member} → Permᴰ ms ns → Permᴰ (map rank ms) (map rank ns)
map-Perm Permᴰ.nil = Permᴰ.nil
map-Perm (Permᴰ.cons e d) = Permᴰ.cons (ap rank e) (map-Perm d)
map-Perm (Permᴰ.swap e f) = Permᴰ.swap (ap rank e) (ap rank f)
map-Perm (Permᴰ.trans c d) = Permᴰ.trans (map-Perm c) (map-Perm d)

All-Perm :
    (local : NodeId) {ms ns : List Member}
    → Permᴰ ms ns
    → All (IsPlain local) ms
    → All (IsPlain local) ns
All-Perm local Permᴰ.nil h = h
All-Perm local (Permᴰ.cons e d) (p, ps) = (subst (IsPlain local) e p, All-Perm local d ps)
All-Perm local (Permᴰ.swap e f) h =
    (subst (IsPlain local) f h.1.0, (subst (IsPlain local) e h.0, h.1.1))
All-Perm local (Permᴰ.trans c d) h = All-Perm local d (All-Perm local c h)

-- A node whose record is not REMOVED, and rumours of it that are not REMOVED, none of them of a
-- peer of the local domain: whatever the order in which membership_merge takes them in, the record
-- that the table holds in the end has the same incarnation, sequence, state, version and reporter,
-- namely the greatest of all in this order of importance.
pub merge_all-Perm :
    (local : NodeId) (old : Member) (ms ns : List Member)
    → IsPlain local old
    → All (IsPlain local) ms
    → Permᴰ ms ns
    → (rank (merge_all local old ms) ≡ rank (merge_all local old ns))
      × (rank (merge_all local old ms) ≡ newest_all (rank old) (map rank ms))
merge_all-Perm local old ms ns po ps d =
    let e = merge_all-rank local old ms po ps in
    (
      e
          ∙ newest_all-Perm (rank old) (map-Perm d)
          ∙ sym (merge_all-rank local old ns po (All-Perm local d ps)),
      e,
    )

later-newer :
    (old incoming : Member)
    → old.incarnation ≡ incoming.incarnation
    → old.sequence < incoming.sequence
    → is_newer incoming old ≡ true
unfolding is_newer
later-newer old incoming i s = ground arith

-- What the merge copies, of what the next one reads.
abbrev Takes : Member → Member → Type 0
Takes m result =
    (result.state ≡ m.state)
    × ((result.incarnation ≡ m.incarnation) × (result.sequence ≡ m.sequence))

merge_known-taken :
    (local : NodeId) (old incoming : Member)
    → may_replace local old incoming ≡ true
    → Takes incoming (merge_known local old incoming)
unfolding merge_known
merge_known-taken local old incoming h = rw (merge_known, h) (refl, (refl, refl))

merge_known-kept :
    (local : NodeId) (old incoming : Member)
    → may_replace local old incoming ≡ false
    → merge_known local old incoming ≡ old
unfolding merge_known
merge_known-kept local old incoming h = rw h refl

may_replace-earlier :
    (local : NodeId) (old incoming : Member)
    → incoming.incarnation ≡ old.incarnation
    → incoming.sequence < old.sequence
    → may_replace local old incoming ≡ false
unfolding may_replace is_newer
may_replace-earlier local old incoming i s = ground arith

may_replace-tombstone :
    (local : NodeId) (old incoming : Member)
    → old.state ≡ removed
    → incoming.incarnation ≡ old.incarnation
    → may_replace local old incoming ≡ false
unfolding may_replace
may_replace-tombstone local old incoming gone i = ground arith

-- A tombstone blocks what comes after it but not what came before: of two records of one incarnation,
-- neither of a peer of the local domain, one ALIVE with a later sequence and one REMOVED with an
-- earlier one, a table that takes in the ALIVE one first stays ALIVE, and a table that takes in the
-- REMOVED one first stays REMOVED.
pub merge_all-tombstone :
    (local : NodeId) (old fresh gone : Member)
    → IsPlain local old
    → (fresh.node.role == role_peer && same_id fresh.home local) ≡ false
    → (gone.node.role == role_peer && same_id gone.home local) ≡ false
    → fresh.state ≡ alive
    → gone.state ≡ removed
    → old.incarnation ≡ gone.incarnation
    → gone.incarnation ≡ fresh.incarnation
    → old.sequence < gone.sequence
    → gone.sequence < fresh.sequence
    → ((merge_all local old (fresh ∷ gone ∷ [])).state ≡ alive)
      × ((merge_all local old (gone ∷ fresh ∷ [])).state ≡ removed)
merge_all-tombstone local old fresh gone po foreign foreign' up down i j s t =
    let up' : may_replace local old fresh ≡ true =
      may_replace-plain local old fresh po ∙ later-newer old fresh (i ∙ j) (omega arith) in
    let down' : may_replace local old gone ≡ true =
      may_replace-plain local old gone po ∙ later-newer old gone i s in
    (
      ap (λ (m : Member). m.state)
            (merge_known-kept local (merge_known local old fresh) gone (
              may_replace-earlier local (merge_known local old fresh) gone
                (j ∙ sym (taken old fresh up').1.0) (rw ((taken old fresh up').1.1) t)))
          ∙ (taken old fresh up').0
          ∙ up,
      ap (λ (m : Member). m.state)
            (merge_known-kept local (merge_known local old gone) fresh (
              may_replace-tombstone local (merge_known local old gone) fresh
                ((taken old gone down').0 ∙ down) (sym j ∙ sym (taken old gone down').1.0)))
          ∙ (taken old gone down').0
          ∙ down,
    )
  where
    taken : (o m : Member) → may_replace local o m ≡ true → Takes m (merge_known local o m)
    taken o m h = merge_known-taken local o m h
