-- ===== src/Chord/Interval.antt =====
-- chord.c: circular intervals of identifiers, and what they mean on the ring.
use Prim.Native.Nat
use trabalho_distribuidos.Prelude.{
  ℕ, ◌+◌, ◌-◌, ◌^◌, ◌<◌, ◌≤◌, ◌≡◌, ◌≢◌, ◌↔◌, ◌⊎◌, inl, inr, refl, Bool, true, false, not, ◌&&◌,
  ◌||◌, some, Ordering, arith, length, leb, if◌then◌else◌, ap, ◌∙◌,
}
use trabalho_distribuidos.Prelude.Positional
use trabalho_distribuidos.Prelude.Positional.{value, weight, value-lt-weight, weight-eq-pow}
use trabalho_distribuidos.Node.{NodeId, compare, equal}
use trabalho_distribuidos.Node.Order.{IsNodeId, compare-value, equal_iff, value-eq}

-- order < 0, order <= 0
abbrev pub is_lt : Ordering → Bool
is_lt Ordering.lt = true
is_lt Ordering.eq = false
is_lt Ordering.gt = false

abbrev pub is_le : Ordering → Bool
is_le Ordering.lt = true
is_le Ordering.eq = true
is_le Ordering.gt = false

-- order > 0
abbrev pub is_gt : Ordering → Bool
is_gt Ordering.lt = false
is_gt Ordering.eq = false
is_gt Ordering.gt = true

-- The three cases of `order`: the ends coincide, the interval does not wrap, or it does.
abbrev pub between : Ordering → Bool → Bool → Bool → Bool
between Ordering.eq whole after before = whole
between Ordering.lt whole after before = after && before
between Ordering.gt whole after before = after || before

-- chord_interval_open_closed
unfoldable pub open_closed : NodeId → NodeId → NodeId → Bool
open_closed start end value =
    between (compare (some start) (some end)) true (is_lt (compare (some start) (some value)))
      (is_le (compare (some value) (some end)))

-- chord_interval_open_open
unfoldable pub open_open : NodeId → NodeId → NodeId → Bool
open_open start end value =
    between (compare (some start) (some end)) (not (equal (some start) (some value)))
      (is_lt (compare (some start) (some value))) (is_lt (compare (some value) (some end)))

abbrev pub ring_size : ℕ
ring_size = 2 ^ 256

-- Clockwise steps from one position of the ring to another.
unfoldable pub clockwise : ℕ → ℕ → ℕ
clockwise a b = if leb a b then b - a else b + ring_size - a

unfoldable pub distance : NodeId → NodeId → ℕ
unfolding clockwise
distance a b = clockwise (value a) (value b)

weight-32 : (xs : NodeId) → length xs ≡ 32 → weight xs ≡ ring_size
weight-32 xs h = weight-eq-pow xs ∙ ap (λ (n : ℕ). 256 ^ n) h

pub value-lt : (a : NodeId) → IsNodeId a → value a < ring_size
value-lt a v = ground (arith, value-lt-weight a v.bytes, weight-32 a v.size)

-- The ends of an interval as numbers.
closed_cases :
    (s e v : ℕ)
    → s < ring_size
    → e < ring_size
    → v < ring_size
    → let b = between (Nat.compare s e) true (is_lt (Nat.compare s v)) (is_le (Nat.compare v e)) in
      (b ≡ true → (s ≡ e) ⊎ ((0 < clockwise s v) × (clockwise s v ≤ clockwise s e)))
      × ((s ≡ e) ⊎ ((0 < clockwise s v) × (clockwise s v ≤ clockwise s e)) → b ≡ true)
unfolding clockwise
closed_cases s e v hs he hv = (λ h. ground arith, λ h. ground arith)

open_cases :
    (s e v : ℕ) (same : Bool)
    → s < ring_size
    → e < ring_size
    → v < ring_size
    → (same ≡ true → s ≡ v)
    → (s ≡ v → same ≡ true)
    → let b =
        between (Nat.compare s e) (not same) (is_lt (Nat.compare s v)) (is_lt (Nat.compare v e)) in
      let inside : Type 0 =
        ((s ≡ e) × (s ≢ v)) ⊎ ((0 < clockwise s v) × (clockwise s v < clockwise s e)) in
      (b ≡ true → inside) × (inside → b ≡ true)
unfolding clockwise
open_cases s e v true hs he hv h k = let q = h refl in (λ r. ground arith, λ r. ground arith)
open_cases s e v false hs he hv h k =
    let q : s ≢ v = λ r. cc (k r) in (λ r. ground arith, λ r. ground arith)

module _ (start end value : NodeId) (vs : IsNodeId start) (ve : IsNodeId end)
    (vv : IsNodeId value) where
  -- chord_interval_open_closed accepts a position exactly when the ends coincide (the whole ring),
  -- or it is met clockwise after `start` and no later than `end`.
  pub open_closed_iff :
      (open_closed start end value ≡ true)
      ↔ ((start ≡ end) ⊎ ((0 < distance start value) × (distance start value ≤ distance start end)))
  unfolding open_closed distance
  open_closed_iff =
      rw
        (
          compare-value start end vs ve,
          compare-value start value vs vv,
          compare-value value end vv ve,
        )
        (
          λ h. elim ((closed_cases _ _ _ hs he hv).0 h) [
            | inl same ↦ inl (value-eq start end vs ve same)
            | inr near ↦ inr near
          ],
          λ h.
              (closed_cases _ _ _ hs he hv).1
                (elim h [ inl same ↦ inl (ap Positional.value same) | inr near ↦ inr near ]),
        )
    where
      hs : Positional.value start < ring_size
      hs = value-lt start vs

      he : Positional.value end < ring_size
      he = value-lt end ve

      hv : Positional.value value < ring_size
      hv = value-lt value vv

  -- chord_interval_open_open accepts a position exactly when it is met clockwise strictly between the
  -- ends, or the ends coincide and it is another position.
  pub open_open_iff : (open_open start end value ≡ true) ↔ (
      ((start ≡ end) × (start ≢ value))
      ⊎ ((0 < distance start value) × (distance start value < distance start end)))
  unfolding open_open distance
  open_open_iff =
      let cases =
        open_cases (Positional.value start) (Positional.value end) (Positional.value value)
          (equal (some start) (some value)) (value-lt start vs) (value-lt end ve)
          (value-lt value vv) (λ r. ap Positional.value ((equal_iff start value).0 r))
          (λ r. (equal_iff start value).1 (value-eq start value vs vv r)) in
      rw
        (
          compare-value start end vs ve,
          compare-value start value vs vv,
          compare-value value end vv ve,
        )
        (
          λ h. elim (cases.0 h) [
            | inl (same, other) ↦
                inl (value-eq start end vs ve same, λ r. other (ap Positional.value r))
            | inr near ↦ inr near
          ],
          λ h. cases.1 (elim h [
            | inl (same, other) ↦
                inl (ap Positional.value same, λ r. other (value-eq start value vs vv r))
            | inr near ↦ inr near
          ]),
        )

-- A stop between two positions splits the way.
pub distance_split :
    (a b c : NodeId)
    → IsNodeId a
    → IsNodeId b
    → IsNodeId c
    → distance a b ≤ distance a c
    → distance a b + distance b c ≡ distance a c
unfolding distance clockwise
distance_split a b c va vb vc h = ground (arith, value-lt a va, value-lt b vb, value-lt c vc)

pub distance-eq-zero_iff : (a b : NodeId) → IsNodeId a → IsNodeId b → (distance a b ≡ 0) ↔ (a ≡ b)
unfolding distance clockwise
distance-eq-zero_iff a b va vb = (
  λ h. value-eq a b va vb (ground (arith, value-lt a va, value-lt b vb)),
  λ h. ground (arith, ap Positional.value h, value-lt a va, value-lt b vb),
)

pub distance-lt : (a b : NodeId) → IsNodeId a → IsNodeId b → distance a b < ring_size
unfolding distance clockwise
distance-lt a b va vb = ground (arith, value-lt a va, value-lt b vb)
