-- ===== src/Node/Order.antt =====
-- node_id_compare and node_id_equal against the numbers that the identifiers spell.
use Prim.Native.Nat
use trabalho_distribuidos.Prelude.{
  ◌≡◌, ◌↔◌, refl, true, some, Ordering, arith, length, All, IsByte, bytes_eq_iff,
  compare_bytes-value, value-injective, ◌≢◌, false, Bool-cases, inl, inr,
}
use trabalho_distribuidos.Prelude.Positional.{value}
use trabalho_distribuidos.Node.{NodeId, node_id_size, compare, equal}

-- 32 bytes.
pub record IsNodeId (id : NodeId) : Type 0 where
  pub size : length id ≡ node_id_size
  pub bytes : All IsByte id

module _ (a b : NodeId) (va : IsNodeId a) (vb : IsNodeId b) where
  same_size : length a ≡ length b
  same_size = omega (arith, va.size, vb.size)

  -- The order of two identifiers is that of the big-endian numbers they spell.
  pub compare-value : compare (some a) (some b) ≡ Nat.compare (value a) (value b)
  unfolding compare
  compare-value = compare_bytes-value a b same_size va.bytes vb.bytes

  pub value-eq : value a ≡ value b → a ≡ b
  value-eq = value-injective a b same_size va.bytes vb.bytes

  -- node_id_compare returns 0 exactly where node_id_equal holds.
  pub compare-equal_iff :
      (compare (some a) (some b) ≡ Ordering.eq) ↔ (equal (some a) (some b) ≡ true)
  unfolding equal
  compare-equal_iff = (
    λ e. (bytes_eq_iff a b).1 (value-eq (ground (arith, compare-value))),
    λ e. let same : a ≡ b = (bytes_eq_iff a b).0 e in ground (arith, compare-value, same),
  )

pub equal_iff : (a b : NodeId) → (equal (some a) (some b) ≡ true) ↔ (a ≡ b)
unfolding equal
equal_iff a b = bytes_eq_iff a b

pub equal_refl : (a : NodeId) → equal (some a) (some a) ≡ true
equal_refl a = (equal_iff a a).1 refl

pub equal_ne : (a b : NodeId) → a ≢ b → equal (some a) (some b) ≡ false
equal_ne a b h = elim (Bool-cases (equal (some a) (some b))) [
  | inl e ↦ absurd (h ((equal_iff a b).0 e))
  | inr e ↦ e
]

pub ne_of_equal : (a b : NodeId) → equal (some a) (some b) ≡ false → a ≢ b
ne_of_equal a b h e = cc ((equal_iff a b).1 e)
