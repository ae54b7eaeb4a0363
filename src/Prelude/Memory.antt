-- ===== src/Prelude/Memory.antt =====
-- memcmp on two arrays of one length, as the order of their first difference.
use Prim.Native.Nat.{ℕ, ◌+◌, ◌*◌, ◌<◌, compare, Ordering}
use mathlib.Core.Path.{◌≡◌, refl}
use mathlib.Core.List.{List, [], ◌∷◌}
use native.Mathlib.Omega.{arith}
use trabalho_distribuidos.Prelude.Lists.{length, All, IsByte}
use trabalho_distribuidos.Prelude.Positional.{value, weight, weight-length, value-lt-weight}

unfoldable pub compare_bytes : List ℕ → List ℕ → Ordering
compare_bytes [] ys = Ordering.eq
compare_bytes (x ∷ xs) [] = Ordering.eq
compare_bytes (x ∷ xs) (y ∷ ys) = elim (compare x y) [
  | Ordering.lt ↦ Ordering.lt
  | Ordering.gt ↦ Ordering.gt
  | Ordering.eq ↦ compare_bytes xs ys
]

digit_lt : (x y w u v : ℕ) → x < y → u < w → x * w + u < y * w + v
digit_lt x y w u v h k = grind arith

-- On arrays of one length memcmp compares the numbers that they spell.
pub compare_bytes-value :
    (xs ys : List ℕ)
    → length xs ≡ length ys
    → All IsByte xs
    → All IsByte ys
    → compare_bytes xs ys ≡ compare (value xs) (value ys)
unfolding compare_bytes
compare_bytes-value [] [] h p q = refl
compare_bytes-value [] (y ∷ ys) h p q = absurd (omega arith)
compare_bytes-value (x ∷ xs) [] h p q = absurd (omega arith)
compare_bytes-value (x ∷ xs) (y ∷ ys) h p q = rw (weight-length xs ys (omega arith)) (
    ground (
      arith,
      compare_bytes-value xs ys (omega arith) p.1 q.1,
      digit_lt x y (weight ys) (value xs) (value ys),
      digit_lt y x (weight ys) (value ys) (value xs),
      value-lt-weight ys q.1,
      value-lt-weight xs p.1,
      weight-length xs ys (omega arith),
    ))

pub value-injective :
    (xs ys : List ℕ)
    → length xs ≡ length ys
    → All IsByte xs
    → All IsByte ys
    → value xs ≡ value ys
    → xs ≡ ys
value-injective [] [] h p q e = refl
value-injective [] (y ∷ ys) h p q e = absurd (omega arith)
value-injective (x ∷ xs) [] h p q e = absurd (omega arith)
value-injective (x ∷ xs) (y ∷ ys) h p q e = ground (
  arith,
  value-injective xs ys (omega arith) p.1 q.1,
  digit_lt x y (weight ys) (value xs) (value ys),
  digit_lt y x (weight ys) (value ys) (value xs),
  value-lt-weight ys q.1,
  value-lt-weight xs p.1,
  weight-length xs ys (omega arith),
)
