-- ===== src/Prelude/Positional.antt =====
-- Byte strings as numbers in base 256, most significant byte first.
use Prim.Native.Nat.{ℕ, ◌+◌, ◌*◌, ◌^◌, ◌<◌}
use mathlib.Core.Path.{◌≡◌, refl, ap}
use mathlib.Core.List.{List, [], ◌∷◌}
use native.Mathlib.Nat.{pow-succ'}
use native.Mathlib.Omega.{arith}
use trabalho_distribuidos.Prelude.Lists.{length, All, IsByte}

-- The number of `256 ^ length` values: the weight of the byte in front of a list.
abbrev pub weight : List ℕ → ℕ
weight [] = 1
weight (x ∷ xs) = 256 * weight xs

abbrev pub value : List ℕ → ℕ
value [] = 0
value (x ∷ xs) = x * weight xs + value xs

pub value-lt-weight : (xs : List ℕ) → All IsByte xs → value xs < weight xs
value-lt-weight [] h = omega arith
value-lt-weight (x ∷ xs) h = grind (arith, value-lt-weight xs h.1)

pub weight-pos : (xs : List ℕ) → 0 < weight xs
weight-pos [] = omega arith
weight-pos (x ∷ xs) = omega (arith, weight-pos xs)

pub weight-length : (xs ys : List ℕ) → length xs ≡ length ys → weight xs ≡ weight ys
weight-length [] [] h = refl
weight-length [] (y ∷ ys) h = absurd (omega arith)
weight-length (x ∷ xs) [] h = absurd (omega arith)
weight-length (x ∷ xs) (y ∷ ys) h = ap (λ (w : ℕ). 256 * w) (weight-length xs ys (omega arith))

pub weight-eq-pow : (xs : List ℕ) → weight xs ≡ 256 ^ length xs
weight-eq-pow [] = refl
weight-eq-pow (x ∷ xs) = omega (arith, weight-eq-pow xs, pow-succ' 256 (length xs))
