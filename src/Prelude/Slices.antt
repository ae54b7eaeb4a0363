-- ===== src/Prelude/Slices.antt =====
-- What take, drop and get_or see of an updated list and of an appended one.
use Prim.Native.Nat.{ℕ, zero, suc, ◌-◌, ◌<◌, ◌≤◌}
use mathlib.Core.Path.{◌≡◌, refl, ap, ◌∙◌}
use mathlib.Core.Logic.{◌≢◌, ◌⊎◌, inl, inr}
use mathlib.Core.List.{List, [], ◌∷◌, ◌++◌}
use native.Mathlib.Omega.{arith}
use trabalho_distribuidos.Prelude.Lists.{get_or, set, take, drop, length}

pub take-split :
    (n : ℕ) (front back : List ℕ)
    → take n (front ++ back) ≡ take n front ++ take (n - length (take n front)) back
take-split zero front back = refl
take-split (suc n) [] back = let same : suc n ≡ suc n - 0 = omega arith in λ i. take (same i) back
take-split (suc n) (b ∷ front) back =
    let rest = length (take n front) in
    let same : n - rest ≡ suc n - suc rest = omega arith in
    ap (λ (bs : List ℕ). b ∷ bs)
      (take-split n front back ∙ (λ i. take n front ++ take (same i) back))

pub length-take_min :
    (n : ℕ) (xs : List ℕ)
    → (length (take n xs) ≤ n) × ((length (take n xs) ≡ n) ⊎ (length (take n xs) ≡ length xs))
length-take_min zero xs = (omega arith, inl refl)
length-take_min (suc n) [] = (omega arith, inr refl)
length-take_min (suc n) (x ∷ xs) =
    let h = length-take_min n xs in (omega (arith, h.0), grind (arith, h))

module _ (v d : ℕ) where
  pub get_or-set_same : (xs : List ℕ) (i : ℕ) → i < length xs → get_or (set xs i v) i d ≡ v
  get_or-set_same [] i h = absurd (omega arith)
  get_or-set_same (x ∷ xs) zero h = refl
  get_or-set_same (x ∷ xs) (suc i) h = get_or-set_same xs i (omega arith)

  pub get_or-set_other : (xs : List ℕ) (i j : ℕ) → i ≢ j → get_or (set xs i v) j d ≡ get_or xs j d
  get_or-set_other [] i j h = refl
  get_or-set_other (x ∷ xs) zero zero h = absurd (h refl)
  get_or-set_other (x ∷ xs) zero (suc j) h = refl
  get_or-set_other (x ∷ xs) (suc i) zero h = refl
  get_or-set_other (x ∷ xs) (suc i) (suc j) h = get_or-set_other xs i j (λ e. h (ap suc e))

pub take-set : (n : ℕ) (xs : List ℕ) (i v : ℕ) → n ≤ i → take n (set xs i v) ≡ take n xs
take-set zero xs i v h = refl
take-set (suc n) [] i v h = refl
take-set (suc n) (x ∷ xs) zero v h = absurd (omega arith)
take-set (suc n) (x ∷ xs) (suc i) v h =
    ap (λ (ys : List ℕ). x ∷ ys) (take-set n xs i v (omega arith))

pub drop-set : (n : ℕ) (xs : List ℕ) (i v : ℕ) → i < n → drop n (set xs i v) ≡ drop n xs
drop-set zero xs i v h = absurd (omega arith)
drop-set (suc n) [] i v h = refl
drop-set (suc n) (x ∷ xs) zero v h = refl
drop-set (suc n) (x ∷ xs) (suc i) v h = drop-set n xs i v (omega arith)
