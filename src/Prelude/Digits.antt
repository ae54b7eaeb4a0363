-- ===== src/Prelude/Digits.antt =====
-- Hexadecimal digits and the bytes that they spell, by a table of the digits.
use Prim.Native.Nat.{ℕ, ◌+◌, ◌*◌, ◌<◌}
use mathlib.Core.Path.{◌≡◌}
use mathlib.Core.Logic.{◌⊎◌, inl, inr}
use mathlib.Core.Bool.{Bool, true, false, ◌&&◌, ◌||◌}
use mathlib.Core.Option.{Option, none, some}
use mathlib.Core.List.{List, [], ◌∷◌}
use native.Mathlib.Omega.{arith}
use trabalho_distribuidos.Prelude.Tests.{◌==◌, ltb, all_below, all_below_sound, &&-true}
use trabalho_distribuidos.Prelude.Lists.{get_or, All}

abbrev pub lower_digits : List ℕ
lower_digits =
    b'0' ∷ b'1' ∷ b'2' ∷ b'3' ∷ b'4' ∷ b'5' ∷ b'6' ∷ b'7' ∷ b'8' ∷ b'9' ∷ b'a' ∷ b'b' ∷ b'c' ∷ b'd'
    ∷ b'e' ∷ b'f' ∷ []

abbrev pub upper_digits : List ℕ
upper_digits =
    b'0' ∷ b'1' ∷ b'2' ∷ b'3' ∷ b'4' ∷ b'5' ∷ b'6' ∷ b'7' ∷ b'8' ∷ b'9' ∷ b'A' ∷ b'B' ∷ b'C' ∷ b'D'
    ∷ b'E' ∷ b'F' ∷ []

-- The character stands at the place of the value in the table of either case.
abbrev pub Denotes : ℕ → ℕ → Type 0
Denotes v c = (v < 16) × ((c ≡ get_or lower_digits v 0) ⊎ (c ≡ get_or upper_digits v 0))

-- A hexadecimal digit of either case.
abbrev pub IsDigit : ℕ → Type 0
IsDigit c = (v : ℕ) × Denotes v c

-- The text spells the bytes, two digits for each, the high one first.
abbrev pub Spells : List ℕ → List ℕ → Type 0
Spells [] [] = Unit {0}
Spells [] (byte ∷ bytes) = ⊥
Spells (a ∷ []) bytes = ⊥
Spells (a ∷ b ∷ text) [] = ⊥
Spells (a ∷ b ∷ text) (byte ∷ bytes) =
    ((high low : ℕ) × Denotes high a × Denotes low b × (byte ≡ high * 16 + low)) × Spells text bytes

pub Spells-digits : (text bytes : List ℕ) → Spells text bytes → All IsDigit text
Spells-digits [] bytes h = tt
Spells-digits (a ∷ []) bytes h = elim h [ ]
Spells-digits (a ∷ b ∷ text) [] h = elim h [ ]
Spells-digits (a ∷ b ∷ text) (byte ∷ bytes) ((high, low, first, second, e), h) =
    ((high, first), ((low, second), Spells-digits text bytes h))

-- A function that gives the value of a digit, and none for any other character.
abbrev pub Reads : (ℕ → Option ℕ) → Type 0
Reads value_of =
    ((c v : ℕ) → value_of c ≡ some v → Denotes v c)
    × ((c v : ℕ) → Denotes v c → value_of c ≡ some v)

abbrev is_value : Option ℕ → ℕ → Bool
is_value none d = false
is_value (some v) d = v == d

is_value→eq : (o : Option ℕ) (d : ℕ) → is_value o d ≡ true → o ≡ some d
is_value→eq none d h = cc
is_value→eq (some v) d h = ground arith

abbrev denotes : ℕ → ℕ → Bool
denotes v c = ltb v 16 && (c == get_or lower_digits v 0 || c == get_or upper_digits v 0)

abbrev sound_at : Option ℕ → ℕ → Bool
sound_at none c = true
sound_at (some v) c = denotes v c

abbrev pub sound : (ℕ → Option ℕ) → ℕ → Bool
sound value_of c = sound_at (value_of c) c

abbrev pub complete : (ℕ → Option ℕ) → ℕ → Bool
complete value_of v =
    is_value (value_of (get_or lower_digits v 0)) v
    && is_value (value_of (get_or upper_digits v 0)) v

placed :
    (v c low up : ℕ)
    → (ltb v 16 && (c == low || c == up)) ≡ true
    → (v < 16) × ((c ≡ low) ⊎ (c ≡ up))
placed v c low up h = ground arith

-- Such a function is found by evaluation on the characters of ASCII.
pub evaluate-Reads :
    (value_of : ℕ → Option ℕ)
    → all_below 128 (sound value_of) ≡ true
    → all_below 16 (complete value_of) ≡ true
    → ((c v : ℕ) → value_of c ≡ some v → c < 128)
    → Reads value_of
evaluate-Reads value_of low high bound = (
  λ c v e.
      let here = all_below_sound 128 (sound value_of) c low (bound c v e) in
      placed v c (get_or lower_digits v 0) (get_or upper_digits v 0) (rw e at here),
  λ c v (small, place).
      let here = all_below_sound 16 (complete value_of) v high small in
      elim place [
        | inl e ↦ rw e (is_value→eq _ v (&&-true _ _ here).0)
        | inr e ↦ rw e (is_value→eq _ v (&&-true _ _ here).1)
      ],
)
