-- ===== src/Wire/RoundTrip.antt =====
-- The readers of wire.h invert its writers, whatever stands behind the field.
use trabalho_distribuidos.Prelude.{
  ℕ, ◌^◌, ◌<◌, ◌≡◌, refl, List, [], ◌∷◌, ◌++◌, arith, length, All, IsByte,
}
use trabalho_distribuidos.Wire.{put_u16, get_u16, put_u32, get_u32, put_u64, get_u64}

pub get_u16-put_u16 : (v : ℕ) (rest : List ℕ) → v < 2 ^ 16 → get_u16 (put_u16 v ++ rest) ≡ v
unfolding put_u16 get_u16
get_u16-put_u16 v rest h = omega arith

pub get_u32-put_u32 : (v : ℕ) (rest : List ℕ) → v < 2 ^ 32 → get_u32 (put_u32 v ++ rest) ≡ v
unfolding put_u32 get_u32
get_u32-put_u32 v rest h = omega arith

pub get_u64-put_u64 : (v : ℕ) (rest : List ℕ) → v < 2 ^ 64 → get_u64 (put_u64 v ++ rest) ≡ v
unfolding put_u64 get_u64
get_u64-put_u64 v rest h = omega arith

pub length-put_u16 : (v : ℕ) → length (put_u16 v) ≡ 2
unfolding put_u16
length-put_u16 v = refl

pub length-put_u32 : (v : ℕ) → length (put_u32 v) ≡ 4
unfolding put_u32
length-put_u32 v = refl

pub length-put_u64 : (v : ℕ) → length (put_u64 v) ≡ 8
unfolding put_u64
length-put_u64 v = refl

pub get_u32-lt : (s : List ℕ) → get_u32 s < 2 ^ 32
unfolding get_u32
get_u32-lt s = omega arith

pub put_u16-IsByte : (v : ℕ) → All IsByte (put_u16 v)
unfolding put_u16
put_u16-IsByte v = omega arith

pub put_u32-IsByte : (v : ℕ) → All IsByte (put_u32 v)
unfolding put_u32
put_u32-IsByte v = omega arith

pub put_u64-IsByte : (v : ℕ) → All IsByte (put_u64 v)
unfolding put_u64
put_u64-IsByte v = omega arith

-- Every field of bytes is what the writer makes of its value.
pub put_u32-get_u32 :
    (a b c d : ℕ)
    → All IsByte (a ∷ b ∷ c ∷ d ∷ [])
    → put_u32 (get_u32 (a ∷ b ∷ c ∷ d ∷ [])) ≡ a ∷ b ∷ c ∷ d ∷ []
unfolding put_u32 get_u32
put_u32-get_u32 a b c d h = ground arith
