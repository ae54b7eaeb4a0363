-- ===== src/Wire.antt =====
-- wire.h: unsigned integers in network byte order. A value is shifted by `/ 2 ^ k`, and a byte
-- store truncates by `% 256`; the operands of each `|` do not overlap, so it is `+`.
pub mod RoundTrip
use trabalho_distribuidos.Prelude.{
  ℕ, zero, suc, ◌+◌, ◌-◌, ◌*◌, ◌/◌, ◌%◌, ◌^◌, List, [], ◌∷◌, get_or,
}

unfoldable pub put_u16 : ℕ → List ℕ
put_u16 value = (value / 2 ^ 8 % 256) ∷ (value % 256) ∷ []

unfoldable pub get_u16 : List ℕ → ℕ
get_u16 source = (get_or source 0 0 * 2 ^ 8 + get_or source 1 0) % 2 ^ 16

unfoldable pub put_u32 : ℕ → List ℕ
put_u32 value =
    (value / 2 ^ 24 % 256) ∷ (value / 2 ^ 16 % 256) ∷ (value / 2 ^ 8 % 256) ∷ (value % 256) ∷ []

unfoldable pub get_u32 : List ℕ → ℕ
get_u32 source =
    (get_or source 0 0 * 2 ^ 24
      + get_or source 1 0 * 2 ^ 16
      + get_or source 2 0 * 2 ^ 8
      + get_or source 3 0)
    % 2 ^ 32

-- The loop of `wire_put_u64`: the rounds that are left, and `index`.
put_u64_loop : ℕ → ℕ → ℕ → List ℕ
put_u64_loop zero index value = []
put_u64_loop (suc rounds) index value =
    (value / 2 ^ (56 - index * 8) % 256) ∷ put_u64_loop rounds (index + 1) value

unfoldable pub put_u64 : ℕ → List ℕ
unfolding put_u64_loop
put_u64 value = put_u64_loop 8 0 value

-- The loop of `wire_get_u64`, with the value read so far.
get_u64_loop : ℕ → ℕ → ℕ → List ℕ → ℕ
get_u64_loop zero index value source = value
get_u64_loop (suc rounds) index value source =
    get_u64_loop rounds (index + 1) ((value * 2 ^ 8 + get_or source index 0) % 2 ^ 64) source

unfoldable pub get_u64 : List ℕ → ℕ
unfolding get_u64_loop
get_u64 source = get_u64_loop 8 0 0 source
