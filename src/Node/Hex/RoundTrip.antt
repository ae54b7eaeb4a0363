-- ===== src/Node/Hex/RoundTrip.antt =====
-- Reading back what node_id_to_hex writes, and the texts that node_id_from_hex accepts.
use trabalho_distribuidos.Prelude.{
  ℕ, zero, suc, ◌+◌, ◌*◌, ◌/◌, ◌%◌, ◌<◌, ◌≡◌, refl, Bool, true, false, not, Option, none, some,
  List, [], ◌∷◌, ◌++◌, arith, length, All, IsByte, get_or, ◌==◌, ltb, if◌then◌else◌, Result, ok,
  err, enospc, ◌>>=◌, all_below_sound, inl, inr, ap, Bool-cases, require-ok, ==_iff, ok-injective,
  IsDigit, Spells, Reads, evaluate-Reads,
}
use trabalho_distribuidos.Node.{NodeId, c_string}
use trabalho_distribuidos.Node.Order.{IsNodeId}
use trabalho_distribuidos.Node.Hex.{
  hexadecimal, to_hex_loop, to_hex, hexadecimal_value, byte_of_digits, from_hex_loop, from_hex,
}

abbrev is_value : Option ℕ → ℕ → Bool
is_value none d = false
is_value (some v) d = v == d

is_value→eq : (o : Option ℕ) (d : ℕ) → is_value o d ≡ true → o ≡ some d
is_value→eq none d h = cc
is_value→eq (some v) d h = ground arith

-- Every digit that is written reads as its value, and is no terminator.
digit_read : (d : ℕ) → d < 16 → hexadecimal_value (get_or hexadecimal d 0) ≡ some d
unfolding hexadecimal_value
digit_read d h =
    is_value→eq _ d
      (all_below_sound 16 (λ x. is_value (hexadecimal_value (get_or hexadecimal x 0)) x) d refl h)

digit_printable : (d : ℕ) → d < 16 → (get_or hexadecimal d 0 == 0) ≡ false
digit_printable d h =
    ground (arith, all_below_sound 16 (λ x. not (get_or hexadecimal x 0 == 0)) d refl h)

from_hex_loop-to_hex_loop : (id : List ℕ) → All IsByte id → from_hex_loop (to_hex_loop id) ≡ ok id
unfolding from_hex_loop to_hex_loop
from_hex_loop-to_hex_loop [] h = refl
from_hex_loop-to_hex_loop (b ∷ bs) h =
    rw
      (
        digit_read (b / 16) (omega arith),
        digit_read (b % 16) (omega arith),
        from_hex_loop-to_hex_loop bs h.1,
      )
      (ap (λ (x : ℕ). ok (x ∷ bs)) (omega arith))

length-to_hex_loop : (id : List ℕ) → length (to_hex_loop id) ≡ length id * 2
unfolding to_hex_loop
length-to_hex_loop [] = refl
length-to_hex_loop (b ∷ bs) = omega (arith, length-to_hex_loop bs)

c_string-to_hex_loop :
    (id : List ℕ) → All IsByte id → c_string (to_hex_loop id ++ 0 ∷ []) ≡ to_hex_loop id
unfolding to_hex_loop
c_string-to_hex_loop [] h = refl
c_string-to_hex_loop (b ∷ bs) h = rw (
  digit_printable (b / 16) (omega arith),
  digit_printable (b % 16) (omega arith),
  c_string-to_hex_loop bs h.1,
)

-- Into any buffer of at least 65 bytes, node_id_to_hex writes a text of 64 characters from which
-- node_id_from_hex rebuilds the identifier; into a smaller one it fails with ENOSPC.
pub from_hex-to_hex :
    (id : NodeId) (size : ℕ)
    → IsNodeId id
    → (do text ← to_hex id size; from_hex (c_string text))
      ≡ (if ltb size 65 then err enospc else ok id)
unfolding to_hex from_hex
from_hex-to_hex id size v = elim (Bool-cases (ltb size 65)) [
  | inl small ↦ rw small
  | inr large ↦ rw (
    large,
    c_string-to_hex_loop id v.bytes,
    length-to_hex_loop id,
    v.size,
    from_hex_loop-to_hex_loop id v.bytes,
  )
]

hexadecimal_value-Reads : Reads hexadecimal_value
unfolding hexadecimal_value
hexadecimal_value-Reads = evaluate-Reads hexadecimal_value refl refl (λ c v e. ground arith)

round_accepts :
    (high low : Option ℕ) (rest : Result (List ℕ)) (id : List ℕ)
    → byte_of_digits high low rest ≡ ok id
    → (h l : ℕ) × (bytes : List ℕ) × (high ≡ some h)
      × (low ≡ some l)
      × (rest ≡ ok bytes)
      × (id ≡ ((h * 16 + l) % 256) ∷ bytes)
unfolding byte_of_digits
round_accepts none low rest id e = cc
round_accepts (some h) none rest id e = cc
round_accepts (some h) (some l) (err x) id e = cc
round_accepts (some h) (some l) (ok bytes) id e = (h, l, bytes, refl, refl, refl, ground arith)

-- What an accepted text holds, by rounds.
loop_accepts :
    (n : ℕ) (hex id : List ℕ)
    → length hex ≡ n * 2
    → from_hex_loop hex ≡ ok id
    → (length id ≡ n) × All IsByte id × All IsDigit hex × Spells hex id
unfolding from_hex_loop
loop_accepts zero [] id h e = rw⁻¹ (ok-injective e) (refl, tt, tt, tt)
loop_accepts zero (c ∷ hex) id h e = absurd (omega arith)
loop_accepts (suc n) [] id h e = absurd (omega arith)
loop_accepts (suc n) (c ∷ []) id h e = absurd (omega arith)
loop_accepts (suc n) (c ∷ d ∷ hex) id h e =
    let (u, l, bytes, high, low, rest, same) = round_accepts _ _ _ id e in
    let (size, values, digits, spelt) = loop_accepts n hex bytes (omega arith) rest in
    let first = hexadecimal_value-Reads.0 c u high in
    let second = hexadecimal_value-Reads.0 d l low in
    rw same (
      omega arith,
      (omega arith, values),
      ((u, first), ((l, second), digits)),
      ((u, l, first, second, omega (arith, first.0, second.0)), spelt),
    )

loop_total :
    (n : ℕ) (hex : List ℕ)
    → length hex ≡ n * 2
    → All IsDigit hex
    → (id : List ℕ) × (from_hex_loop hex ≡ ok id)
unfolding from_hex_loop byte_of_digits
loop_total zero [] h d = ([], refl)
loop_total zero (c ∷ hex) h d = absurd (omega arith)
loop_total (suc n) [] h d = absurd (omega arith)
loop_total (suc n) (c ∷ []) h d = absurd (omega arith)
loop_total (suc n) (c ∷ e ∷ hex) h ((u, first), ((l, second), digits)) =
    let high = hexadecimal_value-Reads.1 c u first in
    let low = hexadecimal_value-Reads.1 e l second in
    let (bytes, rest) = loop_total n hex (omega arith) digits in
    (((u * 16 + l) % 256) ∷ bytes, rw (high, low, rest))

-- node_id_from_hex accepts exactly the texts of 64 hexadecimal digits, 0 to 9, a to f and A to F; what it
-- then returns is an identifier of 32 bytes, which the digits spell in pairs, the high one first.
pub from_hex_accepts :
    (hex : List ℕ)
    → ((id : NodeId)
        → from_hex hex ≡ ok id
        → (length hex ≡ 64) × All IsDigit hex × IsNodeId id × Spells hex id)
      × ((length hex ≡ 64) × All IsDigit hex → (id : NodeId) × (from_hex hex ≡ ok id))
unfolding from_hex
from_hex_accepts hex = (
  λ id e.
      let (test, read) = require-ok _ _ _ e in
      let fits : length hex ≡ 64 = (==_iff _ _).0 test in
      let (size, values, digits, spelt) = loop_accepts 32 hex id fits read in
      (fits, digits, record { size = size; bytes = values }, spelt),
  λ h. let (id, e) = loop_total 32 hex h.0 h.1 in (id, rw (h.0) e),
)
