-- ===== src/Node/Hex.antt =====
-- node.c: node_id_to_hex, hexadecimal_value and node_id_from_hex. Characters are their codes.
pub mod RoundTrip
use trabalho_distribuidos.Prelude.{
  ℕ, zero, suc, ◌+◌, ◌-◌, ◌*◌, ◌/◌, ◌%◌, ◌<◌, ◌≤◌, ◌≡◌, refl, Bool, true, false, not, ◌&&◌, ◌||◌,
  Option, none, some, List, [], ◌∷◌, ◌++◌, arith, length, All, IsByte, get_or, ◌==◌, ltb, leb,
  if◌then◌else◌, Result, ok, err, einval, enospc, ◌>>=◌, ◌>>◌, require, bytes_eq, ◌⊎◌, ◌≢◌,
}
use trabalho_distribuidos.Node.{NodeId, node_id_size}
use trabalho_distribuidos.Node.Order.{IsNodeId}

-- NODE_ID_HEX_SIZE
abbrev pub node_id_hex_size : ℕ
node_id_hex_size = node_id_size * 2 + 1

-- "0123456789abcdef"
abbrev hexadecimal : List ℕ
hexadecimal =
    b'0' ∷ b'1' ∷ b'2' ∷ b'3' ∷ b'4' ∷ b'5' ∷ b'6' ∷ b'7' ∷ b'8' ∷ b'9' ∷ b'a' ∷ b'b' ∷ b'c' ∷ b'd'
    ∷ b'e' ∷ b'f' ∷ []

-- The loop of node_id_to_hex: two digits for each byte.
pub to_hex_loop : List ℕ → List ℕ
to_hex_loop [] = []
to_hex_loop (byte ∷ bytes) =
    get_or hexadecimal (byte / 16) 0 ∷ get_or hexadecimal (byte % 16) 0 ∷ to_hex_loop bytes

-- node_id_to_hex: the buffer up to its terminator.
pub to_hex : NodeId → ℕ → Result (List ℕ)
unfolding to_hex_loop
to_hex id output_size =
    if ltb output_size node_id_hex_size then err enospc else ok (to_hex_loop id ++ 0 ∷ [])

-- `none` is the -1 of hexadecimal_value.
pub hexadecimal_value : ℕ → Option ℕ
hexadecimal_value character =
    if leb b'0' character && leb character b'9'
    then some (character - b'0')
    else if leb b'a' character && leb character b'f'
    then some (character - b'a' + 10)
    else if leb b'A' character && leb character b'F'
    then some (character - b'A' + 10)
    else none

-- One round of the loop of node_id_from_hex, and the bytes of the rounds after it.
pub byte_of_digits : Option ℕ → Option ℕ → Result (List ℕ) → Result (List ℕ)
byte_of_digits none low rest = err einval
byte_of_digits (some high) none rest = err einval
byte_of_digits (some high) (some low) rest = do bytes ← rest; ok (((high * 16 + low) % 256) ∷ bytes)

pub from_hex_loop : List ℕ → Result (List ℕ)
unfolding hexadecimal_value byte_of_digits
from_hex_loop (first ∷ second ∷ digits) =
    byte_of_digits (hexadecimal_value first) (hexadecimal_value second) (from_hex_loop digits)
from_hex_loop _ = ok []

-- node_id_from_hex, on the text before the terminator.
pub from_hex : List ℕ → Result NodeId
unfolding from_hex_loop
from_hex hex = do require (length hex == node_id_hex_size - 1) einval; from_hex_loop hex
