-- ===== src/Node/Examples.antt =====
-- A platform that knows one address, and runs of the identity functions on it.
use trabalho_distribuidos.Prelude.{
  ℕ, ◌<◌, ◌≡◌, refl, none, some, List, [], ◌∷◌, ◌++◌, arith, replicate, get_or, bytes_eq,
  bytes_eq_iff, if◌then◌else◌, ltb, Bool-cases, inl, inr, subst, All, length, ok, err, enospc,
  ◌>>=◌, pos, ok-injective, sym, IsDigit, Spells, take,
}
use trabalho_distribuidos.Node.{
  NodeId, NodeConfig, Node, Platform, c_string, config_init_with_uuid, normalize_ip, init, validate,
  node_uuid_size,
}
use trabalho_distribuidos.Node.Order.{IsNodeId}
use trabalho_distribuidos.Node.Hex.{to_hex, from_hex}
use trabalho_distribuidos.Node.Hex.RoundTrip.{from_hex-to_hex, from_hex_accepts}
use trabalho_distribuidos.Node.Uuid.{
  Read, got, interrupted, delivered, IsUuid, generate_uuid, generate_uuid-delivered,
}
use trabalho_distribuidos.Node.Identity.{Documented, validate-init}

abbrev pub loopback : List ℕ
loopback = 127 ∷ 0 ∷ 0 ∷ 1 ∷ []

abbrev pub loopback_text : List ℕ
loopback_text = b'1' ∷ b'2' ∷ b'7' ∷ b'.' ∷ b'0' ∷ b'.' ∷ b'0' ∷ b'.' ∷ b'1' ∷ []

-- The hash is the last byte of the UUID, in 32 bytes.
abbrev pub one_address : Platform
one_address = record {
  pton4 = λ t. if bytes_eq t loopback_text then some loopback else none;
  pton6 = λ t. none;
  ntop4 = λ a. if bytes_eq a loopback then ok loopback_text else err enospc;
  ntop6 = λ a. err enospc;
  sha256 = λ input. some (replicate 31 0 ++ get_or input 21 0 ∷ []);
}

known_address : (a t : List ℕ) → one_address.ntop4 a ≡ ok t → (a ≡ loopback) × (t ≡ loopback_text)
known_address a t h = elim (Bool-cases (bytes_eq a loopback)) [
  | inl known ↦ ((bytes_eq_iff a loopback).0 known, sym (ok-injective (rw known at h)))
  | inr other ↦ cc (h, other)
]

one_address-Documented : Documented one_address
one_address-Documented = record {
  ntop4_text = λ a t h.
      subst (λ (s : List ℕ). (0 < length s) × (length s < 46) × All (λ c. 0 < c) s)
        (sym (known_address a t h).1) (omega arith);
  ntop6_text = λ a t h. cc;
  pton4-ntop4 = λ a t h. rw ((known_address a t h).0, (known_address a t h).1) refl;
  pton6-ntop6 = λ a t h. cc;
  pton4-ntop6 = λ a t h. cc;
}

-- The configuration of the node whose UUID ends in `n`.
abbrev pub config_of : ℕ → NodeConfig
config_of n = record {
  ip = loopback_text ++ replicate 37 0;
  port = 8000;
  uuid = replicate 15 0 ++ n ∷ [];
}

abbrev pub id_of : ℕ → NodeId
id_of n = replicate 31 0 ++ n ∷ []

pub id_of-IsNodeId : (n : ℕ) → n < 256 → IsNodeId (id_of n)
id_of-IsNodeId n h = record { size = refl; bytes = omega arith }

config_made :
    config_init_with_uuid one_address loopback_text 8000 (replicate 15 0 ++ 5 ∷ [])
    ≡ ok (config_of 5)
unfolding config_init_with_uuid normalize_ip
config_made = refl

validate-init_example :
    (node : Node) × (init one_address (pos 77) (config_of 5) ≡ ok node)
    × (validate one_address node ≡ ok tt)
validate-init_example =
    validate-init one_address one_address-Documented (λ input e. cc) loopback_text 8000
      (replicate 15 0 ++ 5 ∷ []) (config_of 5) (pos 77) config_made refl

from_hex-to_hex_example :
    (do text ← to_hex (id_of 171) 65; from_hex (c_string text))
    ≡ (if ltb 65 65 then err enospc else ok (id_of 171))
from_hex-to_hex_example = from_hex-to_hex (id_of 171) 65 (id_of-IsNodeId 171 (omega arith))

-- Digits of both cases.
abbrev mixed : List ℕ
mixed = replicate 31 b'a' ++ (b'0' ∷ b'F' ∷ replicate 31 b'7')

from_hex_accepts_example :
    ((id : NodeId)
      → from_hex mixed ≡ ok id
      → (length mixed ≡ 64) × All IsDigit mixed × IsNodeId id × Spells mixed id)
    × ((length mixed ≡ 64) × All IsDigit mixed → (id : NodeId) × (from_hex mixed ≡ ok id))
from_hex_accepts_example = from_hex_accepts mixed

-- Twenty bytes in three reads, the second of them interrupted.
abbrev reads : List Read
reads = got 250 (replicate 5 9) ∷ interrupted ∷ got 3 (replicate 13 255) ∷ []

generate_uuid-delivered_example :
    (uuid : List ℕ) × (generate_uuid (ok tt) reads (ok tt) ≡ some (ok uuid))
    × IsUuid (take node_uuid_size (delivered reads)) uuid
generate_uuid-delivered_example = generate_uuid-delivered reads (tt, (tt, (tt, tt))) (omega arith)
