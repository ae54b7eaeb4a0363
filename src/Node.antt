-- ===== src/Node.antt =====
-- node.h and node.c: the identity of a node. A pointer argument is passed by value, so the guards
-- against NULL are modelled only where NULL has a meaning of its own (`compare`, `equal`).
pub mod Order
pub mod Hex
pub mod Identity
pub mod Uuid
pub mod Examples
use trabalho_distribuidos.Prelude.{
  ℕ, zero, suc, ◌+◌, ◌-◌, ◌≡◌, refl, Bool, true, false, not, ◌&&◌, ◌||◌, Option, none, some, List,
  [], ◌∷◌, ◌++◌, Ordering, length, replicate, bytes_eq, ◌==◌, ltb, leb, if◌then◌else◌, Result, ok,
  err, Errno, einval, eio, ◌>>=◌, ◌>>◌, require, ℤ, pos, negsuc, is_positive, compare_bytes, take,
}
use trabalho_distribuidos.Wire.{put_u16}

-- The 32 bytes of `struct NodeID`.
abbrev pub NodeId : Type 0
NodeId = List ℕ

abbrev pub node_id_size : ℕ
node_id_size = 32

abbrev pub node_uuid_size : ℕ
node_uuid_size = 16

-- INET6_ADDRSTRLEN
abbrev pub node_address_size : ℕ
node_address_size = 46

-- `ip` is the whole buffer, its terminator and padding included.
pub record NodeConfig : Type 0 where
  pub ip : List ℕ
  pub port : ℕ
  pub uuid : List ℕ

-- The values of `NodeRole`, an `int` in C.
abbrev pub role_peer : ℕ
role_peer = 0

abbrev pub role_superpeer : ℕ
role_superpeer = 1

pub record Node : Type 0 where
  pub id : NodeId
  pub config : NodeConfig
  pub process_id : ℤ
  pub role : ℕ

-- node_id_compare: -1, 0 and 1 are `lt`, `eq` and `gt`; `none` is NULL.
unfoldable pub compare : Option NodeId → Option NodeId → Ordering
compare none none = Ordering.eq
compare none (some right) = Ordering.lt
compare (some left) none = Ordering.gt
compare (some left) (some right) = compare_bytes left right

-- node_id_equal: NULL equals nothing.
unfoldable pub equal : Option NodeId → Option NodeId → Bool
equal none right = false
equal (some left) none = false
equal (some left) (some right) = bytes_eq left right

-- node_get_process_id
unfoldable pub get_process_id : Option Node → ℤ
get_process_id none = negsuc 0
get_process_id (some node) = node.process_id

-- What node.c calls of the socket library and of OpenSSL. Texts are without their terminator.
pub record Platform : Type 0 where
  pub pton4 : List ℕ → Option (List ℕ)  -- inet_pton(AF_INET, ...)
  pub pton6 : List ℕ → Option (List ℕ)  -- inet_pton(AF_INET6, ...)
  pub ntop4 : List ℕ → Result (List ℕ)  -- inet_ntop(AF_INET, ...)
  pub ntop6 : List ℕ → Result (List ℕ)  -- inet_ntop(AF_INET6, ...)
  pub sha256 : List ℕ → Option (List ℕ)  -- SHA256, `none` for NULL

-- The text in a buffer: all before its first NUL.
abbrev pub c_string : List ℕ → List ℕ
c_string [] = []
c_string (c ∷ cs) = if c == 0 then [] else c ∷ c_string cs

-- memchr(buffer, '\0', size) != NULL
abbrev pub has_terminator : List ℕ → Bool
has_terminator [] = false
has_terminator (c ∷ cs) = c == 0 || has_terminator cs

-- A text in a zeroed buffer of `size` bytes.
abbrev pub in_buffer : ℕ → List ℕ → List ℕ
in_buffer size text = text ++ replicate (size - length text) 0

abbrev is_empty : List ℕ → Bool
is_empty [] = true
is_empty (c ∷ cs) = false

module _ (platform : Platform) where
  -- normalize_ip: the buffer with the canonical text.
  unfoldable pub normalize_ip : List ℕ → Result (List ℕ)
  normalize_ip ip = if is_empty ip then err einval else elim (platform.pton4 ip) [
    | some ipv4 ↦ do text ← platform.ntop4 ipv4; ok (in_buffer node_address_size text)
    | none ↦ elim (platform.pton6 ip) [
      | some ipv6 ↦ do text ← platform.ntop6 ipv6; ok (in_buffer node_address_size text)
      | none ↦ err einval
    ]
  ]

  -- node_config_validate
  unfoldable pub config_validate : NodeConfig → Result (Unit {0})
  unfolding normalize_ip
  config_validate config = do
    require (not (config.port == 0)) einval
    require (has_terminator config.ip) einval
    normalized ← normalize_ip (c_string config.ip)
    ok tt

  -- node_config_init_with_uuid
  unfoldable pub config_init_with_uuid : List ℕ → ℕ → List ℕ → Result NodeConfig
  unfolding normalize_ip
  config_init_with_uuid ip port uuid = do
    require (not (port == 0)) einval
    normalized ← normalize_ip ip
    ok (record { ip = normalized; port = port; uuid = uuid })

  -- The address bytes that node_compute_id picks.
  unfoldable pub address_bytes : List ℕ → Result (List ℕ)
  address_bytes ip = elim (platform.pton4 ip) [
    | some ipv4 ↦ ok ipv4
    | none ↦ elim (platform.pton6 ip) [ some ipv6 ↦ ok ipv6 | none ↦ err einval ]
  ]

  digest : List ℕ → Result NodeId
  digest input = elim (platform.sha256 input) [ some id ↦ ok id | none ↦ err eio ]

  -- node_compute_id: SHA-256 of address, port in network order and UUID.
  unfoldable pub compute_id : NodeConfig → Result NodeId
  unfolding config_validate address_bytes digest
  compute_id config = do
    config_validate config
    address ← address_bytes (c_string config.ip)
    digest (address ++ (put_u16 config.port ++ config.uuid))

  -- node_init, with the result of getpid().
  unfoldable pub init : ℤ → NodeConfig → Result Node
  init process_id config = do
    id ← compute_id config
    ok (record { id = id; config = config; process_id = process_id; role = role_peer })

  is_identified : Node → Result NodeId → Bool
  is_identified node (ok expected) = equal (some node.id) (some expected)
  is_identified node (err e) = false

  -- node_validate: every failure sets EINVAL.
  unfoldable pub validate : Node → Result (Unit {0})
  unfolding is_identified equal
  validate node = do
    require (is_positive node.process_id && is_identified node (compute_id node.config)) einval
    require (node.role == role_peer || node.role == role_superpeer) einval
    ok tt
