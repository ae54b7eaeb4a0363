-- ===== src/Node/Identity.antt =====
-- node.c: a configuration that the code builds is valid, and a node that it builds validates.
use trabalho_distribuidos.Prelude.{
  ℕ, zero, suc, ◌<◌, ◌≡◌, ◌≢◌, refl, true, not, none, some, List, [], ◌∷◌, ◌++◌, arith, length,
  replicate, All, ◌==◌, ok, einval, ◌>>=◌, >>=-eq-ok, ℤ, is_positive, bytes_eq_refl, Option-cases,
  inl, inr, subst, require-ok,
}
use trabalho_distribuidos.Node.{
  NodeId, NodeConfig, Node, Platform, node_address_size, c_string, has_terminator, in_buffer,
  normalize_ip, config_validate, config_init_with_uuid, compute_id, address_bytes, init, validate,
  digest, role_peer,
}
use trabalho_distribuidos.Wire.{put_u16}

-- What inet_ntop and inet_pton document: the text of an address is not empty, holds no NUL, fits
-- the buffer with its terminator, and reads back as the address in its own family.
pub record Documented (platform : Platform) : Type 0 where
  pub ntop4_text :
      (a t : List ℕ)
      → platform.ntop4 a ≡ ok t
      → (0 < length t) × (length t < 46) × All (λ c. 0 < c) t
  pub ntop6_text :
      (a t : List ℕ)
      → platform.ntop6 a ≡ ok t
      → (0 < length t) × (length t < 46) × All (λ c. 0 < c) t
  pub pton4-ntop4 : (a t : List ℕ) → platform.ntop4 a ≡ ok t → platform.pton4 t ≡ some a
  pub pton6-ntop6 : (a t : List ℕ) → platform.ntop6 a ≡ ok t → platform.pton6 t ≡ some a
  pub pton4-ntop6 : (a t : List ℕ) → platform.ntop6 a ≡ ok t → platform.pton4 t ≡ none

c_string-append_zeros :
    (t : List ℕ) (n : ℕ) → All (λ c. 0 < c) t → c_string (t ++ replicate n 0) ≡ t
c_string-append_zeros [] zero h = refl
c_string-append_zeros [] (suc n) h = refl
c_string-append_zeros (c ∷ t) n h = ground (arith, c_string-append_zeros t n h.1)

has_terminator-append_zeros :
    (t : List ℕ) (n : ℕ) → 0 < n → has_terminator (t ++ replicate n 0) ≡ true
has_terminator-append_zeros [] zero h = absurd (omega arith)
has_terminator-append_zeros [] (suc n) h = refl
has_terminator-append_zeros (c ∷ t) n h = ground (arith, has_terminator-append_zeros t n h)

module _ (platform : Platform) (documented : Documented platform) where
  -- The canonical text of an accepted address: what normalize_ip leaves in its buffer.
  record IsCanonical (ip : List ℕ) : Type 0 where
    terminated : has_terminator ip ≡ true
    again : (normalized : List ℕ) × (normalize_ip platform (c_string ip) ≡ ok normalized)
    address : (bytes : List ℕ) × (address_bytes platform (c_string ip) ≡ ok bytes)

  open documented use {ntop4_text, ntop6_text, pton4-ntop4, pton6-ntop6, pton4-ntop6}

  canonical4 :
      (a t : List ℕ) → platform.ntop4 a ≡ ok t → IsCanonical (in_buffer node_address_size t)
  unfolding normalize_ip address_bytes
  canonical4 a [] h = absurd (omega (arith, ntop4_text a [] h))
  canonical4 a (c ∷ t) h =
      let (_, fits, printable) = ntop4_text a (c ∷ t) h in
      record {
        terminated = has_terminator-append_zeros (c ∷ t) _ (omega arith);
        again = (
          in_buffer node_address_size (c ∷ t),
          rw (c_string-append_zeros (c ∷ t) _ printable, pton4-ntop4 a (c ∷ t) h, h),
        );
        address = (
          a,
          rw (c_string-append_zeros (c ∷ t) _ printable, address_bytes, pton4-ntop4 a (c ∷ t) h),
        );
      }

  canonical6 :
      (a t : List ℕ) → platform.ntop6 a ≡ ok t → IsCanonical (in_buffer node_address_size t)
  unfolding normalize_ip address_bytes
  canonical6 a [] h = absurd (omega (arith, ntop6_text a [] h))
  canonical6 a (c ∷ t) h =
      let (_, fits, printable) = ntop6_text a (c ∷ t) h in
      record {
        terminated = has_terminator-append_zeros (c ∷ t) _ (omega arith);
        again = (
          in_buffer node_address_size (c ∷ t),
          rw (
            c_string-append_zeros (c ∷ t) _ printable,
            pton4-ntop6 a (c ∷ t) h,
            c_string-append_zeros (c ∷ t) _ printable,
            pton6-ntop6 a (c ∷ t) h,
            h,
          ),
        );
        address = (
          a,
          rw (
            c_string-append_zeros (c ∷ t) _ printable,
            address_bytes,
            pton4-ntop6 a (c ∷ t) h,
            c_string-append_zeros (c ∷ t) _ printable,
            pton6-ntop6 a (c ∷ t) h,
          ),
        );
      }

  normalize_ip-IsCanonical :
      (ip normalized : List ℕ) → normalize_ip platform ip ≡ ok normalized → IsCanonical normalized
  unfolding normalize_ip
  normalize_ip-IsCanonical [] normalized h = cc
  normalize_ip-IsCanonical (c ∷ ip) normalized h = elim (Option-cases (platform.pton4 (c ∷ ip))) [
    | inl none4 ↦ elim (Option-cases (platform.pton6 (c ∷ ip))) [
      | inl none6 ↦ cc (h, none4, none6)
      | inr (a, e) ↦ from6 a (rw (none4, e) at h)
    ]
    | inr (a, e) ↦ from4 a (rw e at h)
  ]
    where
      from4 :
          (a : List ℕ)
          → (do t ← platform.ntop4 a; ok (in_buffer node_address_size t)) ≡ ok normalized
          → IsCanonical normalized
      from4 a g =
          let (t, e, same) = >>=-eq-ok _ _ g in
          let same' : in_buffer node_address_size t ≡ normalized = cc in
          subst IsCanonical same' (canonical4 a t e)

      from6 :
          (a : List ℕ)
          → (do t ← platform.ntop6 a; ok (in_buffer node_address_size t)) ≡ ok normalized
          → IsCanonical normalized
      from6 a g =
          let (t, e, same) = >>=-eq-ok _ _ g in
          let same' : in_buffer node_address_size t ≡ normalized = cc in
          subst IsCanonical same' (canonical6 a t e)

  -- A configuration that node_config_init_with_uuid returns is valid, and its address is readable.
  config_init-valid :
      (ip : List ℕ) (port : ℕ) (uuid : List ℕ) (config : NodeConfig)
      → config_init_with_uuid platform ip port uuid ≡ ok config
      → (config_validate platform config ≡ ok tt)
        × ((bytes : List ℕ) × (address_bytes platform (c_string config.ip) ≡ ok bytes))
  unfolding config_init_with_uuid config_validate
  config_init-valid ip port uuid config h =
      let (nonzero, g) = require-ok (not (port == 0)) einval _ h in
      let (normalized, e, same) =
        >>=-eq-ok (normalize_ip platform ip)
          (λ (n : List ℕ). let c : NodeConfig = record { ip = n; port = port; uuid = uuid } in ok c)
          g in
      let built : ◌≡◌ {A = NodeConfig} (record { ip = normalized; port = port; uuid = uuid })
          config =
        cc in
      let good = normalize_ip-IsCanonical ip normalized e in
      subst
        (λ c.
          (config_validate platform c ≡ ok tt)
          × ((bytes : List ℕ) × (address_bytes platform (c_string c.ip) ≡ ok bytes)))
        built (rw (nonzero, good.terminated, good.again.1) refl, good.address)

digest-ok :
    (platform : Platform) (input : List ℕ)
    → platform.sha256 input ≢ none
    → (id : NodeId) × (digest platform input ≡ ok id)
unfolding digest
digest-ok platform input h = elim (Option-cases (platform.sha256 input)) [
  | inl missing ↦ absurd (h missing)
  | inr (id, e) ↦ (id, rw (digest, e))
]

-- Let the address functions behave as documented and SHA256 never fail. A configuration that
-- node_config_init_with_uuid returns can be given to node_init, and the node that this makes under a
-- positive process id passes node_validate.
pub validate-init :
    (platform : Platform)
    → Documented platform
    → ((input : List ℕ) → platform.sha256 input ≢ none)
    → (ip : List ℕ) (port : ℕ) (uuid : List ℕ) (config : NodeConfig) (pid : ℤ)
    → config_init_with_uuid platform ip port uuid ≡ ok config
    → is_positive pid ≡ true
    → (node : Node) × (init platform pid config ≡ ok node) × (validate platform node ≡ ok tt)
unfolding init compute_id validate
validate-init platform documented hashes ip port uuid config pid h positive =
    let (valid, (address, readable)) =
      config_init-valid platform documented ip port uuid config h in
    let (id, e) = digest-ok platform (address ++ (put_u16 config.port ++ config.uuid)) (hashes _) in
    (
      record { id = id; config = config; process_id = pid; role = role_peer },
      rw (valid, readable, e),
      rw (valid, readable, e, positive, bytes_eq_refl id),
    )
