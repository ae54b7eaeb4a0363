-- ===== src/Gossip/RoundTrip.antt =====
-- Configurations and records survive their encoding.
use trabalho_distribuidos.Prelude.{
  ℕ, ◌%◌, ◌^◌, ◌<◌, ◌≤◌, ◌≡◌, refl, true, false, not, ◌||◌, List, ◌∷◌, ◌++◌, arith, length, take,
  drop, ◌==◌, ==_iff, ltb, if◌then◌else◌, ok, err, einval, ◌>>=◌, ℤ, ap, ◌∙◌, length-append,
  take-append, drop-append, take_ge,
}
use trabalho_distribuidos.Wire.{put_u16, put_u64, get_u16}
use trabalho_distribuidos.Wire.RoundTrip.{get_u16-put_u16, get_u64-put_u64, length-put_u16}
use trabalho_distribuidos.Node.{
  NodeConfig, Platform, c_string, has_terminator, config_validate, config_init_with_uuid, init,
  compute_id, role_peer, validate, node_id_size, node_uuid_size, node_address_size, role_superpeer,
}
use trabalho_distribuidos.Node.Order.{equal_refl}
use trabalho_distribuidos.Membership.{Member, removed}
use trabalho_distribuidos.Gossip.{
  join_payload_wire_size, is_padded, config_bytes, record_bytes, Fields, fields_at_end,
  fields_at_role, fields_at_port, fields_at_ip, fields_of, encode_join_payload, decode_join_payload,
  encode_record, node_of_fields, accept_node, accept_fields, decode_record,
}

-- A configuration as node_config_init_with_uuid makes it: the arrays have their sizes, the address is
-- canonical and padded with zeros.
pub record IsConfig (platform : Platform) (config : NodeConfig) : Type 0 where
  pub ip : length config.ip ≡ node_address_size
  pub uuid : length config.uuid ≡ node_uuid_size
  pub port : config.port < 2 ^ 16
  pub terminated : has_terminator config.ip ≡ true
  pub padded : is_padded config.ip ≡ true
  pub canonical :
      config_init_with_uuid platform (c_string config.ip) config.port config.uuid ≡ ok config

-- A configuration that node_config_validate accepts and whose address is canonical is what
-- rpc_decode_join_payload gives back from the bytes of rpc_encode_join_payload.
pub decode_join_payload-encode_join_payload :
    (platform : Platform) (config : NodeConfig)
    → IsConfig platform config
    → config_validate platform config ≡ ok tt
    → (encode_join_payload platform config >>= decode_join_payload platform) ≡ ok config
unfolding encode_join_payload decode_join_payload config_bytes
decode_join_payload-encode_join_payload platform config is valid =
    let tail : List ℕ = put_u16 config.port ++ config.uuid in
    let t = take-append node_address_size config.ip tail is.ip in
    let d = drop-append node_address_size config.ip tail is.ip in
    let p = get_u16-put_u16 config.port config.uuid is.port in
    let u = drop-append 2 (put_u16 config.port) config.uuid (length-put_u16 config.port) in
    let whole = take_ge node_uuid_size config.uuid (omega (arith, is.uuid)) in
    let long : length (config.ip ++ tail) ≡ join_payload_wire_size = omega (
      arith,
      length-append config.ip tail,
      length-append (put_u16 config.port) config.uuid,
      length-put_u16 config.port,
      is.ip,
      is.uuid,
    ) in
    let sized = (==_iff (length (config.ip ++ tail)) join_payload_wire_size).1 long in
    let good : (not (length (config.ip ++ tail) == join_payload_wire_size)
          || (not (has_terminator config.ip) || not (is_padded config.ip)))
        ≡ false =
      rw (sized, is.terminated, is.padded) refl in
    rw valid (
      (λ i.
        if not (length (config.ip ++ tail) == join_payload_wire_size)
          || (not (has_terminator (t i)) || not (is_padded (t i)))
        then err einval
        else config_init_with_uuid platform (c_string (t i)) (get_u16 (d i))
            (take node_uuid_size (drop 2 (d i))))
      ∙ rw good (
          (λ i.
            config_init_with_uuid platform (c_string config.ip) (p i) (take node_uuid_size (u i)))
          ∙ (λ i. config_init_with_uuid platform (c_string config.ip) config.port (whole i))
          ∙ is.canonical))

-- A record that the code sends: a node whose identifier is that of its configuration, and fields that fit
-- their types.
pub record IsRecord (platform : Platform) (m : Member) : Type 0 where
  pub config : IsConfig platform m.node.config
  pub identified : compute_id platform m.node.config ≡ ok m.node.id
  pub id : length m.node.id ≡ node_id_size
  pub role : m.node.role ≤ role_superpeer
  pub home : length m.home ≡ node_id_size
  pub incarnation : m.incarnation < 2 ^ 64
  pub sequence : m.sequence < 2 ^ 64
  pub version : m.version < 2 ^ 64
  pub state : m.state ≤ removed
  pub reporter : length m.reporter ≡ node_id_size

-- What the receiver knows of a member: the clocks and the registration are its own.
abbrev pub received : ℤ → Member → Member
received process_id m = record {
  node = record m.node { process_id = process_id };
  state = m.state;
  last_seen = 0;
  home = m.home;
  reporter = m.reporter;
  incarnation = m.incarnation;
  sequence = m.sequence;
  version = m.version;
  observed_ms = 0;
  probe_ms = 0;
  failed_probes = 0;
  local_registration = false;
}

module _ (platform : Platform) (m : Member) (is : IsRecord platform m) where
  abbrev at_end : List ℕ
  at_end =
      put_u64 m.incarnation
      ++ (put_u64 m.sequence ++ (put_u64 m.version ++ ((m.state % 256) ∷ m.reporter)))

  abbrev at_role : List ℕ
  at_role = (m.node.role % 256) ∷ (m.home ++ at_end)

  abbrev at_port : List ℕ
  at_port = put_u16 m.node.config.port ++ (m.node.config.uuid ++ at_role)

  abbrev expected : Fields
  expected = record {
    id = m.node.id;
    ip = m.node.config.ip;
    port = m.node.config.port;
    uuid = m.node.config.uuid;
    role = m.node.role;
    home = m.home;
    incarnation = m.incarnation;
    sequence = m.sequence;
    version = m.version;
    state = m.state;
    reporter = m.reporter;
  }

  end-expected :
      fields_at_end m.node.id m.node.config.ip m.node.config.port m.node.config.uuid m.node.role
        m.home at_end
      ≡ expected
  unfolding fields_at_end put_u64
  end-expected =
      let n =
        get_u64-put_u64 m.incarnation
          (put_u64 m.sequence ++ (put_u64 m.version ++ ((m.state % 256) ∷ m.reporter)))
          is.incarnation in
      let s =
        get_u64-put_u64 m.sequence (put_u64 m.version ++ ((m.state % 256) ∷ m.reporter))
          is.sequence in
      let v = get_u64-put_u64 m.version ((m.state % 256) ∷ m.reporter) is.version in
      let t : m.state % 256 ≡ m.state = omega (arith, is.state) in
      let r = take_ge node_id_size m.reporter (omega (arith, is.reporter)) in
      λ i. record {
        id = m.node.id;
        ip = m.node.config.ip;
        port = m.node.config.port;
        uuid = m.node.config.uuid;
        role = m.node.role;
        home = m.home;
        incarnation = n i;
        sequence = s i;
        version = v i;
        state = t i;
        reporter = r i;
      }

  role-expected :
      fields_at_role m.node.id m.node.config.ip m.node.config.port m.node.config.uuid at_role
      ≡ expected
  unfolding fields_at_role
  role-expected =
      let r : m.node.role % 256 ≡ m.node.role = omega (arith, is.role) in
      (λ i.
        fields_at_end m.node.id m.node.config.ip m.node.config.port m.node.config.uuid (r i)
          (take-append node_id_size m.home at_end is.home i)
          (drop-append node_id_size m.home at_end is.home i))
      ∙ end-expected

  port-expected : fields_at_port m.node.id m.node.config.ip at_port ≡ expected
  unfolding fields_at_port put_u16
  port-expected =
      (λ i.
        fields_at_role m.node.id m.node.config.ip
          (get_u16-put_u16 m.node.config.port (m.node.config.uuid ++ at_role) is.config.port i)
          (take-append node_uuid_size m.node.config.uuid at_role is.config.uuid i)
          (drop-append node_uuid_size m.node.config.uuid at_role is.config.uuid i))
      ∙ role-expected

  fields-expected : fields_of (record_bytes m) ≡ expected
  unfolding fields_of fields_at_ip record_bytes
  fields-expected =
      let rest : List ℕ = m.node.config.ip ++ at_port in
      (λ i.
        fields_at_ip (take-append node_id_size m.node.id rest is.id i)
          (drop-append node_id_size m.node.id rest is.id i))
      ∙ (λ i.
          fields_at_port m.node.id
            (take-append node_address_size m.node.config.ip at_port is.config.ip i)
            (drop-append node_address_size m.node.config.ip at_port is.config.ip i))
      ∙ port-expected

  node-expected :
      (process_id : ℤ)
      → node_of_fields platform process_id expected
        ≡ ok (record {
          id = m.node.id;
          config = m.node.config;
          process_id = process_id;
          role = role_peer;
        })
  unfolding node_of_fields init
  node-expected process_id = rw (is.config.canonical, is.identified) refl

  -- The record of a valid member whose identifier is that of its configuration, with a canonical
  -- address and fields that fit their types, is decoded by gossip_decode_record from the bytes of
  -- gossip_encode_record: the node, its role, home, reporter, incarnation, sequence, version and state
  -- are as they were sent, and what is local to a superpeer is zero.
  pub decode_record-encode_record :
      (process_id : ℤ)
      → validate platform m.node ≡ ok tt
      → (encode_record platform m >>= decode_record platform process_id)
        ≡ ok (received process_id m)
  unfolding encode_record decode_record accept_fields accept_node
  decode_record-encode_record process_id valid =
      let low : ltb removed m.state ≡ false = ground (arith, is.state) in
      let peer : ltb role_superpeer m.node.role ≡ false = ground (arith, is.role) in
      rw (valid, low)
        (ap (accept_fields platform process_id) fields-expected
          ∙ rw (is.config.terminated, peer, low, is.config.padded)
              (ap (accept_node platform expected) (node-expected process_id)
                ∙ rw (equal_refl m.node.id) refl))
