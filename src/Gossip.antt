-- ===== src/Gossip.antt =====
-- rpc.c and gossip.c: the configuration of a node in a JOIN message, and the record of a member in a GOSSIP
-- message.
pub mod RoundTrip
mod Examples
use trabalho_distribuidos.Prelude.{
  ℕ, zero, suc, ◌+◌, ◌%◌, Bool, true, false, not, ◌&&◌, ◌||◌, List, [], ◌∷◌, ◌++◌, length, take,
  drop, get_or, replicate, ◌==◌, ltb, if◌then◌else◌, Result, ok, err, einval, ebadmsg, ◌>>=◌, ℤ,
}
use trabalho_distribuidos.Wire.{put_u16, put_u64, get_u16, get_u64}
use trabalho_distribuidos.Node.{
  NodeId, NodeConfig, Node, Platform, c_string, has_terminator, config_validate,
  config_init_with_uuid, init, validate, node_id_size, node_uuid_size, node_address_size,
  role_superpeer,
}
use trabalho_distribuidos.Chord.{same_id}
use trabalho_distribuidos.Membership.{Member, removed}
use trabalho_distribuidos.Membership.Updates.{succeeds}

-- JOIN_PAYLOAD_WIRE_SIZE
abbrev pub join_payload_wire_size : ℕ
join_payload_wire_size = node_address_size + 2 + node_uuid_size

-- The loop that wants zeros behind the terminator.
abbrev pub all_zero : List ℕ → Bool
all_zero [] = true
all_zero (c ∷ cs) = c == 0 && all_zero cs

abbrev pub is_padded : List ℕ → Bool
is_padded [] = true
is_padded (c ∷ cs) = if c == 0 then all_zero cs else is_padded cs

-- MEMBERSHIP_WIRE_SIZE
abbrev pub membership_wire_size : ℕ
membership_wire_size = 186

-- The bytes of a configuration.
unfoldable pub config_bytes : NodeConfig → List ℕ
config_bytes config = config.ip ++ (put_u16 config.port ++ config.uuid)

-- The bytes that gossip_encode_record puts one behind the other.
unfoldable pub record_bytes : Member → List ℕ
record_bytes m =
    m.node.id
    ++ (m.node.config.ip
        ++ (put_u16 m.node.config.port
            ++ (m.node.config.uuid
                ++ ((m.node.role % 256)
                    ∷ (m.home
                        ++ (put_u64 m.incarnation
                            ++ (put_u64 m.sequence
                                ++ (put_u64 m.version ++ ((m.state % 256) ∷ m.reporter)))))))))

-- The fields of a record before they are checked.
pub record Fields : Type 0 where
  pub id : NodeId
  pub ip : List ℕ
  pub port : ℕ
  pub uuid : List ℕ
  pub role : ℕ
  pub home : NodeId
  pub incarnation : ℕ
  pub sequence : ℕ
  pub version : ℕ
  pub state : ℕ
  pub reporter : NodeId

-- The fields behind the domain, behind the UUID, and behind the address.
unfoldable pub fields_at_end : NodeId → List ℕ → ℕ → List ℕ → ℕ → NodeId → List ℕ → Fields
fields_at_end id ip port uuid role home rest = record {
  id = id;
  ip = ip;
  port = port;
  uuid = uuid;
  role = role;
  home = home;
  incarnation = get_u64 rest;
  sequence = get_u64 (drop 8 rest);
  version = get_u64 (drop 16 rest);
  state = get_or rest 24 0;
  reporter = take node_id_size (drop 25 rest);
}

unfoldable pub fields_at_role : NodeId → List ℕ → ℕ → List ℕ → List ℕ → Fields
unfolding fields_at_end
fields_at_role id ip port uuid rest =
    fields_at_end id ip port uuid (get_or rest 0 0) (take node_id_size (drop 1 rest))
      (drop node_id_size (drop 1 rest))

unfoldable pub fields_at_port : NodeId → List ℕ → List ℕ → Fields
unfolding fields_at_role
fields_at_port id ip rest =
    fields_at_role id ip (get_u16 rest) (take node_uuid_size (drop 2 rest))
      (drop node_uuid_size (drop 2 rest))

unfoldable pub fields_at_ip : NodeId → List ℕ → Fields
unfolding fields_at_port
fields_at_ip id rest = fields_at_port id (take node_address_size rest) (drop node_address_size rest)

unfoldable pub fields_of : List ℕ → Fields
unfolding fields_at_ip
fields_of input = fields_at_ip (take node_id_size input) (drop node_id_size input)

-- The member of a decoded record: what is not in the record is zero.
abbrev pub member_of : Fields → Node → Member
member_of f node = record {
  node = record node { role = f.role };
  state = f.state;
  last_seen = 0;
  home = f.home;
  reporter = f.reporter;
  incarnation = f.incarnation;
  sequence = f.sequence;
  version = f.version;
  observed_ms = 0;
  probe_ms = 0;
  failed_probes = 0;
  local_registration = false;
}

module _ (platform : Platform) where
  -- rpc_encode_join_payload
  unfoldable pub encode_join_payload : NodeConfig → Result (List ℕ)
  unfolding config_bytes
  encode_join_payload config =
      if succeeds (config_validate platform config) then ok (config_bytes config) else err einval

  -- rpc_decode_join_payload
  unfoldable pub decode_join_payload : List ℕ → Result NodeConfig
  decode_join_payload payload =
      let ip = take node_address_size payload in
      let rest = drop node_address_size payload in
      if not (length payload == join_payload_wire_size)
        || (not (has_terminator ip) || not (is_padded ip))
      then err einval
      else config_init_with_uuid platform (c_string ip) (get_u16 rest)
          (take node_uuid_size (drop 2 rest))

  -- gossip_encode_record
  unfoldable pub encode_record : Member → Result (List ℕ)
  unfolding record_bytes
  encode_record m =
      if not (succeeds (validate platform m.node)) || ltb removed m.state
      then err einval
      else ok (record_bytes m)

  -- The node that the fields describe; any failure is EBADMSG.
  unfoldable pub node_of_fields : ℤ → Fields → Result Node
  node_of_fields process_id f =
      config_init_with_uuid platform (c_string f.ip) f.port f.uuid >>= λ config.
      init platform process_id config

  unfoldable pub accept_node : Fields → Result Node → Result Member
  accept_node f (err error) = err ebadmsg
  accept_node f (ok node) = if same_id node.id f.id then ok (member_of f node) else err ebadmsg

  unfoldable pub accept_fields : ℤ → Fields → Result Member
  unfolding node_of_fields accept_node
  accept_fields process_id f =
      if not (has_terminator f.ip)
        || (ltb role_superpeer f.role || (ltb removed f.state || not (is_padded f.ip)))
      then err ebadmsg
      else accept_node f (node_of_fields process_id f)

  -- gossip_decode_record, with the result of getpid(); `input` has 186 bytes.
  unfoldable pub decode_record : ℤ → List ℕ → Result Member
  unfolding fields_of accept_fields
  decode_record process_id input = accept_fields process_id (fields_of input)
