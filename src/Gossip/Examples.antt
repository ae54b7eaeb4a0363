-- ===== src/Gossip/Examples.antt =====
-- A member with the configuration of the examples of Node, and its record.
use trabalho_distribuidos.Prelude.{◌≡◌, refl, false, [], ◌∷◌, arith, ok, ◌>>=◌, pos}
use trabalho_distribuidos.Wire.{put_u16}
use trabalho_distribuidos.Node.{
  config_init_with_uuid, normalize_ip, compute_id, config_validate, address_bytes, validate,
  role_superpeer, equal,
}
use trabalho_distribuidos.Node.Examples.{one_address, config_of, id_of}
use trabalho_distribuidos.Membership.{Member, alive}
use trabalho_distribuidos.Gossip.{
  encode_join_payload, decode_join_payload, encode_record, decode_record,
}
use trabalho_distribuidos.Gossip.RoundTrip.{
  IsConfig, IsRecord, received, decode_join_payload-encode_join_payload,
  decode_record-encode_record,
}

canonical :
    config_init_with_uuid one_address
      (b'1' ∷ b'2' ∷ b'7' ∷ b'.' ∷ b'0' ∷ b'.' ∷ b'0' ∷ b'.' ∷ b'1' ∷ [])
      8000
      (config_of 5).uuid
    ≡ ok (config_of 5)
unfolding config_init_with_uuid normalize_ip
canonical = refl

five-IsConfig : IsConfig one_address (config_of 5)
five-IsConfig = record {
  ip = refl;
  uuid = refl;
  port = omega arith;
  terminated = refl;
  padded = refl;
  canonical = canonical;
}

accepted : config_validate one_address (config_of 5) ≡ ok tt
unfolding config_validate normalize_ip
accepted = refl

decode_join_payload-encode_join_payload_example :
    (encode_join_payload one_address (config_of 5) >>= decode_join_payload one_address)
    ≡ ok (config_of 5)
decode_join_payload-encode_join_payload_example =
    decode_join_payload-encode_join_payload one_address (config_of 5) five-IsConfig accepted

abbrev member : Member
member = record {
  node = record { id = id_of 5; config = config_of 5; process_id = pos 77; role = role_superpeer };
  state = alive;
  last_seen = 900;
  home = id_of 5;
  reporter = id_of 5;
  incarnation = 4;
  sequence = 7;
  version = 1;
  observed_ms = 100;
  probe_ms = 0;
  failed_probes = 0;
  local_registration = false;
}

identified : compute_id one_address (config_of 5) ≡ ok (id_of 5)
unfolding compute_id config_validate normalize_ip address_bytes put_u16
identified = refl

member-IsRecord : IsRecord one_address member
member-IsRecord = record {
  config = five-IsConfig;
  identified = identified;
  id = refl;
  role = omega arith;
  home = refl;
  incarnation = omega arith;
  sequence = omega arith;
  version = omega arith;
  state = omega arith;
  reporter = refl;
}

member_valid : validate one_address member.node ≡ ok tt
unfolding validate compute_id config_validate normalize_ip address_bytes put_u16 equal
member_valid = refl

decode_record-encode_record_example :
    (encode_record one_address member >>= decode_record one_address (pos 99))
    ≡ ok (received (pos 99) member)
decode_record-encode_record_example =
    decode_record-encode_record one_address member member-IsRecord (pos 99) member_valid
