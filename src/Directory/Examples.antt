-- ===== src/Directory/Examples.antt =====
-- A store with one file of one chunk, whose owner is a member.
use trabalho_distribuidos.Prelude.{ℕ, ◌≡◌, refl, true, some, [], ◌∷◌, length, ok, pos}
use trabalho_distribuidos.Node.{Node, equal, role_peer, role_superpeer}
use trabalho_distribuidos.Node.Examples.{config_of, id_of, loopback_text}
use trabalho_distribuidos.Metadata.{
  MetadataChunk, Entry, MetadataStore, create, put_entry, put_in, find_entry, find_in,
  find_document, bucket, bucket_loop,
}
use trabalho_distribuidos.Metadata.Peers.{chunk_peers, peers_of}
use trabalho_distribuidos.Metadata.Announce.{chunk_descriptor, candidate_hashes}
use trabalho_distribuidos.Membership.{Member, SuperPeer, alive, find, find_member}
use trabalho_distribuidos.Transfer.{TransferLookupResult, selector_object_id}
use trabalho_distribuidos.Directory.{
  directory_lookup, find_chunks, find_chunk, endpoints, endpoint_of, found_document,
}
use trabalho_distribuidos.Directory.Holders.{AreFound, directory_lookup-AreFound}

abbrev chunk : MetadataChunk
chunk = record { index = 0; offset = 0; raw_size = 10; compressed_size = 12; hash = id_of 9 }

abbrev entry : Entry
entry = record {
  document = record {
    object_id = id_of 5;
    filename = b'a' ∷ b'.' ∷ b'p' ∷ b'd' ∷ b'f' ∷ [];
    size = 10;
    chunk_count = 1;
    chunk_hashes = candidate_hashes (chunk ∷ []);
    version = 1;
    owner = 0;
  };
  available = record { index = 0; peer = id_of 20 } ∷ record { index = 0; peer = id_of 30 } ∷ [];
  chunks = some (chunk ∷ []);
}

abbrev store : MetadataStore
store = put_entry create (id_of 5) entry

abbrev node_of : ℕ → ℕ → Node
node_of n role = record { id = id_of n; config = config_of n; process_id = pos 77; role = role }

abbrev member_of : ℕ → ℕ → Member
member_of n role = record {
  node = node_of n role;
  state = alive;
  last_seen = 1;
  home = id_of 10;
  reporter = id_of 10;
  incarnation = 1;
  sequence = 1;
  version = 1;
  observed_ms = 100;
  probe_ms = 0;
  failed_probes = 0;
  local_registration = true;
}

-- Peer 20 is a member, peer 30 is not.
abbrev table : SuperPeer
table = record {
  local_node = node_of 10 role_superpeer;
  members = member_of 10 role_superpeer ∷ member_of 20 role_peer ∷ [];
  capacity = 16;
}

abbrev answer : TransferLookupResult
answer = record {
  document = found_document entry.document;
  chunks =
      record {
        descriptor = chunk;
        peers = record { node_id = id_of 20; ip = loopback_text; port = 8000 } ∷ [];
      }
      ∷ [];
}

looked_up : directory_lookup store table selector_object_id (id_of 5) [] ≡ ok answer
unfolding directory_lookup find_chunks find_chunk endpoints endpoint_of find find_member chunk_peers
    peers_of chunk_descriptor find_document find_entry find_in put_entry put_in bucket bucket_loop
    create equal
looked_up = refl

directory_lookup-AreFound_example :
    (e : Entry) × (find_entry store (id_of 5) ≡ some e)
    × (answer.document ≡ found_document e.document)
    × (length answer.chunks ≡ e.document.chunk_count)
    × AreFound store table (id_of 5) 0 answer.chunks
directory_lookup-AreFound_example =
    directory_lookup-AreFound store table (id_of 5) [] answer looked_up
