-- ===== src/Lib.antt =====
-- Verification library of Trabalho-Distribuidos, a file service on a ring of peers and superpeers.
--
-- The parts and their files:
-- - Wire: wire.h, integers in network byte order. Every codec uses it.
-- - Node: node.c and node.h, the identity of a node: its configuration, the identifier that SHA-256
--   gives it, the order of identifiers, their hexadecimal text (Node/Hex) and fresh UUIDs (Node/Uuid).
-- - Chord: chord.c and chord.h, the routing state of one node: successor, predecessor, 256 fingers
--   and the nodes marked as failed. Chord/Interval and Chord/Power hold the arithmetic of the ring
--   of 2 ^ 256 positions. A peer is admitted if its identifier is that of its configuration, by Node.
-- - Protocol: protocol.c and protocol.h, the messages (Protocol/Message) and their checksum
--   (Protocol/Crc); Protocol/Stream is network_recv_exact of network.c.
-- - C4Log: c4_log.c and c4_log.h, the replicated log: entries as bytes (C4Log/Codec), appending
--   (C4Log/Append), the journal of transactions (C4Log/Journal) and opening the two files after a
--   crash (C4Log/Open). It uses Wire and the checksum of Protocol.
-- - Membership: membership.c and superpeer.h, the table of the members that a superpeer knows: what
--   registrations, records of other superpeers and heartbeats do to it (Membership/Updates), and the
--   failure detector (Membership/Tick). Membership/Change says what a call can do to the table.
-- - Metadata: metadata.c and metadata.h, the store of files, a hash table of 257 chains: the peers that
--   have a chunk (Metadata/Peers) and publishing (Metadata/Announce). Metadata/Catalogue is the abstract
--   map that the store stands for.
-- - Transfer: transfer_types.h and transfer_protocol.c, the payloads of the messages about files:
--   metadata (Transfer/Document), chunks (Transfer/Chunk), announcements (Transfer/Announcement),
--   requests and answers (Transfer/Lookup), and the identifiers of transactions (Transfer/Transaction).
-- - Directory: directory.c, publishing and finding files: it joins Metadata, Membership and Transfer.
-- - Gossip: gossip.c, the record of a member in a message, and the payload of a JOIN message of rpc.c.
-- - ChordNetwork: chord_network.c, the answers to other nodes, the lookup over the ring
--   (ChordNetwork/Lookup), joining it and its upkeep (ChordNetwork/Upkeep). It joins Chord with the payloads of Gossip.
-- - Prelude: what the parts share: tests on numbers, lists, the results of C functions, memcmp, and what
--   hexadecimal digits spell (Prelude/Digits).
--
-- How C is read: a struct is a record and is passed by value, so the checks for NULL are left out but
-- for node_id_compare, node_id_equal and the payload of a message. A function that returns -1 and sets
-- errno returns Result; one that changes an object returns the new object. Bytes are numbers, and
-- machine integers keep their wrap-around. Each operation of a ring or of a log runs under its mutex,
-- so it is one step.
--
-- Clocks are arguments: `now` is the monotonic clock in milliseconds, `wall` is time(NULL). The size of
-- SuperPeerMember is an argument, and `allocated` says whether an allocation succeeds.
--
-- Parameters: inet_pton, inet_ntop and SHA256 (the record Platform of Node), crc32 of zlib, and the
-- outcome of each write to a file (Write of C4Log: stored, or torn after some bytes, with or without
-- the ftruncate that undoes it). A torn write that is not undone is also a crash. In ChordNetwork
-- `call` is what rpc_call_deadline gets from a node in a round of a lookup, an answer or an error.
--
-- Fuel: crc32_loop, load_entries and load_journal run on as many rounds as there are bytes, and each
-- round takes at least one byte. find_loop has the 257 rounds of the loop in the source.
--
-- Not modelled: sockets, threads, timeouts, and the failure of most allocations;
-- membership_save, membership_load and object_id_file; the parts above (heartbeat.c,
-- storage.c, c4_cluster.c, superpeer.c, peer.c), of which this library is the base.
mod Prelude
pub mod Wire
pub mod Node
pub mod Chord
pub mod Protocol
pub mod C4Log
pub mod Membership
pub mod Metadata
pub mod Transfer
pub mod Directory
pub mod Gossip
pub mod ChordNetwork
