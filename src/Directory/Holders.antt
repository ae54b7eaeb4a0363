-- ===== src/Directory/Holders.antt =====
-- What an answer of directory_lookup says about the peers.
use trabalho_distribuidos.Prelude.{
  ℕ, zero, suc, ◌<◌, ◌≡◌, ◌⊎◌, refl, Bool, true, false, ◌&&◌, ◌||◌, none, some, List, [], ◌∷◌,
  arith, length, bytes_eq, bytes_eq_iff, ◌==◌, leb, ok, >>=-eq-ok, ok-injective, ap, ◌∙◌, sym,
  subst, Bool-cases, Option-cases, inl, inr,
}
use trabalho_distribuidos.Node.{NodeId, c_string}
use trabalho_distribuidos.Metadata.{
  ObjectId, FileMetadata, Availability, Entry, MetadataStore, find_entry, find_document,
}
use trabalho_distribuidos.Metadata.Peers.{has_item, peers_of, chunk_peers}
use trabalho_distribuidos.Metadata.Announce.{chunk_descriptor}
use trabalho_distribuidos.Membership.{
  SuperPeer, is_active, find, find_member, is_registered, removed,
}
use trabalho_distribuidos.Transfer.{
  TransferEndpoint, TransferChunkLocations, TransferLookupResult, selector_object_id,
}
use trabalho_distribuidos.Directory.{
  endpoint_of, endpoints, find_chunk, find_chunks, found_document, directory_lookup,
}

-- A peer is among the endpoints.
abbrev pub offers : List TransferEndpoint → NodeId → Bool
offers [] q = false
offers (e ∷ es) q = bytes_eq e.node_id q || offers es q

abbrev is_among : List NodeId → NodeId → Bool
is_among [] q = false
is_among (p ∷ ps) q = bytes_eq p q || is_among ps q

peers_of-has_item :
    (items : List Availability) (index : ℕ) (q : NodeId)
    → is_among (peers_of items index) q ≡ has_item items index q
unfolding peers_of has_item
peers_of-has_item [] index q = refl
peers_of-has_item (item ∷ items) index q = ground (arith, peers_of-has_item items index q)

-- A node has an endpoint if it is registered here, and then its own.
endpoint_of-cases :
    (table : SuperPeer) (owner : NodeId)
    → ((endpoint_of table owner ≡ none) × (is_registered table owner ≡ false))
      ⊎ ((e : TransferEndpoint) × (endpoint_of table owner ≡ some e)
          × (e.node_id ≡ owner)
          × (is_registered table owner ≡ true))
unfolding endpoint_of find is_registered
endpoint_of-cases table owner = elim (Option-cases (find_member table.members owner)) [
  | inl missing ↦ inl (rw (endpoint_of, find, missing) refl, rw (is_registered, missing) refl)
  | inr (m, found) ↦ elim (Bool-cases (is_active m)) [
    | inl active ↦
        let still : (m.state == removed) ≡ false = ground arith in
        inr (
          record { node_id = owner; ip = c_string m.node.config.ip; port = m.node.config.port },
          rw (endpoint_of, find, found, still, active) refl,
          refl,
          rw (is_registered, found) active,
        )
    | inr idle ↦ inl (
      elim (Bool-cases (m.state == removed)) [
        | inl gone ↦ rw (endpoint_of, find, found, gone) refl
        | inr there ↦ rw (endpoint_of, find, found, there, idle) refl
      ],
      rw (is_registered, found) idle,
    )
  ]
]

endpoints-none :
    (table : SuperPeer) (p : NodeId) (ps : List NodeId)
    → endpoint_of table p ≡ none
    → endpoints table (p ∷ ps) ≡ endpoints table ps
unfolding endpoints
endpoints-none table p ps h = rw (h, endpoints) refl

endpoints-some :
    (table : SuperPeer) (p : NodeId) (ps : List NodeId) (e : TransferEndpoint)
    → endpoint_of table p ≡ some e
    → endpoints table (p ∷ ps) ≡ e ∷ endpoints table ps
unfolding endpoints
endpoints-some table p ps e h = rw (h, endpoints) refl

-- The endpoints are those of the owners that are registered.
endpoints-offers :
    (table : SuperPeer) (owners : List NodeId) (q : NodeId)
    → offers (endpoints table owners) q ≡ (is_among owners q && is_registered table q)
endpoints-offers table [] q = unfold endpoints in refl
endpoints-offers table (p ∷ ps) q =
    let ih = endpoints-offers table ps q in
    elim (endpoint_of-cases table p) [
      | inl (absent, unknown) ↦
          ap (λ (l : List TransferEndpoint). offers l q) (endpoints-none table p ps absent)
          ∙ ih
          ∙ elim (Bool-cases (bytes_eq p q)) [
            | inl same ↦
                let off : is_registered table q ≡ false =
                  subst (λ (n : NodeId). is_registered table n ≡ false) ((bytes_eq_iff p q).0 same)
                    unknown in
                ground (arith, off)
            | inr other ↦ ground (arith, other)
          ]
      | inr (e, present, own, known) ↦
          ap (λ (l : List TransferEndpoint). offers l q) (endpoints-some table p ps e present)
          ∙ elim (Bool-cases (bytes_eq p q)) [
            | inl same ↦
                let on : is_registered table q ≡ true =
                  subst (λ (n : NodeId). is_registered table n ≡ true) ((bytes_eq_iff p q).0 same)
                    known in
                let there : bytes_eq e.node_id q ≡ true =
                  ap (λ (n : NodeId). bytes_eq n q) own ∙ same in
                ground (arith, ih, on, there, same)
            | inr other ↦
                let there : bytes_eq e.node_id q ≡ false =
                  ap (λ (n : NodeId). bytes_eq n q) own ∙ other in
                ground (arith, ih, there, other)
          ]
    ]

-- What an answer says of a chunk: its descriptor is the one that was announced, there is a peer, and
-- a peer is named exactly if it has announced the chunk and is registered as active.
pub record IsFound (store : MetadataStore) (table : SuperPeer) (id : ObjectId) (index : ℕ)
    (chunk : TransferChunkLocations) : Type 0 where
  pub entry : Entry
  pub known : find_entry store id ≡ some entry
  pub descriptor : chunk_descriptor store id index ≡ ok chunk.descriptor
  pub some_peer : 0 < length chunk.peers
  pub peers :
      (q : NodeId)
      → offers chunk.peers q ≡ (has_item entry.available index q && is_registered table q)

abbrev pub AreFound :
    MetadataStore → SuperPeer → ObjectId → ℕ → List TransferChunkLocations → Type 0
AreFound store table id index [] = Unit {0}
AreFound store table id index (chunk ∷ chunks) =
    IsFound store table id index chunk × AreFound store table id (suc index) chunks

chunk_peers-entry :
    (store : MetadataStore) (id : ObjectId) (index : ℕ) (owners : List NodeId)
    → chunk_peers store id index ≡ ok owners
    → (entry : Entry) × (find_entry store id ≡ some entry)
      × (owners ≡ peers_of entry.available index)
unfolding chunk_peers
chunk_peers-entry store id index owners h = elim (Option-cases (find_entry store id)) [
  | inl missing ↦ cc (rw (chunk_peers, missing) at h)
  | inr (entry, found) ↦ elim (Bool-cases (leb entry.document.chunk_count index)) [
    | inl out ↦ cc (rw (chunk_peers, found, out) at h)
    | inr within ↦ (entry, found, sym (ok-injective (rw (chunk_peers, found, within) at h)))
  ]
]

find_chunk-IsFound :
    (store : MetadataStore) (table : SuperPeer) (id : ObjectId) (index : ℕ)
    (chunk : TransferChunkLocations)
    → find_chunk store table id index ≡ ok chunk
    → IsFound store table id index chunk
unfolding find_chunk
find_chunk-IsFound store table id index chunk h =
    let (descriptor, described, h1) = >>=-eq-ok (chunk_descriptor store id index) _ h in
    let (owners, owned, h2) = >>=-eq-ok (chunk_peers store id index) _ h1 in
    let (entry, known, same) = chunk_peers-entry store id index owners owned in
    elim (Bool-cases (length (endpoints table owners) == 0)) [
      | inl nobody ↦ cc (rw nobody at h2)
      | inr somebody ↦
          subst (IsFound store table id index) (ok-injective (rw somebody at h2)) (record {
            entry = entry;
            known = known;
            descriptor = described;
            some_peer = ground arith;
            peers = λ q.
                endpoints-offers table owners q
                ∙ ap (λ (b : Bool). b && is_registered table q)
                    (ap (λ (l : List NodeId). is_among l q) same
                      ∙ peers_of-has_item entry.available index q);
          })
    ]

find_chunks-AreFound :
    (store : MetadataStore) (table : SuperPeer) (id : ObjectId) (count index : ℕ)
    (chunks : List TransferChunkLocations)
    → find_chunks store table id count index ≡ ok chunks
    → (length chunks ≡ count) × AreFound store table id index chunks
unfolding find_chunks
find_chunks-AreFound store table id zero index chunks h =
    subst (λ (c : List TransferChunkLocations). (length c ≡ 0) × AreFound store table id index c)
      (ok-injective h) (refl, tt)
find_chunks-AreFound store table id (suc count) index chunks h =
    let (chunk, first, h1) = >>=-eq-ok (find_chunk store table id index) _ h in
    let (others, later, h2) = >>=-eq-ok (find_chunks store table id count (suc index)) _ h1 in
    let (size, found) = find_chunks-AreFound store table id count (suc index) others later in
    subst
      (λ (c : List TransferChunkLocations).
        (length c ≡ suc count) × AreFound store table id index c)
      (ok-injective h2) (ap suc size, (find_chunk-IsFound store table id index chunk first, found))

find_document-entry :
    (store : MetadataStore) (id : ObjectId) (document : FileMetadata)
    → find_document true store id ≡ ok document
    → (entry : Entry) × (find_entry store id ≡ some entry) × (entry.document ≡ document)
unfolding find_document
find_document-entry store id document h = elim (Option-cases (find_entry store id)) [
  | inl missing ↦ cc (rw (find_document, missing) at h)
  | inr (entry, found) ↦ elim (Option-cases entry.document.chunk_hashes) [
    | inl none' ↦ (entry, found, ok-injective (rw (find_document, found, none') at h))
    | inr (hashes, some') ↦ (entry, found, ok-injective (rw (find_document, found, some') at h))
  ]
]

-- An answer of directory_lookup for an identifier: the document is the one in the store, there is an answer for each of its chunks
-- in their order, with the announced descriptor and at least one peer, and a peer is
-- named for a chunk exactly if it has announced the chunk and is registered as active.
pub directory_lookup-AreFound :
    (store : MetadataStore) (table : SuperPeer) (id : ObjectId) (name : List ℕ)
    (result : TransferLookupResult)
    → directory_lookup store table selector_object_id id name ≡ ok result
    → (entry : Entry) × (find_entry store id ≡ some entry)
      × (result.document ≡ found_document entry.document)
      × (length result.chunks ≡ entry.document.chunk_count)
      × AreFound store table id 0 result.chunks
unfolding directory_lookup
directory_lookup-AreFound store table id name result h =
    let (document, known, h1) = >>=-eq-ok (find_document true store id) _ h in
    let (chunks, found, h2) = >>=-eq-ok (find_chunks store table id document.chunk_count 0) _ h1 in
    let (entry, there, same) = find_document-entry store id document known in
    let (size, all) = find_chunks-AreFound store table id document.chunk_count 0 chunks found in
    let e = ok-injective h2 in
    (
      entry,
      there,
      sym (ap (λ (r : TransferLookupResult). r.document) e) ∙ ap found_document (sym same),
      ap (λ (r : TransferLookupResult). length r.chunks) (sym e)
          ∙ size
          ∙ ap (λ (d : FileMetadata). d.chunk_count) (sym same),
      subst (λ (r : TransferLookupResult). AreFound store table id 0 r.chunks) e all,
    )
